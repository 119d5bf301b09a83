-- ===== src/Taskservice/Auth/Files.antt =====
-- `_parse_tokens` of src/panopticon/taskservice/auth.py, on what `json.loads` answers. `str.casefold` is a
-- parameter.
use text.Mathlib.Text.{starts_with}
use panopticon_next.Base.{
  String, ℕ, Bool, true, false, not, ◌&&◌, ◌||◌, Option, none, some, List, [], ◌∷◌, ◌++◌, map,
  Result, ok, err, ◌>>◌, raise_if, value_error, any, all, contains, leb, codes,
}
use panopticon_next.Base.Table.{lookup}
use panopticon_next.Taskservice.Auth.{AuthTokens, text_size}

-- A value of the parsed object; an element that is not a text is none.
pub data Field : Type 0 where
  other : Field
  list : List (Option String) → Field

abbrev pub min_token_length : ℕ
min_token_length = 12

abbrev between : ℕ → ℕ → ℕ → Bool
between lo hi c = leb lo c && leb c hi

-- `[A-Za-z0-9._~+/-]`.
abbrev is_token_char : ℕ → Bool
is_token_char c =
    between 65 90 c
    || between 97 122 c
    || between 45 57 c
    || between 43 43 c
    || between 95 95 c
    || between 126 126 c

-- `=*\Z`.
abbrev all_padding : List ℕ → Bool
all_padding [] = true
all_padding (c ∷ cs) = between 61 61 c && all_padding cs

abbrev continues : List ℕ → Bool
continues [] = true
continues (c ∷ cs) = (is_token_char c && continues cs) || (between 61 61 c && all_padding cs)

-- `_BEARER_TOKEN.fullmatch`.
abbrev pub is_bearer : List ℕ → Bool
is_bearer [] = false
is_bearer (c ∷ cs) = is_token_char c && continues cs

-- `part in s`.
abbrev pub has_part : String → String → Bool
has_part part String.[] = starts_with String.[] part
has_part part (String.◌∷◌ c s) = starts_with (String.◌∷◌ c s) part || has_part part s

abbrev pub reserved_tokens : List String
reserved_tokens =
    "application/json" ∷ "authentication" ∷ "content-length" ∷ "content-type" ∷ "www-authenticate"
    ∷ []

abbrev pub list_of : Option Field → Option (List (Option String))
list_of none = none
list_of (some other) = none
list_of (some (list xs)) = some xs

-- `raw.get("read", [])`.
abbrev pub read_field : Option Field → Option Field
read_field none = some (list [])
read_field (some field) = some field

-- The texts of a list, which are all its elements where they were checked.
abbrev pub texts : List (Option String) → List String
texts [] = []
texts (none ∷ xs) = texts xs
texts (some t ∷ xs) = t ∷ texts xs

-- Whether the elements of a list differ, `len(set(xs)) == len(xs)`.
abbrev pub is_distinct : List String → Bool
is_distinct [] = true
is_distinct (x ∷ xs) = not (contains xs x) && is_distinct xs

module _ (casefold : String → String) where
  abbrev pub collides_with_failure_response : String → Bool
  collides_with_failure_response token =
      any (λ value. has_part (casefold token) (casefold value)) reserved_tokens

  abbrev pub is_token : String → Bool
  is_token token =
      leb min_token_length (text_size token)
      && is_bearer (codes token)
      && not (collides_with_failure_response token)

  abbrev pub is_valid_element : Option String → Bool
  is_valid_element none = false
  is_valid_element (some token) = is_token token

  -- The checks of two lists that are there.
  unfoldable pub checked_tokens : List (Option String) → List (Option String) → Result AuthTokens
  checked_tokens read [] = err value_error
  checked_tokens read (w ∷ ws) =
      raise_if (not (all is_valid_element (read ++ w ∷ ws))) value_error
      >> (raise_if
            (not (is_distinct (texts read))
              || not (is_distinct (texts (w ∷ ws)))
              || any (contains (texts (w ∷ ws))) (texts read))
            value_error
          >> ok (record { read = texts read; write = texts (w ∷ ws) }))

  abbrev pub of_lists :
      Option (List (Option String)) → Option (List (Option String)) → Result AuthTokens
  of_lists none write = err value_error
  of_lists (some read) none = err value_error
  of_lists (some read) (some write) = checked_tokens read write

  -- None stands for a text that is not JSON and for a value that is not an object; a missing list of
  -- write tokens is refused like one that is no list.
  unfoldable pub parse_tokens : Option (List (String × Field)) → Result AuthTokens
  parse_tokens none = err value_error
  parse_tokens (some raw) =
      raise_if (not (all (contains ("read" ∷ "write" ∷ [])) (map (λ entry. entry.0) raw)))
        value_error
      >> of_lists (list_of (read_field (lookup "read" raw))) (list_of (lookup "write" raw))
