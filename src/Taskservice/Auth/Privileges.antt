-- ===== src/Taskservice/Auth/Privileges.antt =====
-- What the checks of a credential file mean for the authentication of its tokens.
use mathlib.Core.Option
use mathlib.Core.Option.{some-injective}
use mathlib.Core.Path.{subst}
use panopticon_next.Base.{
  String, sym, ap, ◌∙◌, ◌==◌, eq_option, ◌≡◌, ◌↔◌, inl, inr, Bool-cases, Option-cases, refl, arith,
  Bool, true, false, not, ◌||◌, Option, none, some, List, [], ◌∷◌, ◌++◌, map, eq_iff, if◌then◌else◌,
  ok, raise_if->>-eq-ok, ok-injective, value_error, any, all, contains,
}
use panopticon_next.Base.Table.{lookup}
use panopticon_next.Taskservice.Auth.{
  Library, AuthTokens, Privilege, authenticate_token, decode_task_capability,
}
use panopticon_next.Taskservice.Auth.Files.{
  Field, list, list_of, read_field, texts, is_distinct, is_valid_element, checked_tokens, of_lists,
  parse_tokens,
}

or_false : (a b c : Bool) → (a || b || c) ≡ false → c ≡ false
or_false a b c h = ground arith

no_write :
    (write read : List String) (t : String)
    → any (contains write) read ≡ false
    → contains read t ≡ true
    → contains write t ≡ false
no_write write [] t h m = absurd cc
no_write write (r ∷ read) t h m = ground (arith, eq_iff r t, no_write write read t)

-- The parsed value of a key is a list that has the token.
abbrev pub Lists : Option Field → String → Type 0
Lists field token =
    (xs : List (Option String)) × (field ≡ some (list xs))
    × (any (λ x. eq_option x (some token)) xs ≡ true)

contains-texts :
    (xs : List (Option String)) (token : String)
    → contains (texts xs) token ≡ any (λ x. eq_option x (some token)) xs
unfolding eq_option
contains-texts [] token = refl
contains-texts (none ∷ xs) token = contains-texts xs token
contains-texts (some t ∷ xs) token = ap (λ b. t == token || b) (contains-texts xs token)

listed_iff :
    (xs : List (Option String)) (token : String)
    → (contains (texts xs) token ≡ true) ↔ Lists (some (list xs)) token
listed_iff xs token = (
  λ h. (xs, refl, sym (contains-texts xs token) ∙ h),
  λ (ys, same, h).
      contains-texts xs token
      ∙ ap (any (λ x. eq_option x (some token))) (list-injective xs ys same)
      ∙ h,
)
  where
    list-injective :
        (xs ys : List (Option String))
        → (◌≡◌ {A = Option Field} (some (list xs)) (some (list ys)))
        → xs ≡ ys
    list-injective xs ys e = ground arith

field-Lists :
    (field : Option Field) (xs : List (Option String)) (token : String)
    → list_of field ≡ some xs
    → (contains (texts xs) token ≡ true) ↔ Lists field token
field-Lists none xs token h = absurd cc
field-Lists (some Field.other) xs token h = absurd cc
field-Lists (some (Field.list ys)) xs token h =
    subst (λ zs. (contains (texts zs) token ≡ true) ↔ Lists (some (list ys)) token)
      (some-injective ys xs h) (listed_iff ys token)

read_field-Lists :
    (field : Option Field) (xs : List (Option String)) (token : String)
    → list_of (read_field field) ≡ some xs
    → (contains (texts xs) token ≡ true) ↔ Lists field token
read_field-Lists none xs token h =
    subst (λ zs. (contains (texts zs) token ≡ true) ↔ Lists none token) (some-injective [] xs h)
      (λ e. absurd cc, λ (ys, e, _). absurd cc)
read_field-Lists (some field) xs token h = field-Lists (some field) xs token h

-- What an accepted file leads to: the tokens of its two lists, which have none in common.
record IsParsed (read write : List (Option String)) (tokens : AuthTokens) : Type 0 where
  pub reads : tokens.read ≡ texts read
  pub writes : tokens.write ≡ texts write
  pub disjoint : any (contains tokens.write) tokens.read ≡ false

module _ (casefold : String → String) where
  checked-IsParsed :
      (read write : List (Option String)) (tokens : AuthTokens)
      → checked_tokens casefold read write ≡ ok tokens
      → IsParsed read write tokens
  unfolding checked_tokens
  checked-IsParsed read [] tokens h = absurd cc
  checked-IsParsed read (w ∷ ws) tokens h =
      let (_, h1) =
        raise_if->>-eq-ok (not (all (is_valid_element casefold) (read ++ w ∷ ws))) value_error _
          h in
      let (distinct, h2) =
        raise_if->>-eq-ok
          (not (is_distinct (texts read))
            || not (is_distinct (texts (w ∷ ws)))
            || any (contains (texts (w ∷ ws))) (texts read))
          value_error _ h1 in
      subst (IsParsed read (w ∷ ws)) (ok-injective _ tokens h2) (record {
        reads = refl;
        writes = refl;
        disjoint =
            or_false (not (is_distinct (texts read))) (not (is_distinct (texts (w ∷ ws)))) _
              distinct;
      })

  lists-IsParsed :
      (read write : Option (List (Option String))) (tokens : AuthTokens)
      → of_lists casefold read write ≡ ok tokens
      → (rs : List (Option String)) × (ws : List (Option String)) × (read ≡ some rs)
        × (write ≡ some ws)
        × IsParsed rs ws tokens
  lists-IsParsed none write tokens h = absurd cc
  lists-IsParsed (some read) none tokens h = absurd cc
  lists-IsParsed (some read) (some write) tokens h =
      (read, write, refl, refl, checked-IsParsed read write tokens h)

  module _ (raw : List (String × Field)) (tokens : AuthTokens) (token : String) where
    -- The tokens of an accepted file are those that it lists, and none is listed twice.
    parsed-Lists :
        parse_tokens casefold (some raw) ≡ ok tokens
        → ((contains tokens.read token ≡ true) ↔ Lists (lookup "read" raw) token)
          × ((contains tokens.write token ≡ true) ↔ Lists (lookup "write" raw) token)
          × (any (contains tokens.write) tokens.read ≡ false)
    unfolding parse_tokens
    parsed-Lists h =
        let (_, h1) =
          raise_if->>-eq-ok
            (not (all (contains ("read" ∷ "write" ∷ [])) (map (λ entry. entry.0) raw))) value_error
            _ h in
        let (rs, ws, reads, writes, p) =
          lists-IsParsed (list_of (read_field (lookup "read" raw))) (list_of (lookup "write" raw))
            tokens h1 in
        (
          rw p.reads (read_field-Lists (lookup "read" raw) rs token reads),
          rw p.writes (field-Lists (lookup "write" raw) ws token writes),
          p.disjoint,
        )

module _ (lib : Library) (tokens : AuthTokens) (token : String) where
  reads_listed :
      authenticate_token lib tokens token
        ≡ some (record { privilege = Privilege.read; task_id = none })
      → contains tokens.read token ≡ true
  unfolding authenticate_token Option.bind
  reads_listed h = elim (Bool-cases (contains tokens.write token)) [
    | inl writes ↦ absurd cc
    | inr foreign ↦ elim (Bool-cases (contains tokens.read token)) [
      | inl reads ↦ reads
      | inr unlisted ↦ elim (Option-cases (decode_task_capability lib token tokens.write)) [
        | inl nothing ↦ absurd cc
        | inr (s, decoded) ↦ absurd cc
      ]
    ]
  ]

  writes_listed :
      authenticate_token lib tokens token
        ≡ some (record { privilege = Privilege.write; task_id = none })
      → contains tokens.write token ≡ true
  unfolding authenticate_token Option.bind
  writes_listed h = elim (Bool-cases (contains tokens.write token)) [
    | inl writes ↦ writes
    | inr foreign ↦ elim (Bool-cases (contains tokens.read token)) [
      | inl reads ↦ absurd cc
      | inr unlisted ↦ elim (Option-cases (decode_task_capability lib token tokens.write)) [
        | inl nothing ↦ absurd cc
        | inr (s, decoded) ↦ absurd cc
      ]
    ]
  ]

-- With the tokens of a credential file that was accepted, the tokens that are authenticated with a
-- privilege and no task are exactly those that the file lists under it.
pub authenticate_token-parse_tokens :
    (casefold : String → String) (lib : Library) (raw : List (String × Field)) (tokens : AuthTokens)
    (token : String)
    → parse_tokens casefold (some raw) ≡ ok tokens
    → ((authenticate_token lib tokens token
          ≡ some (record { privilege = Privilege.read; task_id = none }))
        ↔ Lists (lookup "read" raw) token)
      × ((authenticate_token lib tokens token
            ≡ some (record { privilege = Privilege.write; task_id = none }))
          ↔ Lists (lookup "write" raw) token)
unfolding authenticate_token
authenticate_token-parse_tokens casefold lib raw tokens token h =
    let (read_lists, write_lists, disjoint) = parsed-Lists casefold raw tokens token h in
    (
      (
        λ e. read_lists.0 (reads_listed lib tokens token e),
        λ listed.
            let reads = read_lists.1 listed in
            let writes = no_write tokens.write tokens.read token disjoint reads in
            rw (writes, reads, if◌then◌else◌) refl,
      ),
      (
        λ e. write_lists.0 (writes_listed lib tokens token e),
        λ listed. let writes = write_lists.1 listed in rw (writes, if◌then◌else◌) refl,
      ),
    )
