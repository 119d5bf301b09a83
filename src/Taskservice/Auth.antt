-- ===== src/Taskservice/Auth.antt =====
-- src/panopticon/taskservice/auth.py: the capabilities that are derived for a task, their check, and
-- `authenticate_token`. The encodings and the digest are Python's, a `Library` that the model takes as
-- a parameter. `hmac.compare_digest` is `==`, and on encoded texts `==` of the texts.
pub mod Capabilities
pub mod Files
pub mod Privileges
use Prim.Native.Nat.{◌%◌}
use Prim.Native.Char.{Char}
use mathlib.Core.Option
use panopticon_next.Base.{
  String, ℕ, ◌-◌, zero, suc, Bool, false, not, ◌||◌, Option, none, some, List, [], ◌∷◌, ◌==◌,
  if◌then◌else◌, is_given, concat, any, contains, eq_nat,
}

-- Bytes, `str.encode` and `bytes.decode` in UTF-8, `base64.urlsafe_b64encode` as text,
-- `base64.urlsafe_b64decode`, `len` and `+` of bytes, the zero byte, and the SHA-256 digests of `hmac` and `hashlib`.
pub record Library : Type 1 where
  pub Bytes : Type 0
  pub encode : String → Bytes
  pub decode : Bytes → Option String
  pub b64encode : Bytes → String
  pub b64decode : String → Option Bytes
  pub size : Bytes → ℕ
  pub hmac : Bytes → Bytes → Bytes
  pub digest_size : ℕ
  pub append : Bytes → Bytes → Bytes
  pub nul : Bytes

pub record AuthTokens : Type 0 where
  pub read : List String
  pub write : List String

pub data Privilege : Type 0 where
  read write : Privilege

pub record AuthPrincipal : Type 0 where
  pub privilege : Privilege
  pub task_id : Option String

abbrev pub task_capability_prefix : String
task_capability_prefix = "ptc1"

abbrev pub task_capability_profile : String
task_capability_profile = "self"

-- Whether a character is the only one of a text.
abbrev pub is_only : Char → String → Bool
is_only c one = String.◌∷◌ c String.[] == one

-- `one in s` for a text of one character.
abbrev pub has_char : String → String → Bool
has_char one String.[] = false
has_char one (String.◌∷◌ c s) = is_only c one || has_char one s

abbrev pub keep_or_end : String → Char → String → String
keep_or_end one c String.[] = if is_only c one then String.[] else String.◌∷◌ c String.[]
keep_or_end one c (String.◌∷◌ d s) = String.◌∷◌ c (String.◌∷◌ d s)

-- `s.rstrip(one)`.
abbrev pub rstrip : String → String → String
rstrip one String.[] = String.[]
rstrip one (String.◌∷◌ c s) = keep_or_end one c (rstrip one s)

abbrev pub onto_first : Char → List String → List String
onto_first c [] = String.◌∷◌ c String.[] ∷ []
onto_first c (x ∷ xs) = String.◌∷◌ c x ∷ xs

-- `s.split(one)`.
abbrev pub split : String → String → List String
split one String.[] = String.[] ∷ []
split one (String.◌∷◌ c s) =
    let rest = split one s in if is_only c one then String.[] ∷ rest else onto_first c rest

abbrev pub text_size : String → ℕ
text_size String.[] = 0
text_size (String.◌∷◌ c s) = suc (text_size s)

abbrev repeat : String → ℕ → String
repeat s zero = ""
repeat s (suc n) = concat s (repeat s n)

-- `encoded + "=" * (-len(encoded) % 4)`.
abbrev pub repad : String → String
repad s = concat s (repeat "=" ((4 - text_size s % 4) % 4))

module _ (lib : Library) where
  -- `_base64url`.
  abbrev pub base64url : lib.Bytes → String
  base64url value = rstrip "=" (lib.b64encode value)

  -- What is digested: the domain, the subject and the profile, with zero bytes between.
  abbrev pub message : lib.Bytes → lib.Bytes
  message subject =
      lib.append
        (lib.append (lib.append (lib.encode "panopticon-task-capability-v1") lib.nul) subject)
        (lib.append lib.nul (lib.encode task_capability_profile))

  abbrev pub mac_of : String → String → lib.Bytes
  mac_of write_token task_id = lib.hmac (lib.encode write_token) (message (lib.encode task_id))

  unfoldable pub derive_task_capability : String → String → String
  derive_task_capability write_token task_id = concat task_capability_prefix (
      concat "." (
        concat (base64url (lib.encode task_id)) (
          concat "." (
            concat task_capability_profile (concat "." (base64url (mac_of write_token task_id)))))))

  -- The subject that well-formed pieces name, with a digest of the right size; none stands for a
  -- piece that is refused and for each exception that is caught.
  abbrev pub subject_of : String → String → String → String → Option String
  subject_of version encoded_subject profile encoded_mac =
      if not (version == task_capability_prefix) || not (profile == task_capability_profile)
      then none
      else if not (is_given (some encoded_subject))
          || has_char "=" encoded_subject
          || not (is_given (some encoded_mac))
          || has_char "=" encoded_mac
      then none
      else Option.bind (lib.b64decode (repad encoded_subject)) (λ subject_bytes.
        Option.bind (lib.b64decode (repad encoded_mac)) (λ mac.
          Option.bind (lib.decode subject_bytes) (λ subject.
            if not (base64url subject_bytes == encoded_subject)
              || not (eq_nat (lib.size mac) lib.digest_size)
            then none
            else some subject)))

  -- The unpacking of the pieces, which fails unless they are four.
  abbrev pub of_pieces : List String → Option String
  of_pieces [] = none
  of_pieces (a ∷ []) = none
  of_pieces (a ∷ b ∷ []) = none
  of_pieces (a ∷ b ∷ c ∷ []) = none
  of_pieces (a ∷ b ∷ c ∷ d ∷ []) = subject_of a b c d
  of_pieces (a ∷ b ∷ c ∷ d ∷ e ∷ more) = none

  unfoldable pub decode_task_capability : String → List String → Option String
  decode_task_capability token write_tokens = Option.bind (of_pieces (split "." token)) (λ subject.
      if any (λ root. token == derive_task_capability root subject) write_tokens
      then some subject
      else none)

  abbrev as_holder : String → AuthPrincipal
  as_holder task_id = record { privilege = Privilege.write; task_id = some task_id }

  unfoldable pub authenticate_token : AuthTokens → String → Option AuthPrincipal
  authenticate_token tokens presented =
      if contains tokens.write presented
      then some (record { privilege = Privilege.write; task_id = none })
      else if contains tokens.read presented
      then some (record { privilege = Privilege.read; task_id = none })
      else Option.bind (decode_task_capability presented tokens.write)
          (λ task_id. some (as_holder task_id))
