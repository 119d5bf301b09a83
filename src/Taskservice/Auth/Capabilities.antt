-- ===== src/Taskservice/Auth/Capabilities.antt =====
-- Which tokens src/panopticon/taskservice/auth.py takes for a capability of a task.
use Prim.Native.Char.{Char}
use Prim.Native.String.append
use mathlib.Core.Option
use mathlib.Core.Option.{none-ne-some, some-injective}
use mathlib.Core.Path.{subst}
use panopticon_next.Base.{
  String, ◌≡◌, ◌↔◌, inl, inr, refl, sym, ap, ◌∙◌, arith, true, false, none, some, List, [], ◌∷◌,
  ◌==◌, ℕ, eq_iff, eq_refl, if◌then◌else◌, is_given, concat, any, contains, Bool-cases,
  Option-cases, eq_nat,
}
use panopticon_next.Taskservice.Auth.{
  Library, AuthTokens, AuthPrincipal, Privilege, has_char, is_only, rstrip, keep_or_end, split,
  repad, subject_of, base64url, mac_of, derive_task_capability, decode_task_capability,
  authenticate_token, of_pieces,
}

-- A token that was derived for `subject` from one of the roots.
pub record IsIssued (lib : Library) (token : String) (roots : List String) (subject : String)
    : Type 0 where
  pub root : String
  pub is_root : contains roots root ≡ true
  pub is_token : token ≡ derive_task_capability lib root subject

-- What RFC 4648 and Python's base64 say of the encoding of bytes that are not empty.
pub record IsEncoded (lib : Library) (value : lib.Bytes) : Type 0 where
  pub no_dot : has_char "." (lib.b64encode value) ≡ false
  pub unpadded : has_char "=" (base64url lib value) ≡ false
  pub given : is_given (some (base64url lib value)) ≡ true
  pub repadded : repad (base64url lib value) ≡ lib.b64encode value
  pub decoded : lib.b64decode (lib.b64encode value) ≡ some value

keep_or_end_no_dot :
    (c : Char) (s : String)
    → has_char "." (String.◌∷◌ c s) ≡ false
    → has_char "." (keep_or_end "=" c s) ≡ false
keep_or_end_no_dot c String.[] h = elim (Bool-cases (is_only c "=")) [
  | inl pad ↦ rw (pad, if◌then◌else◌) refl
  | inr other ↦ rw (other, if◌then◌else◌) h
]
keep_or_end_no_dot c (String.◌∷◌ d s) h = h

no_dot-rstrip : (s : String) → has_char "." s ≡ false → has_char "." (rstrip "=" s) ≡ false
no_dot-rstrip String.[] h = refl
no_dot-rstrip (String.◌∷◌ c s) h =
    let rest = no_dot-rstrip s (ground arith) in keep_or_end_no_dot c (rstrip "=" s) (ground arith)

split_dot : (t : String) → split "." (concat "." t) ≡ "" ∷ split "." t
split_dot t = ap (split ".") (append.cons _ "" t ∙ ap (λ v. String.◌∷◌ "." v) (append.nil t))

split-concat :
    (s t : String) → has_char "." s ≡ false → split "." (concat s (concat "." t)) ≡ s ∷ split "." t
split-concat String.[] t h = ap (split ".") (append.nil (concat "." t)) ∙ split_dot t
split-concat (String.◌∷◌ c s) t h =
    let rest = split-concat s t (ground arith) in
    let plain : is_only c "." ≡ false = ground arith in
    ap (split ".") (append.cons c s (concat "." t)) ∙ rw (plain, if◌then◌else◌, rest) refl

split_single : (s : String) → has_char "." s ≡ false → split "." s ≡ s ∷ []
split_single String.[] h = refl
split_single (String.◌∷◌ c s) h =
    let rest = split_single s (ground arith) in
    let plain : is_only c "." ≡ false = ground arith in rw (plain, if◌then◌else◌, rest) refl

module _ (lib : Library) (token subject : String) where
  any-IsIssued :
      (roots : List String)
      → any (λ root. token == derive_task_capability lib root subject) roots ≡ true
      → IsIssued lib token roots subject
  any-IsIssued [] h = absurd cc
  any-IsIssued (r ∷ roots) h = elim (Bool-cases (token == derive_task_capability lib r subject)) [
    | inl same ↦ record {
      root = r;
      is_root = ground (arith, eq_refl r);
      is_token = (eq_iff token (derive_task_capability lib r subject)).0 same;
    }
    | inr other ↦
        let rest = any-IsIssued roots (ground arith) in
        record {
          root = rest.root;
          is_root = ground (arith, rest.is_root);
          is_token = rest.is_token;
        }
  ]

  IsIssued-any :
      (root : String) (roots : List String)
      → token ≡ derive_task_capability lib root subject
      → contains roots root ≡ true
      → any (λ root. token == derive_task_capability lib root subject) roots ≡ true
  IsIssued-any root [] e h = cc
  IsIssued-any root (r ∷ roots) e h = elim (Bool-cases (r == root)) [
    | inl same ↦
        let here =
          (eq_iff token (derive_task_capability lib r subject)).1
            (e ∙ ap (λ x. derive_task_capability lib x subject) (sym ((eq_iff r root).0 same))) in
        ground (arith, here)
    | inr other ↦ ground (arith, IsIssued-any root roots e (ground arith))
  ]

module _ (lib : Library) (token subject : String) (roots : List String) where
  -- A token that is decoded to a subject was derived for it from one of the roots, whatever the
  -- encodings are.
  pub decode_task_capability_sound :
      decode_task_capability lib token roots ≡ some subject → IsIssued lib token roots subject
  unfolding decode_task_capability Option.bind
  decode_task_capability_sound h = elim (Option-cases (of_pieces lib (split "." token))) [
    | inl nothing ↦ absurd (none-ne-some subject (rw nothing at h))
    | inr (s, found) ↦
        let h1 = rw found at h in
        elim (Bool-cases (any (λ root. token == derive_task_capability lib root s) roots)) [
          | inl issued ↦
              subst (IsIssued lib token roots)
                (some-injective s subject (rw (issued, if◌then◌else◌) at h1))
                (any-IsIssued lib token s roots issued)
          | inr forged ↦ absurd (none-ne-some subject (rw (forged, if◌then◌else◌) at h1))
        ]
  ]

eq_nat_refl : (n : ℕ) → eq_nat n n ≡ true
eq_nat_refl n = ground arith

-- The laws that the check of the capabilities of `subject` rests on.
pub record IsStandard (lib : Library) (subject : String) : Type 0 where
  pub subject_encoded : IsEncoded lib (lib.encode subject)
  pub mac_encoded : (root : String) → IsEncoded lib (mac_of lib root subject)
  pub utf8 : lib.decode (lib.encode subject) ≡ some subject
  pub mac_size : (root : String) → lib.size (mac_of lib root subject) ≡ lib.digest_size

module _ (lib : Library) (subject : String) (std : IsStandard lib subject) where
  subject_of-derive_task_capability :
      (root : String)
      → subject_of lib "ptc1"
          (base64url lib (lib.encode subject))
          "self"
          (base64url lib (mac_of lib root subject))
        ≡ some subject
  unfolding Option.bind
  subject_of-derive_task_capability root =
      let e = std.subject_encoded in
      let m = std.mac_encoded root in
      rw
        (
          e.given,
          e.unpadded,
          m.given,
          m.unpadded,
          e.repadded,
          m.repadded,
          e.decoded,
          m.decoded,
          std.utf8,
          eq_refl (base64url lib (lib.encode subject)),
          std.mac_size root,
          eq_nat_refl lib.digest_size,
        )
        refl

  split-derive_task_capability :
      (root : String)
      → split "." (derive_task_capability lib root subject)
        ≡ "ptc1"
          ∷ base64url lib (lib.encode subject)
          ∷ "self"
          ∷ base64url lib (mac_of lib root subject)
          ∷ []
  unfolding derive_task_capability
  split-derive_task_capability root =
      rw
        (
          split-concat "ptc1" _ refl,
          split-concat (base64url lib (lib.encode subject)) _
              (no_dot-rstrip (lib.b64encode (lib.encode subject)) std.subject_encoded.no_dot),
          split-concat "self" _ refl,
          split_single (base64url lib (mac_of lib root subject)) (
              no_dot-rstrip (lib.b64encode (mac_of lib root subject))
                (std.mac_encoded root).no_dot),
        )
        refl

  -- With encodings that behave as documented on the subject and on its digests, the tokens that are
  -- decoded to a subject are exactly those derived for it from one of the roots.
  pub decode_task_capability_iff :
      (token : String) (roots : List String)
      → (decode_task_capability lib token roots ≡ some subject) ↔ IsIssued lib token roots subject
  unfolding decode_task_capability Option.bind
  decode_task_capability_iff token roots = (
    decode_task_capability_sound lib token subject roots,
    λ issued.
        let pieces = ap (split ".") issued.is_token ∙ split-derive_task_capability issued.root in
        rw
          (
            pieces,
            subject_of-derive_task_capability issued.root,
            IsIssued-any lib token subject issued.root roots issued.is_token issued.is_root,
          )
          refl,
  )

-- What a principal is recognized by.
pub data IsAuthentic (lib : Library) (tokens : AuthTokens) (presented : String)
    : AuthPrincipal → Type 0 where
  writer :
      contains tokens.write presented ≡ true
      → IsAuthentic lib tokens presented (record { privilege = Privilege.write; task_id = none })
  reader :
      contains tokens.write presented ≡ false
      → contains tokens.read presented ≡ true
      → IsAuthentic lib tokens presented (record { privilege = Privilege.read; task_id = none })
  holder :
      (task_id : String)
      → IsIssued lib presented tokens.write task_id
      → IsAuthentic lib tokens presented
          (record { privilege = Privilege.write; task_id = some task_id })

module _ (lib : Library) (tokens : AuthTokens) (presented : String) (p : AuthPrincipal) where
  -- A presented token that is authenticated is a configured one, of the privilege it is listed
  -- under, or was derived for the task that the principal is bound to from a configured write token.
  pub authenticate_token_sound :
      authenticate_token lib tokens presented ≡ some p → IsAuthentic lib tokens presented p
  unfolding authenticate_token Option.bind
  authenticate_token_sound h = elim (Bool-cases (contains tokens.write presented)) [
    | inl is_writer ↦
        subst (IsAuthentic lib tokens presented)
          (some-injective _ p (rw (is_writer, if◌then◌else◌) at h)) (IsAuthentic.writer is_writer)
    | inr no_writer ↦ elim (Bool-cases (contains tokens.read presented)) [
      | inl is_reader ↦
          subst (IsAuthentic lib tokens presented)
            (some-injective _ p (rw (no_writer, is_reader, if◌then◌else◌) at h))
            (IsAuthentic.reader no_writer is_reader)
      | inr no_reader ↦
          let h1 = rw (no_writer, no_reader, if◌then◌else◌) at h in
          elim (Option-cases (decode_task_capability lib presented tokens.write)) [
            | inl nothing ↦ absurd (none-ne-some p (rw nothing at h1))
            | inr (s, decoded) ↦
                subst (IsAuthentic lib tokens presented) (some-injective _ p (rw decoded at h1)) (
                  IsAuthentic.holder s
                    (decode_task_capability_sound lib presented s tokens.write decoded))
          ]
    ]
  ]
