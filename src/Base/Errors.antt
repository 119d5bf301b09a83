-- ===== src/Base/Errors.antt =====
-- The exceptions of the control plane as values. A message text is kept only where the program
-- stores it; the constructors name the exception classes.
use mathlib.Core.Path.{◌≡◌, refl}
use mathlib.Core.Logic.{◌⊎◌, inl, inr}
use mathlib.Core.Option.{Option, none, some}
use native.Mathlib.Omega.{arith}
use mathlib.Core.Bool.{Bool, true, false}

pub data Error : Type 0 where
  not_found already_exists integrity_error : Error
  invalid_workflow illegal_transition responsibilities_not_met : Error
  unknown_workflow already_claimed session_conflict not_ready not_authorized recursion_error : Error
  value_error type_error index_error key_error attribute_error invalid_artifact_name runtime_error :
      Error

-- What a function that may raise gives back.
pub data Result {ℓ} (V : Type ℓ) : Type ℓ where
  err : Error → Result V
  ok : V → Result V

-- `if bad: raise e`.
abbrev pub raise_if : Bool → Error → Result (Unit {0})
raise_if false e = ok tt
raise_if true e = err e

module _ {ℓ} {V : Type ℓ} where
  abbrev pub or_raise : Option V → Error → Result V
  or_raise (some v) e = ok v
  or_raise none e = err e

  pub or_raise-eq-ok : (o : Option V) (e : Error) {v : V} → or_raise o e ≡ ok v → o ≡ some v
  or_raise-eq-ok (some v) e returned = ground arith
  or_raise-eq-ok none e returned = cc

  -- The value of a result, or a default.
  abbrev pub result_or : Result V → V → V
  result_or (err e) d = d
  result_or (ok v) d = v

  pub ok-injective : (v w : V) → (◌≡◌ {A = Result V} (ok v) (ok w)) → v ≡ w
  ok-injective v w e = ground arith

  pub Result-cases : (r : Result V) → ((v : V) × (r ≡ ok v)) ⊎ ((e : Error) × (r ≡ err e))
  Result-cases (err e) = inr (e, refl)
  Result-cases (ok v) = inl (v, refl)

module _ {ℓ κ} {V : Type ℓ} {W : Type κ} where
  infixl 5 ◌>>=◌
  abbrev pub ◌>>=◌ : Result V → (V → Result W) → Result W
  err e >>= next = err e
  ok v >>= next = next v

  pub ok_pair-injective :
      (v v' : V) (w w' : W)
      → (◌≡◌ {A = Result (V × W)} (ok (v, w)) (ok (v', w')))
      → (v ≡ v') × (w ≡ w')
  ok_pair-injective v v' w w' h = (ground arith, ground arith)

  -- How a sequence returned: its first part did, and the rest of it did on that value.
  pub >>=-eq-ok :
      (first : Result V) (next : V → Result W) {w : W}
      → (first >>= next) ≡ ok w
      → (v : V) × (first ≡ ok v) × (next v ≡ ok w)
  >>=-eq-ok (err e) next returned = cc
  >>=-eq-ok (ok v) next returned = (v, refl, returned)

module _ {κ} {W : Type κ} where
  infixl 5 ◌>>◌
  -- A check in front of a result.
  abbrev pub ◌>>◌ : Result (Unit {0}) → Result W → Result W
  check >> rest = check >>= λ _. rest

  -- A check in front of a result that returned.
  pub raise_if->>-eq-ok :
      (bad : Bool) (e : Error) (rest : Result W) {w : W}
      → (raise_if bad e >> rest) ≡ ok w
      → (bad ≡ false) × (rest ≡ ok w)
  raise_if->>-eq-ok false e rest returned = (refl, returned)
  raise_if->>-eq-ok true e rest returned = cc
