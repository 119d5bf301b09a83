-- ===== src/Base/Exec.antt =====
-- Methods that change an object and may raise. What was written before a raise stays written, so
-- the state comes back beside the error too.
use mathlib.Core.Path.{◌≡◌, refl, ap}
use mathlib.Core.Logic.{◌≢◌}
use mathlib.Core.Bool.{Bool, true, false}
use mathlib.Core.Option.{Option, none, some}
use panopticon_next.Base.Errors.{Error, Result, ok, err}

-- An action on the object `O` that gives a `V`.
abbrev pub Exec {ℓ} : Type ℓ → Type ℓ → Type ℓ
Exec O V = O → Result V × O

module _ {ℓ} {O : Type ℓ} where
  -- `if bad: raise e`.
  abbrev pub raise_if : Bool → Error → Exec O (Unit {ℓ})
  raise_if false e o = (ok tt, o)
  raise_if true e o = (err e, o)

  -- `if test: action`.
  abbrev pub when : Bool → Exec O (Unit {ℓ}) → Exec O (Unit {ℓ})
  when false action o = (ok tt, o)
  when true action o = action o

  abbrev pub modify : (O → O) → Exec O (Unit {ℓ})
  modify change o = (ok tt, change o)

module _ {ℓ} {O V : Type ℓ} where
  abbrev pub raise : Error → Exec O V
  raise e o = (err e, o)

  -- The value of an optional, or an error.
  abbrev pub require : Option V → Error → Exec O V
  require (some v) e o = (ok v, o)
  require none e o = (err e, o)

  -- A result without an effect on the object.
  abbrev pub lift : Result V → Exec O V
  lift result o = (result, o)

  abbrev pub gets : (O → V) → Exec O V
  gets view o = (ok (view o), o)

  abbrev pub pure : V → Exec O V
  pure v o = (ok v, o)

module _ {ℓ} {O V W : Type ℓ} where
  abbrev and_then : (V → Exec O W) → Result V → O → Result W × O
  and_then next (err e) o = (err e, o)
  and_then next (ok v) o = next v o

  infixl 5 ◌>>=◌ ◌>>◌
  abbrev pub ◌>>=◌ : Exec O V → (V → Exec O W) → Exec O W
  ◌>>=◌ first next o = let (result, after) = first o in and_then next result after

  abbrev pub ◌>>◌ : Exec O V → Exec O W → Exec O W
  first >> second = first >>= λ _. second

-- How a sequence of two actions returned: a data type, so that a split names the parts.
pub data Ran {ℓ} {O V W : Type ℓ} (first : Exec O V) (next : V → Exec O W) (w : W)
    (before after : O) : Type ℓ where
  ran :
      (v : V) (between : O)
      → first before ≡ (ok v, between)
      → next v between ≡ (ok w, after)
      → Ran first next w before after

module _ {ℓ} {O W : Type ℓ} where
  raised :
      (e : Error) (w : W) (o o' : O) (failed : Result W × O)
      → failed ≡ (err e, o)
      → failed ≢ (ok w, o')
  raised e w o o' failed is returned = absurd cc

module _ {ℓ} {O V W : Type ℓ} (first : Exec O V) (next : V → Exec O W) where
  -- A sequence goes on after a first part that returned.
  pub bind_after :
      {v : V} {before between : O}
      → first before ≡ (ok v, between)
      → (first >>= next) before ≡ next v between
  bind_after returned = ap (λ (p : Result V × O). and_then next p.0 p.1) returned

  -- A sequence ends where its first part raises.
  pub bind_raised :
      {e : Error} {before between : O}
      → first before ≡ (err e, between)
      → (first >>= next) before ≡ (err e, between)
  bind_raised raises = ap (λ (p : Result V × O). and_then next p.0 p.1) raises

  pub bind-eq-ok :
      {w : W} {before after : O}
      → (first >>= next) before ≡ (ok w, after)
      → Ran first next w before after
  bind-eq-ok {w} {before} {after} returned = at_result (first before) refl
    where
      at_result : (p : Result V × O) → first before ≡ p → Ran first next w before after
      at_result (ok v, between) e = ran v between e (rw e at returned)
      at_result (err e', between) e =
          absurd (raised e' w between after ((first >>= next) before) (rw e refl) returned)

module _ {ℓ} {O : Type ℓ} where
  pub raise_if-eq-ok :
      (bad : Bool) (e : Error) {u : Unit {ℓ}} {before after : O}
      → raise_if bad e before ≡ (ok u, after)
      → (bad ≡ false) × (after ≡ before)
  raise_if-eq-ok true e returned = absurd cc
  raise_if-eq-ok false e returned = (refl, cc)

module _ {ℓ} {O W : Type ℓ} where
  -- A check in front of an action that returned.
  pub raise_if-then-eq-ok :
      (bad : Bool) (e : Error) (rest : Exec O W) {w : W} {before after : O}
      → (raise_if bad e >> rest) before ≡ (ok w, after)
      → (bad ≡ false) × (rest before ≡ (ok w, after))
  raise_if-then-eq-ok true e rest {w} {before} {after} returned =
      absurd (raised e w before after (err e, before) refl returned)
  raise_if-then-eq-ok false e rest returned = (refl, returned)
