-- ===== src/Base/Visited.antt =====
-- The fuel of a search that never visits a key of a table twice: the rows that are still off its path.
use Prim.Native.Nat.{ℕ, suc, ◌≤◌, ◌<◌}
use Prim.Native.String.{String}
use mathlib.Core.Path.{◌≡◌, refl, ap}
use mathlib.Core.Logic.{inl, inr}
use mathlib.Core.Bool.{false, ◌||◌}
use mathlib.Core.Option.{some}
use mathlib.Core.List.{List, [], ◌∷◌, ◌++◌}
use native.Mathlib.Omega.{arith}
use text.Mathlib.Text.{◌==◌}
use text.Mathlib.TextEquality.{eq_iff}
use text.Mathlib.TextPositions.{eq_refl}
use panopticon_next.Base.Tests.{if◌then◌else◌, Bool-cases}
use panopticon_next.Base.Lists.{length}
use panopticon_next.Base.Texts.{contains}
use panopticon_next.Base.Table.{Table, lookup}

pub contains-snoc :
    (path : List String) (x y : String) → contains (path ++ x ∷ []) y ≡ (contains path y || x == y)
contains-snoc [] x y = ground arith
contains-snoc (z ∷ path) x y = ground (arith, contains-snoc path x y)

module _ {ℓ} {V : Type ℓ} where
  -- The rows of a table whose key is not on the path.
  abbrev pub off : List String → Table V → ℕ
  off path [] = 0
  off path ((k, v) ∷ g) = let rest = off path g in if contains path k then rest else suc rest

  pub off-snoc_le :
      (path : List String) (x : String) (g : Table V) → off (path ++ x ∷ []) g ≤ off path g
  off-snoc_le path x [] = omega arith
  off-snoc_le path x ((k, v) ∷ g) = ground (arith, contains-snoc path x k, off-snoc_le path x g)

  pub off-snoc_lt :
      (path : List String) (x : String) (g : Table V) {v : V}
      → contains path x ≡ false
      → lookup x g ≡ some v
      → off (path ++ x ∷ []) g < off path g
  unfolding lookup
  off-snoc_lt path x [] new row = cc
  off-snoc_lt path x ((k, w) ∷ g) new row = elim (Bool-cases (k == x)) [
    | inl same ↦
        let is : k ≡ x = (eq_iff k x).0 same in
        rw is (ground (arith, contains-snoc path x x, eq_refl x, off-snoc_le path x g))
    | inr other ↦ ground (
      arith,
      contains-snoc path x k,
      eq_iff k x,
      eq_iff x k,
      off-snoc_lt path x g new (rw other at row),
    )
  ]

  pub off-nil : (g : Table V) → off [] g ≡ length g
  off-nil [] = refl
  off-nil ((k, v) ∷ g) = ap suc (off-nil g)
