-- ===== src/Base/Table.antt =====
-- A table of rows keyed by an id, as an association list that is kept in the order of the ids.
use mathlib.Core.Path.{◌≡◌, refl}
use mathlib.Core.Option.{Option, none, some, some-injective}
use mathlib.Core.List.{List, [], ◌∷◌}
use Prim.Native.String.{String}
use native.Mathlib.Omega.{arith}
use text.Mathlib.Text.{◌==◌}
use text.Mathlib.TextEquality.{eq_iff}
use text.Mathlib.TextPositions.{eq_refl}
use mathlib.Core.Logic.{◌≢◌, inl, inr}
use mathlib.Core.Path.{subst}
use panopticon_next.Base.Tests.{if◌then◌else◌, Bool-cases}
use panopticon_next.Base.Lists.{All}
use panopticon_next.Base.Texts.{before}

abbrev pub Table {ℓ} : Type ℓ → Type ℓ
Table V = List (String × V)

module _ {ℓ} {V : Type ℓ} where
  unfoldable pub lookup : String → Table V → Option V
  lookup k [] = none
  lookup k ((j, v) ∷ t) = if j == k then some v else lookup k t

  -- Replaces the row of `k`, or inserts one in its place by the order of ids.
  unfoldable pub put : String → V → Table V → Table V
  put k v [] = (k, v) ∷ []
  put k v ((j, w) ∷ t) =
      let rest = put k v t in
      if j == k then (k, v) ∷ t else if before k j then (k, v) ∷ (j, w) ∷ t else (j, w) ∷ rest

  unfoldable pub remove : String → Table V → Table V
  remove k [] = []
  remove k ((j, w) ∷ t) = let rest = remove k t in if j == k then rest else (j, w) ∷ rest

  unfoldable pub values : Table V → List V
  values [] = []
  values ((j, v) ∷ t) = v ∷ values t

  pub lookup-put :
      (k j : String) (v : V) (t : Table V)
      → lookup j (put k v t) ≡ (if k == j then some v else lookup j t)
  unfolding lookup put
  lookup-put k j v [] = refl
  lookup-put k j v ((i, w) ∷ t) =
      ground (arith, eq_iff k j, eq_iff i k, eq_iff i j, lookup-put k j v t)

  pub lookup-remove :
      (k j : String) (t : Table V) → lookup j (remove k t) ≡ (if k == j then none else lookup j t)
  unfolding lookup remove
  lookup-remove k j [] = ground arith
  lookup-remove k j ((i, w) ∷ t) =
      ground (arith, eq_iff k j, eq_iff i k, eq_iff i j, lookup-remove k j t)

  pub lookup-put_self : (k : String) (v : V) (t : Table V) → lookup k (put k v t) ≡ some v
  lookup-put_self k v t = rw lookup-put (rw eq_refl)

  pub lookup-put_ne :
      (k j : String) (v : V) (t : Table V) → k ≢ j → lookup j (put k v t) ≡ lookup j t
  lookup-put_ne k j v t h = rw lookup-put (ground (arith, eq_iff k j))

  -- What holds of every row holds of the row that a lookup finds.
  pub All-lookup {κ} :
      (P : String × V → Type κ) (t : Table V) (k : String) {v : V}
      → All P t
      → lookup k t ≡ some v
      → (j : String) × (j ≡ k) × P (j, v)
  unfolding lookup
  All-lookup P [] k h e = cc
  All-lookup P ((j, w) ∷ t) k {v} h e = elim (Bool-cases (j == k)) [
    | inl same ↦
        (j, (eq_iff j k).0 same, subst (λ u. P (j, u)) (some-injective w v (rw same at e)) h.0)
    | inr other ↦ All-lookup P t k h.1 (rw other at e)
  ]

  -- A Python dict's `d[k] = v`: in place for a key that is there, else at the end.
  unfoldable pub assign : String → V → Table V → Table V
  assign k v [] = (k, v) ∷ []
  assign k v ((j, w) ∷ t) = let rest = assign k v t in if j == k then (k, v) ∷ t else (j, w) ∷ rest

  pub lookup-assign :
      (k j : String) (v : V) (t : Table V)
      → lookup j (assign k v t) ≡ (if k == j then some v else lookup j t)
  unfolding lookup assign
  lookup-assign k j v [] = refl
  lookup-assign k j v ((i, w) ∷ t) =
      ground (arith, eq_iff k j, eq_iff i k, eq_iff i j, lookup-assign k j v t)
