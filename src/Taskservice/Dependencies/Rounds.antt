-- ===== src/Taskservice/Dependencies/Rounds.antt =====
-- The loop of the dependency search over the dependencies of one task, and how it ends.
use panopticon_next.Base.{
  String, ◌≡◌, ◌≢◌, refl, sym, ◌⊎◌, inl, inr, true, List, [], ◌∷◌, arith, ◌==◌, eq_iff, eq_refl,
  contains, Bool-cases,
}
use mathlib.Core.Path.{subst}
use panopticon_next.Taskservice.Dependencies.{Outcome, found, clear, stuck, search_all}

pub Outcome-cases :
    (o : Outcome)
    → ((c : List String) × (o ≡ found c)) ⊎ (((v : List String) × (o ≡ clear v)) ⊎ (o ≡ stuck))
Outcome-cases (found c) = inl (c, refl)
Outcome-cases (clear v) = inr (inl (v, refl))
Outcome-cases stuck = inr (inr refl)

module _ (f : String → List String → Outcome) where
  -- A search that does not clear all of a list ends at one of its members.
  pub search_all-ends :
      (ds v : List String) (o : Outcome)
      → search_all f ds v ≡ o
      → ((v' : List String) → o ≢ clear v')
      → (d : String) × (v' : List String) × (contains ds d ≡ true) × (f d v' ≡ o)
  unfolding search_all
  search_all-ends [] v o e h = absurd (h v (sym e))
  search_all-ends (d ∷ ds) v o e h = elim (Outcome-cases (f d v)) [
    | inl (c, is) ↦ (d, v, rw eq_refl, ground arith)
    | inr (inl (v', is)) ↦
        let (d', w, mem, ends) = search_all-ends ds v' o (rw (is, search_all) at e) h in
        (d', w, ground arith, ends)
    | inr (inr is) ↦ (d, v, rw eq_refl, ground arith)
  ]

  -- What holds of the visited ids, and of each id when the search clears it, holds of a whole
  -- cleared list.
  pub search_all-clear :
      (P : String → Type 0)
      → ((d : String) (v v' : List String)
          → ((y : String) → contains v y ≡ true → P y)
          → f d v ≡ clear v'
          → ((y : String) → contains v' y ≡ true → P y) × P d)
      → (ds v v' : List String) → ((y : String) → contains v y ≡ true → P y)
      → search_all f ds v ≡ clear v'
      → ((y : String) → contains v' y ≡ true → P y) × ((d : String) → contains ds d ≡ true → P d)
  unfolding search_all
  search_all-clear P step [] v v' all e = (λ y mem. all y (ground arith), λ d mem. cc)
  search_all-clear P step (d ∷ ds) v v' all e = elim (Outcome-cases (f d v)) [
    | inl (c, is) ↦ absurd (ground arith)
    | inr (inl (w, is)) ↦
        let (all', here) = step d v w all is in
        let (all'', there) = search_all-clear P step ds w v' all' (rw (is, search_all) at e) in
        (
          all'',
          λ d' mem. elim (Bool-cases (d == d')) [
            | inl same ↦ subst P ((eq_iff d d').0 same) here
            | inr other ↦ there d' (rw other at mem)
          ],
        )
    | inr (inr is) ↦ absurd (ground arith)
  ]
