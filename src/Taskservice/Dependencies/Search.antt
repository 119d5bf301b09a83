-- ===== src/Taskservice/Dependencies/Search.antt =====
-- The cycle search of `_dependency_cycle`: what it finds is a cycle, what it clears has none, and
-- the fuel never runs out.
use panopticon_next.Base.{
  ℕ, zero, suc, ◌+◌, ◌<◌, String, ◌≡◌, ◌≢◌, refl, sym, ◌∙◌, ◌⊎◌, inl, inr, true, false, some, List,
  [], ◌∷◌, ◌++◌, arith, ◌==◌, eq_iff, contains, length, Bool-cases, Option-cases,
}
use mathlib.Core.Path.{subst}
use panopticon_next.Base.Visited.{off, off-snoc_lt, off-nil}
use panopticon_next.Base.Table.{lookup}
use panopticon_next.Taskservice.Dependencies.{
  DependencyGraph, dependencies_of, Outcome, found, clear, stuck, from_position, search_all, leave,
  visit, dependency_cycle,
}
use panopticon_next.Taskservice.Dependencies.Rounds.{
  Outcome-cases, search_all-ends, search_all-clear,
}

-- `x` depends on `d`.
abbrev pub Edge : DependencyGraph → String → String → Type 0
Edge g x d = contains (dependencies_of g x) d ≡ true

-- Every chain of dependencies from `x` ends.
pub data Settled (g : DependencyGraph) : String → Type 0 where
  settled : (x : String) → ((d : String) → Edge g x d → Settled g d) → Settled g x

abbrev pub IsWalk : DependencyGraph → List String → Type 0
IsWalk g [] = Unit
IsWalk g (x ∷ []) = Unit
IsWalk g (x ∷ y ∷ r) = Edge g x y × IsWalk g (y ∷ r)

-- A walk that returns to where it starts.
pub record IsCycle (g : DependencyGraph) (c : List String) : Type 0 where
  pub start : String
  pub between : List String
  pub returns : c ≡ start ∷ between ++ start ∷ []
  pub walk : IsWalk g c

module _ (g : DependencyGraph) where
  abbrev AllSettled : List String → Type 0
  AllSettled v = (y : String) → contains v y ≡ true → Settled g y

  abbrev deeper : ℕ → List String → String → List String → Outcome
  deeper fuel path x v =
      search_all (λ d w. visit g fuel (path ++ x ∷ []) d w) (dependencies_of g x) v

  -- What a visit does with an id that is neither on the path nor visited.
  visit_new :
      (fuel : ℕ) (path : List String) (x : String) (v : List String)
      → contains path x ≡ false
      → contains v x ≡ false
      → visit g (suc fuel) path x v ≡ leave x (deeper fuel path x v)
  unfolding visit
  visit_new fuel path x v off_path unseen = rw (off_path, unseen)

  visit_seen :
      (fuel : ℕ) (path : List String) (x : String) (v : List String)
      → contains path x ≡ false
      → contains v x ≡ true
      → visit g (suc fuel) path x v ≡ clear v
  unfolding visit
  visit_seen fuel path x v off_path seen = rw (off_path, seen)

  visit_on_path :
      (fuel : ℕ) (path : List String) (x : String) (v : List String)
      → contains path x ≡ true
      → visit g (suc fuel) path x v ≡ found (from_position x path ++ x ∷ [])
  unfolding visit
  visit_on_path fuel path x v on_path = rw on_path

  leave-eq_clear :
      (x : String) (o : Outcome) (v : List String)
      → leave x o ≡ clear v
      → (w : List String) × (o ≡ clear w) × (v ≡ x ∷ w)
  leave-eq_clear x (found c) v e = absurd (ground arith)
  leave-eq_clear x (clear w) v e = (w, refl, ground arith)
  leave-eq_clear x stuck v e = absurd (ground arith)

  -- An id that the search clears starts no endless chain, nor does any visited id.
  visit-clear :
      (fuel : ℕ) (path : List String) (x : String) (v v' : List String)
      → AllSettled v
      → visit g fuel path x v ≡ clear v'
      → AllSettled v' × Settled g x
  visit-clear zero path x v v' all e = absurd (unfold visit in ground arith)
  visit-clear (suc fuel) path x v v' all e = elim (Bool-cases (contains path x)) [
    | inl on_path ↦ absurd (ground (arith, visit_on_path fuel path x v on_path))
    | inr off_path ↦ elim (Bool-cases (contains v x)) [
      | inl seen ↦
          let same : v' ≡ v = ground (arith, visit_seen fuel path x v off_path seen) in
          (rw same all, all x seen)
      | inr unseen ↦
          let (w, cleared, same) =
            leave-eq_clear x (deeper fuel path x v) v'
              (sym (visit_new fuel path x v off_path unseen) ∙ e) in
          let (all', there) =
            search_all-clear (λ d w'. visit g fuel (path ++ x ∷ []) d w') (Settled g)
              (λ d u u' a h. visit-clear fuel (path ++ x ∷ []) d u u' a h) (dependencies_of g x) v w
              all cleared in
          let here : Settled g x = settled x there in
          (
            rw same (λ y mem. elim (Bool-cases (x == y)) [
              | inl is ↦ subst (Settled g) ((eq_iff x y).0 is) here
              | inr other ↦ all' y (rw other at mem)
            ]),
            here,
          )
    ]
  ]

  IsWalk-snoc :
      (p : List String) (x d : String)
      → IsWalk g (p ++ x ∷ [])
      → Edge g x d
      → IsWalk g ((p ++ x ∷ []) ++ d ∷ [])
  IsWalk-snoc [] x d w e = (e, tt)
  IsWalk-snoc (y ∷ []) x d w e = (w.0, (e, tt))
  IsWalk-snoc (y ∷ z ∷ p) x d w e = (w.0, IsWalk-snoc (z ∷ p) x d w.1 e)

  IsWalk-tail : (y : String) (p : List String) → IsWalk g (y ∷ p) → IsWalk g p
  IsWalk-tail y [] w = tt
  IsWalk-tail y (z ∷ p) w = w.1

  -- The part of the path from its place of `x` on, closed by `x`, is a cycle.
  closes :
      (path : List String) (x : String)
      → contains path x ≡ true
      → IsWalk g (path ++ x ∷ [])
      → IsCycle g (from_position x path ++ x ∷ [])
  closes [] x mem w = cc
  closes (y ∷ path) x mem w = elim (Bool-cases (y == x)) [
    | inl same ↦
        let is : y ≡ x = (eq_iff y x).0 same in
        rw same (record { start = x; between = path; returns = rw is; walk = w })
    | inr other ↦ rw other (closes path x (rw other at mem) (IsWalk-tail y (path ++ x ∷ []) w))
  ]

  leave-eq_found : (x : String) (o : Outcome) (c : List String) → leave x o ≡ found c → o ≡ found c
  leave-eq_found x o c e = ground arith

  visit-found :
      (fuel : ℕ) (path : List String) (x : String) (v c : List String)
      → IsWalk g (path ++ x ∷ [])
      → visit g fuel path x v ≡ found c
      → IsCycle g c
  visit-found zero path x v c w e = absurd (unfold visit in ground arith)
  visit-found (suc fuel) path x v c w e = elim (Bool-cases (contains path x)) [
    | inl on_path ↦
        let same : c ≡ from_position x path ++ x ∷ [] =
          ground (arith, visit_on_path fuel path x v on_path) in
        rw same (closes path x on_path w)
    | inr off_path ↦ elim (Bool-cases (contains v x)) [
      | inl seen ↦ absurd (ground (arith, visit_seen fuel path x v off_path seen))
      | inr unseen ↦
          let below : deeper fuel path x v ≡ found c =
            leave-eq_found x (deeper fuel path x v) c
              (sym (visit_new fuel path x v off_path unseen) ∙ e) in
          let (d, u, edge, ends) =
            search_all-ends (λ d w'. visit g fuel (path ++ x ∷ []) d w') (dependencies_of g x) v
              (found c) below (λ u h. absurd (ground arith)) in
          visit-found fuel (path ++ x ∷ []) d u c (IsWalk-snoc path x d w edge) ends
    ]
  ]

-- Only an id that has a row has dependencies.
Edge-row :
    (g : DependencyGraph) (x d : String) → Edge g x d → (ds : List String) × (lookup x g ≡ some ds)
unfolding dependencies_of
Edge-row g x d e = elim (Option-cases (lookup x g)) [
  | inl none_there ↦ absurd (ground arith)
  | inr (ds, row) ↦ (ds, row)
]

leave-eq_stuck : (x : String) (o : Outcome) → leave x o ≡ stuck → o ≡ stuck
leave-eq_stuck x o e = ground arith

visit-ne_stuck :
    (g : DependencyGraph) (fuel : ℕ) (path : List String) (x : String) (v : List String)
    → off path g < fuel
    → visit g fuel path x v ≢ stuck
visit-ne_stuck g zero path x v enough e = absurd (omega arith)
visit-ne_stuck g (suc fuel) path x v enough e = elim (Bool-cases (contains path x)) [
  | inl on_path ↦ absurd (ground (arith, visit_on_path g fuel path x v on_path))
  | inr off_path ↦ elim (Bool-cases (contains v x)) [
    | inl seen ↦ absurd (ground (arith, visit_seen g fuel path x v off_path seen))
    | inr unseen ↦
        let below : deeper g fuel path x v ≡ stuck =
          leave-eq_stuck x (deeper g fuel path x v)
            (sym (visit_new g fuel path x v off_path unseen) ∙ e) in
        let (d, u, edge, ends) =
          search_all-ends (λ d w'. visit g fuel (path ++ x ∷ []) d w') (dependencies_of g x) v stuck
            below (λ u h. absurd (ground arith)) in
        let (ds, row) = Edge-row g x d edge in
        visit-ne_stuck g fuel (path ++ x ∷ []) d u
          (omega (arith, off-snoc_lt path x g off_path row)) ends
  ]
]

-- The cycle search always ends: either it returns a cycle, which is a walk along dependencies back
-- to its first id, or it returns none, and then every chain of dependencies from the start ends.
pub dependency_cycle_decides :
    (g : DependencyGraph) (start : String)
    → ((c : List String) × (dependency_cycle g start ≡ found c) × IsCycle g c)
      ⊎ ((v : List String) × (dependency_cycle g start ≡ clear v) × Settled g start)
unfolding dependency_cycle
dependency_cycle_decides g start = elim (Outcome-cases (visit g (length g + 1) [] start [])) [
  | inl (c, is) ↦ inl (c, is, visit-found g (length g + 1) [] start [] c tt is)
  | inr (inl (v, is)) ↦ inr (v, is, (visit-clear g (length g + 1) [] start [] v (λ y mem. cc) is).1)
  | inr (inr is) ↦
      absurd (visit-ne_stuck g (length g + 1) [] start [] (omega (arith, off-nil g)) is)
]
