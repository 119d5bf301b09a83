-- ===== src/Taskservice/Scope/Governance.antt =====
-- The walk up the governors: it always ends, and it finds the subject exactly when the subject
-- governs the target, directly or through other tasks.
use panopticon_next.Base.{
  ℕ, zero, suc, ◌+◌, ◌<◌, String, true, false, some, List, [], ◌∷◌, ◌++◌, ok, ◌≡◌, ◌≢◌, ◌↔◌, refl,
  ap, sym, arith, ◌∙◌, inl, inr, ◌==◌, eq_iff, eq_refl, contains, length, Bool-cases, Option-cases,
}
use mathlib.Core.Option.{some-injective}
use panopticon_next.Base.Table.{Table, lookup, assign, lookup-assign}
use panopticon_next.Base.Visited.{off, off-snoc_lt, off-nil, contains-snoc}
use panopticon_next.Core.Models.{Task}
use panopticon_next.Taskservice.Scope.{
  Relation, is_self, given_governor, walk, relation_to, index_by_id, by_id,
}

-- `subject` is the governor of the task, or of a task above it.
pub data Governed (rows : Table Task) (subject : String) : Task → Type 0 where
  direct : (t : Task) → given_governor t.governor_task_id ≡ some subject → Governed rows subject t
  above :
      (t u : Task) (g : String)
      → given_governor t.governor_task_id ≡ some g
      → lookup g rows ≡ some u
      → Governed rows subject u
      → Governed rows subject t

-- The rows are indexed by the ids of their tasks.
pub IsIndexed : Table Task → Type 0
IsIndexed rows = (k : String) (t : Task) → lookup k rows ≡ some t → t.id ≡ k

index_by_id-IsIndexed :
    (rows : Table Task) (ts : List Task) → IsIndexed rows → IsIndexed (index_by_id rows ts)
unfolding IsIndexed index_by_id
index_by_id-IsIndexed rows [] h = h
index_by_id-IsIndexed rows (t ∷ ts) h =
    index_by_id-IsIndexed (assign t.id t rows) ts
      (λ k u found. ground (arith, lookup-assign t.id k t rows, eq_iff t.id k, h k u))

pub by_id-IsIndexed : (ts : List Task) → IsIndexed (by_id ts)
unfolding by_id IsIndexed
by_id-IsIndexed ts = index_by_id-IsIndexed [] ts (λ k t found. absurd (unfold lookup in cc))

pub by_id-key : (ts : List Task) (k : String) (t : Task) → lookup k (by_id ts) ≡ some t → t.id ≡ k
unfolding IsIndexed
by_id-key ts k t found = by_id-IsIndexed ts k t found

module _ (rows : Table Task) (subject : String) where
  walk_sound :
      (fuel : ℕ) (seen : List String) (t : Task)
      → walk fuel rows subject seen t ≡ ok Relation.governed
      → Governed rows subject t
  unfolding walk
  walk_sound zero seen t h = absurd (ground arith)
  walk_sound (suc fuel) seen t h = elim (Option-cases (given_governor t.governor_task_id)) [
    | inl top ↦ absurd (ground arith)
    | inr (g, up) ↦ elim (Bool-cases (g == subject)) [
      | inl same ↦ direct t (up ∙ ap some ((eq_iff g subject).0 same))
      | inr other ↦ elim (Option-cases (lookup g rows)) [
        | inl gone ↦ absurd (ground arith)
        | inr (u, found) ↦
            above t u g up found (walk_sound fuel (seen ++ t.id ∷ []) u (ground arith))
      ]
    ]
  ]

  module _ (indexed : IsIndexed rows) where
    -- A task above another one is the row of its id.
    is_row : (g : String) (u : Task) → lookup g rows ≡ some u → lookup u.id rows ≡ some u
    unfolding IsIndexed
    is_row g u found = ap (λ k. lookup k rows) (indexed g u found) ∙ found

    -- With a round for each row that is not seen yet the walk ends with an answer.
    walk_total :
        (fuel : ℕ) (seen : List String) (t : Task)
        → lookup t.id rows ≡ some t
        → off seen rows < fuel
        → (r : Relation) × (walk fuel rows subject seen t ≡ ok r)
    unfolding walk
    walk_total zero seen t row enough = absurd (omega arith)
    walk_total (suc fuel) seen t row enough =
        elim (Option-cases (given_governor t.governor_task_id)) [
          | inl top ↦ (Relation.unrelated, ground arith)
          | inr (g, up) ↦ elim (Bool-cases (contains seen t.id)) [
            | inl again ↦ (Relation.unrelated, ground arith)
            | inr new ↦ elim (Bool-cases (g == subject)) [
              | inl same ↦ (Relation.governed, ground arith)
              | inr other ↦ elim (Option-cases (lookup g rows)) [
                | inl gone ↦ (Relation.unrelated, ground arith)
                | inr (u, found) ↦
                    let (r, rest) =
                      walk_total fuel (seen ++ t.id ∷ []) u (is_row g u found)
                        (omega (arith, off-snoc_lt seen t.id rows new row)) in
                    (r, ground arith)
              ]
            ]
          ]
        ]

-- Governed in `n` steps before the last, none of them by the subject.
data GovernedIn (rows : Table Task) (subject : String) : ℕ → Task → Type 0 where
  last : (t : Task) → given_governor t.governor_task_id ≡ some subject → GovernedIn rows subject 0 t
  more :
      (n : ℕ) (t u : Task) (g : String)
      → given_governor t.governor_task_id ≡ some g
      → g ≢ subject
      → lookup g rows ≡ some u
      → GovernedIn rows subject n u
      → GovernedIn rows subject (suc n) t

module _ (rows : Table Task) (subject : String) where
  nearest : (t : Task) → Governed rows subject t → (n : ℕ) × GovernedIn rows subject n t
  nearest t (direct _ up) = (0, last t up)
  nearest t (above _ u g up found higher) = elim (Bool-cases (g == subject)) [
    | inl same ↦ (0, last t (up ∙ ap some ((eq_iff g subject).0 same)))
    | inr other ↦
        let (n, steps) = nearest u higher in
        (suc n, more n t u g up (λ is. absurd (ground (arith, eq_iff g subject))) found steps)
  ]

  GovernedIn-unique :
      (n m : ℕ) (t : Task) → GovernedIn rows subject n t → GovernedIn rows subject m t → n ≡ m
  GovernedIn-unique _ _ t (last _ up) (last _ up') = refl
  GovernedIn-unique _ _ t (last _ up) (more m _ u g up' other found steps) =
      absurd (other (some-injective g subject (sym up' ∙ up)))
  GovernedIn-unique _ _ t (more n _ u g up other found steps) (last _ up') =
      absurd (other (some-injective g subject (sym up ∙ up')))
  GovernedIn-unique _ _ t (more n _ u g up other found steps)
        (more m _ u' g' up' other' found' steps') =
      let same_id : g ≡ g' = some-injective g g' (sym up ∙ up') in
      let same : u' ≡ u = some-injective u' u (sym found' ∙ rw same_id at found) in
      ap suc (GovernedIn-unique n m u steps (rw same at steps'))

  -- Every row that was seen is governed in more steps than are left, if at all.
  IsAhead : List String → ℕ → Type 0
  IsAhead seen n =
      (x : String) (w : Task) (m : ℕ)
      → contains seen x ≡ true
      → lookup x rows ≡ some w
      → GovernedIn rows subject m w
      → n < m

  IsAhead-snoc :
      (seen : List String) (n : ℕ) (t : Task)
      → lookup t.id rows ≡ some t
      → GovernedIn rows subject (suc n) t
      → IsAhead seen (suc n)
      → IsAhead (seen ++ t.id ∷ []) n
  unfolding IsAhead
  IsAhead-snoc seen n t row steps ahead x w m mem found there =
      elim (Bool-cases (contains seen x)) [
        | inl old ↦ omega (arith, ahead x w m old found there)
        | inr fresh ↦
            let is : t.id ≡ x = ground (arith, contains-snoc seen t.id x, eq_iff t.id x) in
            let same : w ≡ t =
              some-injective w t (sym found ∙ ap (λ k. lookup k rows) (sym is) ∙ row) in
            let equal : m ≡ suc n = GovernedIn-unique m (suc n) t (rw same at there) steps in
            omega (arith, equal)
      ]

  module _ (indexed : IsIndexed rows) where
    walk_complete :
        (fuel n : ℕ) (seen : List String) (t : Task)
        → lookup t.id rows ≡ some t
        → off seen rows < fuel
        → IsAhead seen n
        → GovernedIn rows subject n t
        → walk fuel rows subject seen t ≡ ok Relation.governed
    unfolding walk IsAhead
    walk_complete zero n seen t row enough ahead steps = absurd (omega arith)
    walk_complete (suc fuel) _ seen t row enough ahead (last _ up) =
        elim (Bool-cases (contains seen t.id)) [
          | inl again ↦ absurd (omega (arith, ahead t.id t 0 again row (last t up)))
          | inr new ↦ ground (arith, eq_refl subject)
        ]
    walk_complete (suc fuel) _ seen t row enough ahead (more n _ u g up other found steps) =
        elim (Bool-cases (contains seen t.id)) [
          | inl again ↦
              absurd
                (omega (arith, ahead t.id t (suc n) again row (more n t u g up other found steps)))
          | inr new ↦
              let rest =
                walk_complete fuel n (seen ++ t.id ∷ []) u (is_row rows subject indexed g u found)
                  (omega (arith, off-snoc_lt seen t.id rows new row))
                  (IsAhead-snoc seen n t row (more n t u g up other found steps) ahead) steps in
              ground (arith, eq_iff g subject)
        ]

-- On rows indexed by id, and for a target that is one of them, the relation is always found, without a cycle of governors running away,
-- and it is `governed` exactly when the target is another task than the subject's own row and the
-- subject governs it, directly or through other tasks.
pub relation_to_decides :
    (rows : Table Task) (subject : String) (target : Task)
    → IsIndexed rows
    → lookup target.id rows ≡ some target
    → ((r : Relation) × (relation_to subject (some target) rows ≡ ok r))
      × ((relation_to subject (some target) rows ≡ ok Relation.governed)
          ↔ ((is_self subject target (lookup subject rows) ≡ false) × Governed rows subject target))
unfolding relation_to
relation_to_decides rows subject target indexed row =
    let fuelled : off [] rows < length rows + 1 = omega (arith, off-nil rows) in
    let (r, ends) = walk_total rows subject indexed (length rows + 1) [] target row fuelled in
    let sound = walk_sound rows subject (length rows + 1) [] target in
    let complete : Governed rows subject target
        → walk (length rows + 1) rows subject [] target ≡ ok Relation.governed =
      λ above.
        let (n, steps) = nearest rows subject target above in
        walk_complete rows subject indexed (length rows + 1) n [] target row fuelled
          (unfold IsAhead in λ x w m mem. absurd cc) steps in
    elim (Bool-cases (is_self subject target (lookup subject rows))) [
      | inl self ↦
          ((Relation.self, ground arith), (λ h. absurd (ground arith), λ h. absurd (ground arith)))
      | inr other ↦ (
        (r, ground arith),
        (λ h. (other, sound (ground arith)), λ h. ground (arith, complete h.1)),
      )
    ]
