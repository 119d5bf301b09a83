-- ===== src/Core/Workflow/Resolution/Closure.antt =====
-- What the closure over the state classes establishes (core/workflow.py, the `while` loop of
-- `_graph`): every class that a registered class refers to is registered too.
use panopticon_next.Base.{
  ℕ, zero, suc, String, ◌≡◌, ◌⊎◌, inl, inr, ap, sym, ◌∙◌, arith, Bool, true, false, ◌||◌, some,
  List, [], ◌∷◌, ok, or_raise, or_raise-eq-ok, >>=-eq-ok, ◌==◌, eq_iff, eq_refl, if◌then◌else◌,
  is_some, contains, All, Bool-cases, Option-cases,
}
use mathlib.Core.Option.{some-injective}
use mathlib.Core.Path.{subst}
use panopticon_next.Base.Table.{Table, lookup, lookup-assign}
use panopticon_next.Core.Workflow.Resolution.{
  Target, WorkflowDecl, class_of, is_terminal_class, accumulated_transitions, register, scan, round,
  close,
}
use panopticon_next.Core.Workflow.Resolution.Registry.{
  not_taken, Keeps, Keeps-refl, Keeps-trans, Registers, register-Registers, Registers-Keeps,
  Registers-lookup,
}

-- A target that is a class stands in the registry under its label.
unfoldable pub InTable : WorkflowDecl → Table String → Target → Type 0
InTable d t (Target.a_class id) =
    (l : String) × ((class_of d id).label ≡ some l) × (lookup l t ≡ some id)
InTable d t _ = Unit

-- The classes that a class refers to are registered.
unfoldable pub IsDone : WorkflowDecl → Table String → String → Type 0
IsDone d t id =
    is_terminal_class (class_of d id) ≡ false
    → All (InTable d t) (accumulated_transitions (class_of d id))

-- The registry is closed: each label leads to a class of that label which refers to registered
-- classes only.
unfoldable pub IsClosed : WorkflowDecl → Table String → Type 0
IsClosed d t =
    (l id : String) → lookup l t ≡ some id → ((class_of d id).label ≡ some l) × IsDone d t id

module _ (d : WorkflowDecl) where
  InTable-Keeps : (a b : Table String) (t : Target) → Keeps a b → InTable d a t → InTable d b t
  unfolding InTable
  InTable-Keeps a b (Target.a_class id) keeps (l, labelled, found) =
      (l, labelled, keeps.classes l id found)
  InTable-Keeps a b (Target.a_label l) keeps h = tt
  InTable-Keeps a b Target.malformed keeps h = tt

  all_InTable-Keeps :
      (a b : Table String) (ts : List Target)
      → Keeps a b
      → All (InTable d a) ts
      → All (InTable d b) ts
  all_InTable-Keeps a b [] keeps h = tt
  all_InTable-Keeps a b (t ∷ ts) keeps h =
      (InTable-Keeps a b t keeps h.0, all_InTable-Keeps a b ts keeps h.1)

  IsDone-Keeps : (a b : Table String) (id : String) → Keeps a b → IsDone d a id → IsDone d b id
  unfolding IsDone
  IsDone-Keeps a b id keeps h live = all_InTable-Keeps a b _ keeps (h live)

  -- What one scan of the targets of a class does.
  pub record Scans (ts : List Target) (before after : Table String) (pending pending' : List String)
      : Type 0 where
    pub keeps : Keeps before after
    pub found : All (InTable d after) ts
    pub rows :
        (l id : String)
        → lookup l after ≡ some id
        → (lookup l before ≡ some id)
          ⊎ (((class_of d id).label ≡ some l) × (contains pending' id ≡ true))
    pub stays : (id : String) → contains pending id ≡ true → contains pending' id ≡ true

  stays_push :
      (b : Bool) (id i : String) (pending : List String)
      → contains pending i ≡ true
      → contains (if b then pending else id ∷ pending) i ≡ true
  stays_push b id i pending h = ground arith

  scan_row :
      (before mid : Table String) (id l : String) (pending : List String)
      → Registers d before id mid
      → (class_of d id).label ≡ some l
      → (k i : String) → lookup k mid ≡ some i
      → (lookup k before ≡ some i)
        ⊎ (((class_of d i).label ≡ some k)
            × (contains (if is_some (lookup l before) then pending else id ∷ pending) i ≡ true))
  scan_row before mid id l pending r labelled k i h =
      let is_l : r.label ≡ l = some-injective r.label l (sym r.labelled ∙ labelled) in
      let at : (if r.label == k then some id else lookup k before) ≡ some i =
        sym (lookup-assign r.label k id before) ∙ ap (lookup k) (sym r.wrote) ∙ h in
      elim (Bool-cases (r.label == k)) [
        | inr other ↦ inl (rw (other, if◌then◌else◌) at at)
        | inl same ↦
            let is_id : id ≡ i = some-injective id i (rw (same, if◌then◌else◌) at at) in
            let is_k : l ≡ k = sym is_l ∙ (eq_iff r.label k).0 same in
            elim (Option-cases (lookup l before)) [
              | inl fresh ↦ inr (
                subst (λ j. (class_of d j).label ≡ some k) is_id (labelled ∙ ap some is_k),
                ground (arith, eq_refl i, ap is_some fresh),
              )
              | inr (j, taken) ↦
                  let at_k : lookup k before ≡ some j =
                    ap (λ x. lookup x before) (sym is_k) ∙ taken in
                  let at_r : lookup r.label before ≡ some j =
                    ap (λ x. lookup x before) is_l ∙ taken in
                  inl (at_k ∙ ap some (not_taken (lookup r.label before) j id at_r r.free ∙ is_id))
            ]
      ]

  pub scan-Scans :
      (ts : List Target) (before : Table String) (pending : List String) (after : Table String)
      (pending' : List String)
      → scan d ts before pending ≡ ok (after, pending')
      → Scans ts before after pending pending'
  unfolding scan InTable
  scan-Scans [] before pending after pending' h =
      let same : before ≡ after = ground arith in
      let same' : pending ≡ pending' = ground arith in
      record {
        keeps = subst (Keeps before) same (Keeps-refl before);
        found = tt;
        rows = λ l id e. inl (ap (lookup l) same ∙ e);
        stays = λ id e. ground arith;
      }
  scan-Scans (Target.a_label l ∷ ts) before pending after pending' h =
      let rest = scan-Scans ts before pending after pending' h in
      record { keeps = rest.keeps; found = (tt, rest.found); rows = rest.rows; stays = rest.stays }
  scan-Scans (Target.malformed ∷ ts) before pending after pending' h =
      let rest = scan-Scans ts before pending after pending' h in
      record { keeps = rest.keeps; found = (tt, rest.found); rows = rest.rows; stays = rest.stays }
  scan-Scans (Target.a_class id ∷ ts) before pending after pending' h =
      let (l, h_label, h1) = >>=-eq-ok (or_raise (class_of d id).label _) _ h in
      let (mid, h_register, h2) = >>=-eq-ok (register d before id) _ h1 in
      let labelled = or_raise-eq-ok (class_of d id).label _ h_label in
      let r = register-Registers d before id mid h_register in
      let rest = scan-Scans ts mid _ after pending' h2 in
      record {
        keeps = Keeps-trans before mid after (Registers-Keeps d before id mid r) rest.keeps;
        found = (
          (r.label, r.labelled, rest.keeps.classes r.label id (Registers-lookup d before id mid r)),
          rest.found,
        );
        rows = λ k i e. elim (rest.rows k i e) [
          | inr new ↦ inr new
          | inl old ↦ elim (scan_row before mid id l pending r labelled k i old) [
            | inl older ↦ inl older
            | inr (is, pushed) ↦ inr (is, rest.stays i pushed)
          ]
        ];
        stays = λ i e. rest.stays i (stays_push (is_some (lookup l before)) id i pending e);
      }

  -- The invariant of the loop: a registered class is pending, or what it refers to is registered,
  -- as it is for every visited class.
  pub record IsClosing (visited : List String) (t : Table String) (pending : List String)
      : Type 0 where
    pub rows :
        (l id : String)
        → lookup l t ≡ some id
        → ((class_of d id).label ≡ some l) × ((contains pending id ≡ true) ⊎ IsDone d t id)
    pub seen : (id : String) → contains visited id ≡ true → IsDone d t id

  terminal_done :
      (id : String) (t : Table String) → is_terminal_class (class_of d id) ≡ true → IsDone d t id
  unfolding IsDone
  terminal_done id t ends live = absurd cc

  scanned_done :
      (id : String) (t : Table String)
      → All (InTable d t) (accumulated_transitions (class_of d id))
      → IsDone d t id
  unfolding IsDone
  scanned_done id t h live = h

  rows-IsClosed :
      (t : Table String)
      → ((l id : String)
          → lookup l t ≡ some id
          → ((class_of d id).label ≡ some l) × ((contains [] id ≡ true) ⊎ IsDone d t id))
      → IsClosed d t
  unfolding IsClosed
  rows-IsClosed t rows l id e =
      ((rows l id e).0, elim (rows l id e).1 [ inl h ↦ absurd cc | inr h ↦ h ])

  skipped-IsDone :
      (id : String) (visited : List String) (t : Table String)
      → ((i : String) → contains visited i ≡ true → IsDone d t i)
      → (contains visited id || is_terminal_class (class_of d id)) ≡ true
      → IsDone d t id
  skipped-IsDone id visited t seen skip = elim (Bool-cases (contains visited id)) [
    | inl old ↦ seen id old
    | inr new ↦ terminal_done id t (rw new at skip)
  ]

  -- A pop of a class whose references are registered, with what it pushed.
  popped :
      (id : String) (visited : List String) (t t' : Table String) (pending pending' : List String)
      → IsClosing visited t (id ∷ pending)
      → Keeps t t'
      → IsDone d t' id
      → ((l i : String)
          → lookup l t' ≡ some i
          → (lookup l t ≡ some i)
            ⊎ (((class_of d i).label ≡ some l) × (contains pending' i ≡ true)))
      → ((i : String) → contains pending i ≡ true → contains pending' i ≡ true)
      → IsClosing (id ∷ visited) t' pending'
  popped id visited t t' pending pending' inv keeps done rows stays = record {
    rows = λ l i e. elim (rows l i e) [
      | inr (is, pushed) ↦ (is, inl pushed)
      | inl old ↦ ((inv.rows l i old).0, waits i (inv.rows l i old).1)
    ];
    seen = λ i e. elim (Bool-cases (id == i)) [
      | inl same ↦ subst (IsDone d t') ((eq_iff id i).0 same) done
      | inr other ↦ IsDone-Keeps t t' i keeps (inv.seen i (rw other at e))
    ];
  }
    where
      waits :
          (i : String)
          → (contains (id ∷ pending) i ≡ true) ⊎ IsDone d t i
          → (contains pending' i ≡ true) ⊎ IsDone d t' i
      waits i (inr h) = inr (IsDone-Keeps t t' i keeps h)
      waits i (inl h) = elim (Bool-cases (id == i)) [
        | inl same ↦ inr (subst (IsDone d t') ((eq_iff id i).0 same) done)
        | inr other ↦ inl (stays i (rw other at h))
      ]

  round-IsClosing :
      (id : String) (visited : List String) (t t' : Table String) (pending pending' : List String)
      → IsClosing visited t (id ∷ pending)
      → round d id visited t pending ≡ ok (t', pending')
      → IsClosing (id ∷ visited) t' pending' × Keeps t t'
  unfolding round
  round-IsClosing id visited t t' pending pending' inv h =
      elim (Bool-cases (contains visited id || is_terminal_class (class_of d id))) [
        | inl skip ↦
            let same : t ≡ t' = ground arith in
            let same' : pending ≡ pending' = ground arith in
            let keeps = subst (Keeps t) same (Keeps-refl t) in
            (
              popped id visited t t' pending pending' inv keeps
                  (IsDone-Keeps t t' id keeps (skipped-IsDone id visited t inv.seen skip))
                  (λ l i e. inl (ap (lookup l) same ∙ e))
                  (λ i e. sym (ap (λ p. contains p i) same') ∙ e),
              keeps,
            )
        | inr goes ↦
            let s = scan-Scans _ t pending t' pending' (rw (goes, if◌then◌else◌) at h) in
            (
              popped id visited t t' pending pending' inv s.keeps (scanned_done id t' s.found)
                  s.rows s.stays,
              s.keeps,
            )
      ]

  -- A closure that returns has kept the registry and closed it.
  pub close-IsClosed :
      (fuel : ℕ) (visited : List String) (t : Table String) (pending : List String)
      (after : Table String)
      → IsClosing visited t pending
      → close d fuel visited t pending ≡ ok after
      → IsClosed d after × Keeps t after
  unfolding close
  close-IsClosed fuel visited t [] after inv h =
      let same : t ≡ after = ground arith in
      (subst (IsClosed d) same (rows-IsClosed t inv.rows), subst (Keeps t) same (Keeps-refl t))
  close-IsClosed zero visited t (id ∷ pending) after inv h = cc
  close-IsClosed (suc fuel) visited t (id ∷ pending) after inv h =
      let (next, h_round, h1) = >>=-eq-ok (round d id visited t pending) _ h in
      let (inv1, keeps1) = round-IsClosing id visited t next.0 pending next.1 inv h_round in
      let (closed, keeps2) = close-IsClosed fuel (id ∷ visited) next.0 next.1 after inv1 h1 in
      (closed, Keeps-trans t next.0 after keeps1 keeps2)
