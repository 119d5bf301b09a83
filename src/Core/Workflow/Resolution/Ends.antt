-- ===== src/Core/Workflow/Resolution/Ends.antt =====
-- The resolution of a workflow always ends (core/workflow.py): the fuel of the closure covers every
-- class that can be pushed.
use panopticon_next.Base.{
  ℕ, zero, suc, ◌+◌, ◌≤◌, String, ◌≡◌, refl, ap, sym, ◌∙◌, arith, Bool, true, false, not, ◌||◌,
  none, some, or_raise, or_raise-eq-ok, List, [], ◌∷◌, ok, ok_pair-injective, or_else,
  length-append, >>=-eq-ok, is_some, contains, ◌==◌, eq_iff, if◌then◌else◌, length, Option-cases,
  Bool-cases, inl, inr,
}
use mathlib.Core.Option.{some-injective}
use mathlib.Core.Path.{subst}
use panopticon_next.Base.Table.{Table, lookup, values}
use panopticon_next.Core.Models.{dropped_label}
use panopticon_next.Core.Workflow.Resolution.{
  Target, StateDecl, WorkflowDecl, class_of, is_terminal_class, label_or_empty, register, scan,
  round, close, initial_registry, closure_fuel, resolve_graph, complete_class, dropped_class,
  label_of, materialize, all_operations, is_initial_state,
}
use panopticon_next.Core.Workflow.Resolution.Registry.{
  Keeps, Registers, register-Registers, Registers-Keeps, Registers-lookup,
}
use panopticon_next.Core.Workflow.Resolution.Start.{
  HasBuiltins, HasBuiltins-Keeps, initial_registry-HasBuiltins,
}
use panopticon_next.Core.Workflow.Resolution.Refusals.{
  Ends, returns, >>=-Ends, scan-Ends, or_raise-Ends, check-Ends, initial_registry-Ends,
  materialize-Ends, all_operations-Ends, label_of-Ends,
}
use panopticon_next.Core.Workflow.Resolution.Closure.{scan-Scans}
use mathlib.Core.List.{reverse, reverse-cons}

module _ (d : WorkflowDecl) where
  -- The classes that stand in rows of the declaration and have no label in the registry.
  abbrev unregistered : Table StateDecl → Table String → ℕ
  unregistered [] t = 0
  unregistered ((id, c) ∷ rows) t =
      let rest = unregistered rows t in
      if is_some (lookup (label_or_empty (class_of d id)) t) then rest else suc rest

  label_stays :
      (t t' : Table String) (l : String)
      → Keeps t t'
      → is_some (lookup l t) ≡ true
      → is_some (lookup l t') ≡ true
  label_stays t t' l keeps h = elim (Option-cases (lookup l t)) [
    | inl lacks ↦ absurd (ground arith)
    | inr (id, found) ↦ ap is_some (keeps.classes l id found)
  ]

  unregistered-le :
      (rows : Table StateDecl) (t t' : Table String)
      → Keeps t t'
      → unregistered rows t' ≤ unregistered rows t
  unregistered-le [] t t' keeps = omega arith
  unregistered-le ((id, c) ∷ rows) t t' keeps = ground (
    arith,
    unregistered-le rows t t' keeps,
    label_stays t t' (label_or_empty (class_of d id)) keeps,
  )

  unregistered-lt :
      (rows : Table StateDecl) (t t' : Table String) (id : String)
      → Keeps t t'
      → is_some (lookup id rows) ≡ true
      → is_some (lookup (label_or_empty (class_of d id)) t) ≡ false
      → is_some (lookup (label_or_empty (class_of d id)) t') ≡ true
      → suc (unregistered rows t') ≤ unregistered rows t
  unfolding lookup
  unregistered-lt [] t t' id keeps row new old = cc
  unregistered-lt ((k, c) ∷ rows) t t' id keeps row new old = elim (Bool-cases (k == id)) [
    | inl same ↦
        let is : k ≡ id = (eq_iff k id).0 same in
        let new_k =
          subst (λ i. is_some (lookup (label_or_empty (class_of d i)) t) ≡ false) (sym is) new in
        let old_k =
          subst (λ i. is_some (lookup (label_or_empty (class_of d i)) t') ≡ true) (sym is) old in
        rw (new_k, old_k) (omega (arith, unregistered-le rows t t' keeps))
    | inr other ↦
        step _ _ _ _ (label_stays t t' (label_or_empty (class_of d k)) keeps)
          (unregistered-lt rows t t' id keeps (rw (other, if◌then◌else◌) at row) new old)
  ]
    where
      step :
          (a b : Bool) (m n : ℕ)
          → (a ≡ true → b ≡ true)
          → suc n ≤ m
          → suc (if b then n else suc n) ≤ (if a then m else suc m)
      step a b m n later h = ground arith

  -- A class that can be registered and is not yet is one of the declaration.
  new_class :
      (t t' : Table String) (id : String)
      → HasBuiltins d t
      → Registers d t id t'
      → lookup (label_or_empty (class_of d id)) t ≡ none
      → is_some (lookup id d.classes) ≡ true
  new_class t t' id builtins r new = elim (Bool-cases (id == dropped_class)) [
    | inl is_dropped ↦ let found = builtins.dropped in absurd (ground arith)
    | inr other ↦ elim (Bool-cases (id == complete_class)) [
      | inl is_complete ↦ let found = builtins.complete in absurd (ground arith)
      | inr declared ↦ elim (Option-cases (lookup id d.classes)) [
        | inl lacks ↦ let concrete = r.concrete in absurd (ground arith)
        | inr (c, found) ↦ ap is_some found
      ]
    ]
  ]

  push-le :
      (l : String) (t mid : Table String) (id : String) (pending : List String)
      → HasBuiltins d t
      → Registers d t id mid
      → (class_of d id).label ≡ some l
      → length (if is_some (lookup l t) then pending else id ∷ pending) + unregistered d.classes mid
        ≤ length pending + unregistered d.classes t
  push-le l t mid id pending builtins r labelled =
      let keeps = Registers-Keeps d t id mid r in
      let is_l : label_or_empty (class_of d id) ≡ l = ap (λ o. or_else o "") labelled in
      let at_mid : lookup l mid ≡ some id =
        ap (λ k. lookup k mid) (some-injective l r.label (sym labelled ∙ r.labelled))
        ∙ Registers-lookup d t id mid r in
      elim (Option-cases (lookup l t)) [
        | inr (i, found) ↦ rw found (omega (arith, unregistered-le d.classes t mid keeps))
        | inl lacks ↦
            let new : lookup (label_or_empty (class_of d id)) t ≡ none =
              ap (λ k. lookup k t) is_l ∙ lacks in
            let old : lookup (label_or_empty (class_of d id)) mid ≡ some id =
              ap (λ k. lookup k mid) is_l ∙ at_mid in
            let less =
              unregistered-lt d.classes t mid id keeps (new_class t mid id builtins r new)
                (ap is_some new) (ap is_some old) in
            rw lacks (omega (arith, less))
      ]

  scan-le :
      (ts : List Target) (t t' : Table String) (pending pending' : List String)
      → HasBuiltins d t
      → scan d ts t pending ≡ ok (t', pending')
      → length pending' + unregistered d.classes t' ≤ length pending + unregistered d.classes t
  unfolding scan
  scan-le [] t t' pending pending' builtins h =
      let same : t ≡ t' = ground arith in
      let same' : pending ≡ pending' = ground arith in rw (sym same, sym same') (omega arith)
  scan-le (Target.a_label l ∷ ts) t t' pending pending' builtins h =
      scan-le ts t t' pending pending' builtins h
  scan-le (Target.malformed ∷ ts) t t' pending pending' builtins h =
      scan-le ts t t' pending pending' builtins h
  scan-le (Target.a_class id ∷ ts) t t' pending pending' builtins h =
      let (l, h_label, h1) = >>=-eq-ok (or_raise (class_of d id).label _) _ h in
      let (mid, h_register, h2) = >>=-eq-ok (register d t id) _ h1 in
      let labelled = or_raise-eq-ok (class_of d id).label _ h_label in
      let r = register-Registers d t id mid h_register in
      let keeps = Registers-Keeps d t id mid r in
      let rest = scan-le ts mid t' _ pending' (HasBuiltins-Keeps d t mid keeps builtins) h2 in
      omega (arith, rest, push-le l t mid id pending builtins r labelled)

  -- A round keeps the built-in classes, and what is pending or may be pushed does not grow.
  round-le :
      (id : String) (visited : List String) (t t' : Table String) (pending pending' : List String)
      → HasBuiltins d t
      → round d id visited t pending ≡ ok (t', pending')
      → HasBuiltins d t'
        × (length pending' + unregistered d.classes t' ≤ length pending + unregistered d.classes t)
  unfolding round
  round-le id visited t t' pending pending' builtins h =
      elim (Bool-cases (contains visited id || is_terminal_class (class_of d id))) [
        | inl skip ↦
            let (same, same') =
              ok_pair-injective t t' pending pending' (rw (skip, if◌then◌else◌) at h) in
            (subst (HasBuiltins d) same builtins, rw (sym same, sym same') (omega arith))
        | inr goes ↦
            let scanned = rw (goes, if◌then◌else◌) at h in
            (
              HasBuiltins-Keeps d t t' (scan-Scans d _ t pending t' pending' scanned).keeps
                  builtins,
              scan-le _ t t' pending pending' builtins scanned,
            )
      ]

  round-Ends :
      (id : String) (visited : List String) (t : Table String) (pending : List String)
      → Ends (round d id visited t pending)
  unfolding round
  round-Ends id visited t pending =
      elim (Bool-cases (contains visited id || is_terminal_class (class_of d id))) [
        | inl skip ↦ rw (skip, if◌then◌else◌) (returns _)
        | inr goes ↦ rw (goes, if◌then◌else◌) (scan-Ends d _ t pending)
      ]

  -- The fuel is enough when it covers the pending classes and those that may be pushed.
  close-Ends :
      (fuel : ℕ) (visited : List String) (t : Table String) (pending : List String)
      → HasBuiltins d t
      → length pending + unregistered d.classes t ≤ fuel
      → Ends (close d fuel visited t pending)
  unfolding close
  close-Ends fuel visited t [] builtins enough = returns _
  close-Ends zero visited t (id ∷ pending) builtins enough = absurd (omega (arith, enough))
  close-Ends (suc fuel) visited t (id ∷ pending) builtins enough =
      >>=-Ends (round d id visited t pending) _ (round-Ends id visited t pending) (λ next e.
        let (builtins1, less) = round-le id visited t next.0 pending next.1 builtins e in
        close-Ends fuel (id ∷ visited) next.0 next.1 builtins1 (omega (arith, less, enough)))

  unregistered-le_length :
      (rows : Table StateDecl) (t : Table String) → unregistered rows t ≤ length rows
  unregistered-le_length [] t = omega arith
  unregistered-le_length ((id, c) ∷ rows) t = ground (arith, unregistered-le_length rows t)

length-values : (t : Table String) → length (values t) ≡ length t
unfolding values
length-values [] = refl
length-values ((k, v) ∷ t) = ap suc (length-values t)

length-reverse : (xs : List String) → length (reverse xs) ≡ length xs
length-reverse [] = refl
length-reverse (x ∷ xs) =
    ap length (reverse-cons x xs)
    ∙ (length-append (reverse xs) (x ∷ []) ∙ omega (arith, length-reverse xs))

-- The resolution of any declaration ends: it gives a graph, or raises InvalidWorkflow, AttributeError
-- or KeyError. The fuel of the closure never runs out.
pub resolve_graph-Ends : (d : WorkflowDecl) → Ends (resolve_graph d)
unfolding resolve_graph
resolve_graph-Ends d = >>=-Ends (initial_registry d) _ (initial_registry-Ends d) (λ first h_first.
    >>=-Ends (close d (closure_fuel d first) [] first (reverse (values first))) _
      (close-Ends d _ [] first _ (initial_registry-HasBuiltins d first h_first) (
        omega (
          arith,
          length-values first,
          length-reverse (values first),
          unregistered-le_length d d.classes first,
        )))
      (λ t h_t. >>=-Ends (materialize d t t) _ (materialize-Ends d t t) (λ m h_m.
        >>=-Ends (all_operations d t m.transitions) _ (all_operations-Ends d t m.transitions)
          (λ ops h_ops.
            >>=-Ends (label_of d m.by_label d.initial) _ (label_of-Ends d m.by_label d.initial)
              (λ initial h_initial.
                >>=-Ends (or_raise (lookup initial.0 m.states) _) _
                  (or_raise-Ends (lookup initial.0 m.states) _ tt)
                  (λ cls h_cls.
                    check-Ends (not (is_initial_state cls)) _ (
                      check-Ends (not (is_some (lookup dropped_label m.states))) _
                        (returns _))))))))
