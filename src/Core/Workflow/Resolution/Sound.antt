-- ===== src/Core/Workflow/Resolution/Sound.antt =====
-- What `Workflow._graph` guarantees of a declaration that it accepts (core/workflow.py).
use panopticon_next.Base.{
  String, ◌≡◌, refl, ap, sym, ◌∙◌, arith, true, false, not, none, some, Option, or_raise, List, [],
  ◌∷◌, ok, or_raise-eq-ok, >>=-eq-ok, raise_if->>-eq-ok, is_some, contains, All, Option-cases, inl,
  inr,
}
use mathlib.Core.List.{reverse}
use mathlib.Core.Path.{subst}
use panopticon_next.Base.Table.{Table, lookup, values}
use panopticon_next.Core.Models.{dropped_label}
use panopticon_next.Core.Workflow.{StateKind, StateClass, Graph, is_terminal_kind}
use panopticon_next.Core.Workflow.WellFormed.{
  EdgesOk, OperationsOk, edges_of, IsStateOk, IsWellFormed, IsKind, is_initial_kind,
}
use panopticon_next.Core.Workflow.Resolution.{
  WorkflowDecl, class_of, materialize, Materialized, is_initial_state, all_operations,
  resolve_graph, initial_registry, close, closure_fuel, label_of, dropped_class,
}
use panopticon_next.Core.Workflow.Resolution.Edges.{
  IsLabel, IsEdgeOperation, resolve_operations-IsEdgeOperation,
}
use panopticon_next.Core.Workflow.Resolution.Tables.{
  AreBuilt, materialize-AreBuilt, all_operations-lookup,
}
use panopticon_next.Core.Workflow.Resolution.Start.{close-IsRegistry, done_rows}

operations-OperationsOk :
    (g : Graph) (label : String) (dests : List String) (own : Table String)
    → lookup label g.transitions ≡ some dests
    → lookup label g.operations ≡ some own
    → All (IsEdgeOperation dests) own
    → OperationsOk (edges_of g label) (lookup label g.operations)
operations-OperationsOk g label dests own edges_at at all =
    let same : edges_of g label ≡ dests =
      ap (λ (o : Option (List String)). elim o [ none ↦ [] | some ds ↦ ds ]) edges_at in
    subst (OperationsOk (edges_of g label)) (sym at)
      (subst (λ ds. OperationsOk ds (some own)) (sym same) all)

module _ (d : WorkflowDecl) (t : Table String) (m : Materialized) (ops : Table (Table String))
    (initial : String) where
  abbrev built_graph : Graph
  built_graph = record {
    states = m.states;
    transitions = m.transitions;
    operations = ops;
    initial = initial;
  }

  label-is_state :
      (l : String) → AreBuilt d t t m → IsLabel t l → is_some (lookup l m.states) ≡ true
  unfolding IsLabel
  label-is_state l built h = elim (Option-cases (lookup l t)) [
    | inl lacks ↦ absurd (ground arith)
    | inr (id, found) ↦ ap is_some (built.all_labels l id found)
  ]

  labels-are_states :
      (ls : List String)
      → AreBuilt d t t m
      → All (IsLabel t) ls
      → All (λ l. is_some (lookup l m.states) ≡ true) ls
  labels-are_states [] built h = tt
  labels-are_states (l ∷ ls) built h = (label-is_state l built h.0, labels-are_states ls built h.1)

  kind-EdgesOk :
      (kind : StateKind) (dests : List String)
      → (is_terminal_kind kind ≡ true → dests ≡ [])
      → (is_terminal_kind kind ≡ false → contains dests dropped_label ≡ true)
      → All (λ l. is_some (lookup l m.states) ≡ true) dests
      → EdgesOk built_graph kind (some dests)
  kind-EdgesOk StateKind.terminal dests ends drops labels = ends refl
  kind-EdgesOk StateKind.plain dests ends drops labels = (drops refl, labels)
  kind-EdgesOk StateKind.initial dests ends drops labels = (drops refl, labels)

  built-IsStateOk :
      (label : String) (cls : StateClass)
      → AreBuilt d t t m
      → all_operations d t m.transitions ≡ ok ops
      → lookup label m.states ≡ some cls
      → IsStateOk built_graph label cls
  built-IsStateOk label cls built h e =
      let b = built.states label cls e in
      let (own, at, resolved) =
        all_operations-lookup d t t m.transitions ops h label b.id b.dests b.found b.edges_at in
      let same : (class_of d b.id).kind ≡ cls.kind = ap (λ c. c.kind) (sym b.is) in
      let edges =
        kind-EdgesOk _ b.dests b.edges.ends b.edges.drops
          (labels-are_states b.dests built b.edges.labels) in
      record {
        has_turn = ap (λ c. is_some c.turn_on_enter) b.is ∙ b.has_turn;
        edges =
            subst (EdgesOk built_graph cls.kind) (sym b.edges_at)
              (subst (λ k. EdgesOk built_graph k (some b.dests)) same edges);
        operations = operations-OperationsOk built_graph label b.dests own b.edges_at at (
            resolve_operations-IsEdgeOperation d b.dests (class_of d b.id) own b.edges.drops
              resolved);
      }

initial-IsKind :
    (o : Option StateClass) (cls : StateClass)
    → o ≡ some cls
    → is_initial_state cls ≡ true
    → IsKind is_initial_kind o
initial-IsKind none cls e h = cc
initial-IsKind (some c) cls e h = at_kind c.kind (ground arith)
  where
    at_kind :
        (k : StateKind)
        → elim k [ StateKind.initial ↦ true | _ ↦ false ] ≡ true
        → is_initial_kind k ≡ true
    at_kind StateKind.initial h = refl
    at_kind StateKind.plain h = cc
    at_kind StateKind.terminal h = cc

-- A workflow that resolves has a well-formed graph: every state says who takes the turn, a terminal
-- state has no edges, any other state has an edge to DROPPED and its edges lead to states, every
-- operation leads along an edge and `drop` to DROPPED, the initial state is an initial one and DROPPED
-- is a terminal state.
pub resolve_graph-IsWellFormed :
    (d : WorkflowDecl) (g : Graph) → resolve_graph d ≡ ok g → IsWellFormed g
unfolding resolve_graph
resolve_graph-IsWellFormed d g h =
    let (first, h_first, h1) = >>=-eq-ok (initial_registry d) _ h in
    let (t, h_close, h2) =
      >>=-eq-ok (close d (closure_fuel d first) [] first (reverse (values first))) _ h1 in
    let (m, h_m, h3) = >>=-eq-ok (materialize d t t) _ h2 in
    let (ops, h_ops, h4) = >>=-eq-ok (all_operations d t m.transitions) _ h3 in
    let (initial, h_initial, h5) = >>=-eq-ok (label_of d m.by_label d.initial) _ h4 in
    let (cls, h_cls, h6) = >>=-eq-ok (or_raise (lookup initial.0 m.states) _) _ h5 in
    let (starts, h7) = raise_if->>-eq-ok (not (is_initial_state cls)) _ _ h6 in
    let (has_dropped, h8) =
      raise_if->>-eq-ok (not (is_some (lookup dropped_label m.states))) _ _ h7 in
    let r = close-IsRegistry d first t h_first h_close in
    let built = materialize-AreBuilt d t t m (done_rows d t r) h_m in
    let same : built_graph d t m ops initial.0 ≡ g = ground arith in
    subst IsWellFormed same (record {
      states_ok = λ label c e. built-IsStateOk d t m ops initial.0 label c built h_ops e;
      initial_ok =
          initial-IsKind (lookup initial.0 m.states) cls
            (or_raise-eq-ok (lookup initial.0 m.states) _ h_cls) (ground arith);
      dropped_ok = rw (built.all_labels dropped_label dropped_class r.dropped) refl;
    })
