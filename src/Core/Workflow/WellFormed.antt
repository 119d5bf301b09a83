-- ===== src/Core/Workflow/WellFormed.antt =====
-- What the validation pass `Workflow._graph` establishes of a graph, and what follows for the
-- queries.
use panopticon_next.Base.{
  String, ◌≡◌, refl, ap, Bool, true, false, Option, none, some, List, [], ◌∷◌, arith, ok, All,
  contains, is_some, Option-cases, inl, inr, ◌==◌, eq_iff, Bool-cases,
}
use panopticon_next.Base.Table.{Table, lookup, All-lookup}
use mathlib.Core.Path.{subst}
use panopticon_next.Core.Models.{Actor, dropped_label}
use panopticon_next.Core.Workflow.{
  StateKind, StateClass, Graph, Workflow, is_terminal_kind, can_transition, is_terminal,
  turn_on_enter,
}

-- A terminal state has no edges; any other has an edge to DROPPED, and its edges lead to states.
abbrev pub EdgesOk : Graph → StateKind → Option (List String) → Type 0
EdgesOk g kind none = ⊥
EdgesOk g StateKind.terminal (some dests) = dests ≡ []
EdgesOk g kind (some dests) =
    (contains dests dropped_label ≡ true) × All (λ d. is_some (lookup d g.states) ≡ true) dests

-- Every operation leads along an edge, and `drop` leads to DROPPED.
abbrev pub OperationsOk : List String → Option (Table String) → Type 0
OperationsOk dests none = ⊥
OperationsOk dests (some ops) =
    All (λ op. (contains dests op.1 ≡ true) × (op.0 ≡ "drop" → op.1 ≡ dropped_label)) ops

abbrev pub edges_of : Graph → String → List String
edges_of g label = elim (lookup label g.transitions) [ none ↦ [] | some dests ↦ dests ]

pub record IsStateOk (g : Graph) (label : String) (cls : StateClass) : Type 0 where
  pub has_turn : is_some cls.turn_on_enter ≡ true
  pub edges : EdgesOk g cls.kind (lookup label g.transitions)
  pub operations : OperationsOk (edges_of g label) (lookup label g.operations)

abbrev pub IsKind : (StateKind → Bool) → Option StateClass → Type 0
IsKind test none = ⊥
IsKind test (some cls) = test cls.kind ≡ true

abbrev pub is_initial_kind : StateKind → Bool
is_initial_kind StateKind.initial = true
is_initial_kind _ = false

pub record IsWellFormed (g : Graph) : Type 0 where
  pub states_ok :
      (label : String) (cls : StateClass) → lookup label g.states ≡ some cls → IsStateOk g label cls
  pub initial_ok : IsKind is_initial_kind (lookup g.initial g.states)
  pub dropped_ok : IsKind is_terminal_kind (lookup dropped_label g.states)

-- It is enough that every row is well formed.
pub rows-IsStateOk :
    (g : Graph)
    → All (λ row. IsStateOk g row.0 row.1) g.states
    → (label : String) (cls : StateClass) → lookup label g.states ≡ some cls
    → IsStateOk g label cls
rows-IsStateOk g rows label cls e =
    let (j, same, h) = All-lookup (λ row. IsStateOk g row.0 row.1) g.states label rows e in
    subst (λ k. IsStateOk g k cls) same h

All-contains :
    (P : String → Type 0) (xs : List String) (x : String) → All P xs → contains xs x ≡ true → P x
All-contains P [] x h c = cc
All-contains P (y ∷ ys) x h c = elim (Bool-cases (y == x)) [
  | inl same ↦ subst P ((eq_iff y x).0 same) h.0
  | inr other ↦ All-contains P ys x h.1 (rw other at c)
]

edge_target :
    (g : Graph) (kind : StateKind) (dests : List String) (d : String)
    → EdgesOk g kind (some dests)
    → contains dests d ≡ true
    → is_some (lookup d g.states) ≡ true
edge_target g StateKind.terminal dests d h c =
    let e : contains dests d ≡ contains [] d = ap (λ ds. contains ds d) h in cc
edge_target g StateKind.plain dests d h c = All-contains _ dests d h.1 c
edge_target g StateKind.initial dests d h c = All-contains _ dests d h.1 c

edge_to_dropped :
    (g : Graph) (kind : StateKind) (dests : List String)
    → EdgesOk g kind (some dests)
    → is_terminal_kind kind ≡ false
    → contains dests dropped_label ≡ true
edge_to_dropped g StateKind.terminal dests h k = cc
edge_to_dropped g StateKind.plain dests h k = h.0
edge_to_dropped g StateKind.initial dests h k = h.0

some_of_is_some {ℓ} : {A : Type ℓ} (o : Option A) → is_some o ≡ true → (a : A) × (o ≡ some a)
some_of_is_some none h = cc
some_of_is_some (some a) h = (a, refl)

module _ (wf : Workflow) (ok_graph : IsWellFormed wf.graph) where
  state_ok :
      (label : String) {cls : StateClass}
      → lookup label wf.graph.states ≡ some cls
      → IsStateOk wf.graph label cls
  state_ok label {cls} e = ok_graph.states_ok label cls e

  pub turn_on_enter_total :
      (label : String) {cls : StateClass}
      → lookup label wf.graph.states ≡ some cls
      → (a : Actor) × (turn_on_enter wf label ≡ ok a)
  unfolding turn_on_enter
  turn_on_enter_total label {cls} e = elim (Option-cases cls.turn_on_enter) [
    | inl lacks ↦ let h = (state_ok label e).has_turn in cc
    | inr (a, has) ↦ (a, rw e (rw has))
  ]

  -- What an edge leads to is a state.
  pub edge-is_state :
      (source dest : String)
      → can_transition wf source dest ≡ ok true
      → (cls : StateClass) × (lookup dest wf.graph.states ≡ some cls)
  unfolding can_transition
  edge-is_state source dest h = elim (Option-cases (lookup source wf.graph.states)) [
    | inl e ↦ absurd (ground arith)
    | inr (cls, e) ↦ elim (Option-cases (lookup source wf.graph.transitions)) [
      | inl f ↦ absurd (ground arith)
      | inr (dests, f) ↦ some_of_is_some (lookup dest wf.graph.states) (
          edge_target wf.graph cls.kind dests dest (rw f at (state_ok source e).edges)
            (ground arith))
    ]
  ]

  -- A state that is not terminal has an edge to DROPPED.
  pub drop_is_edge :
      (label : String)
      → is_terminal wf label ≡ ok false
      → can_transition wf label dropped_label ≡ ok true
  unfolding can_transition is_terminal
  drop_is_edge label h = elim (Option-cases (lookup label wf.graph.states)) [
    | inl e ↦ absurd (ground arith)
    | inr (cls, e) ↦ elim (Option-cases (lookup label wf.graph.transitions)) [
      | inl f ↦ absurd (rw f at (state_ok label e).edges)
      | inr (dests, f) ↦
          let c : contains dests dropped_label ≡ true =
            edge_to_dropped wf.graph cls.kind dests (rw f at (state_ok label e).edges)
              (ground arith) in
          ground arith
    ]
  ]
