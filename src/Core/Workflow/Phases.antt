-- ===== src/Core/Workflow/Phases.antt =====
-- The order of the phases of a workflow: `Workflow.ordered_phases` of core/workflow.py.
pub mod Walk
use panopticon_next.Base.{
  ℕ, zero, suc, ◌≤◌, ◌<◌, String, ◌≡◌, refl, ap, sym, ◌∙◌, arith, Bool, true, false, not, ◌||◌,
  none, some, Option, List, [], ◌∷◌, ◌++◌, Result, ok, err, ◌>>=◌, >>=-eq-ok, is_some, contains,
  ◌==◌, eq_iff, if◌then◌else◌, length, get_elem?, get_last?, get_last?-append, get_elem?-append,
  All, All-append, Option-cases, Bool-cases, inl, inr, recursion_error,
}
use mathlib.Core.Option.{some-injective}
use mathlib.Core.Path.{subst}
use panopticon_next.Base.Table.{Table, lookup, All-lookup}
use panopticon_next.Base.Visited.{off, off-snoc_lt, off-nil, contains-snoc}
use panopticon_next.Core.Workflow.{
  StateClass, Graph, Workflow, is_terminal_kind, can_transition, is_terminal, operations,
  state_class,
}
use panopticon_next.Core.Workflow.WellFormed.{IsWellFormed, edge-is_state}

module _ (wf : Workflow) where
  open wf use {graph}

  abbrev advance_from : Bool → String → Result (Option String)
  advance_from true label = ok none
  advance_from false label = do ops ← operations wf label; ok (lookup "advance" ops)

  -- The label that the loop goes on with: none at a terminal state, or without an `advance`.
  unfoldable pub next_phase : String → Result (Option String)
  next_phase label = do ended ← is_terminal wf label; advance_from ended label

  abbrev follow :
      (String → Result (List String)) → List String → Option String → Result (List String)
  follow later order none = ok order
  follow later order (some label) = later label

  -- The loop: `order` holds the phases so far.
  unfoldable pub phases : ℕ → List String → String → Result (List String)
  unfolding next_phase
  phases zero order label = if contains order label then ok order else err recursion_error
  phases (suc fuel) order label = if contains order label then ok order else do
    next ← next_phase label
    follow (phases fuel (order ++ label ∷ [])) (order ++ label ∷ []) next

  -- Every round adds another state.
  unfoldable pub ordered_phases : Result (List String)
  unfolding phases
  ordered_phases = phases (length graph.states) [] graph.initial
