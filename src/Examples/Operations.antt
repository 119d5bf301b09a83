-- ===== src/Examples/Operations.antt =====
-- Tests of the service's operations on the sample service.
use panopticon_next.Core.Models.{dropped_label}
use panopticon_next.Base.{
  Error, inl, inr, Bool, String, ◌≡◌, ◌⊎◌, refl, none, some, List, [], ◌∷◌, Result, ok, err,
  already_claimed, arith, eq_iff, eq_option,
}
use panopticon_next.Base.Table.{lookup, assign, values, put}
use panopticon_next.Core.Models.{SessionInputStatus, Task}
use panopticon_next.Core.Models.Promises.{outstanding_responsibilities}
use panopticon_next.Core.Workflow.{
  Workflow, resolve_operation, is_terminal, can_transition, turn_on_enter, responsibilities,
}
use panopticon_next.Core.Workflow.Lifecycle.{apply_transition}
use panopticon_next.Core.Workflow.Moves.{IsAllowed}
use panopticon_next.Core.Store.{validate_task_consistency, validate_history_append_only}
use panopticon_next.Taskservice.Rows.Tasks.{save_task, list_tasks_summary}
use panopticon_next.Taskservice.State.{Service}
use panopticon_next.Taskservice.Dependencies.{
  dependency_cycle, found, clear, stored_graph, validate_dependencies, dependencies_of,
  dependencies_blocking, visit, search_all,
}
use panopticon_next.Taskservice.Dependencies.Search.{
  Settled, settled, IsCycle, dependency_cycle_decides,
}
use panopticon_next.Taskservice.Dependencies.Acyclic.{validate_dependencies-keeps_Settled}
use panopticon_next.Taskservice.Create.{default_pair, choose_launch}
use panopticon_next.Taskservice.Create.Launch.{choose_launch_pairs}
use panopticon_next.Taskservice.Workflows.{task_is_terminal}
use panopticon_next.Taskservice.Liveness.{clear_lifecycle}
use panopticon_next.Taskservice.Claims.{claim}
use panopticon_next.Taskservice.Claims.Ownership.{IsClaimable, claim_exclusive, claim_sound}
use panopticon_next.Taskservice.Transitions.{apply_operation, request_transition, transition_within}
use panopticon_next.Taskservice.Transitions.Guarantees.{
  apply_operation-IsAllowed, request_transition-IsAllowed, request_transition_refused,
}
use panopticon_next.Taskservice.Sessions.{create_session_input, settle_session_input}
use panopticon_next.Taskservice.Sessions.Waiting.{AtMostOneWaits, waiting}
use panopticon_next.Taskservice.Sessions.Pending.{session_inputs-AtMostOneWaits}
use panopticon_next.Examples.Data.{spike, app, ready, working, rows, service}

choose_launch_pairs_example :
    ((choose_launch spike app (some "pi") none).model ≡ none)
    ⊎ (choose_launch spike app (some "pi") none ≡ default_pair spike app)
choose_launch_pairs_example = choose_launch_pairs spike app (some "pi") none

abbrev task_of : Result Task → Task
task_of (ok t) = t
task_of (err e) = ready

abbrev claimed : Result Task × Service
claimed = claim "t1" "host-b" service

claim_returns : claim "t1" "host-b" service ≡ (ok (task_of claimed.0), claimed.1)
unfolding claim lookup task_is_terminal is_terminal dependencies_blocking clear_lifecycle save_task
    validate_task_consistency validate_history_append_only eq_option
claim_returns = refl

claim_exclusive_example :
    claim (task_of claimed.0).id "host-a" claimed.1 ≡ (err already_claimed, claimed.1)
claim_exclusive_example =
    claim_exclusive service claimed.1 "t1" "host-b" "host-a" (task_of claimed.0) claim_returns
      (λ e. ground (arith, eq_iff "host-b" "host-a"))

claim_sound_example :
    (t : Task) × (lookup "t1" service.db.tasks ≡ some t)
    × IsClaimable service "host-b" t
    × (task_of claimed.0 ≡ record t { claimed_by = some "host-b" })
claim_sound_example = claim_sound service claimed.1 "t1" "host-b" (task_of claimed.0) claim_returns

abbrev advanced : Result Task × Service
advanced = apply_operation "t1" "advance" none service

advance_returns :
    apply_operation "t1" "advance" none service ≡ (ok (task_of advanced.0), advanced.1)
unfolding apply_operation lookup resolve_operation apply_transition is_terminal can_transition
    outstanding_responsibilities responsibilities turn_on_enter save_task validate_task_consistency
    validate_history_append_only eq_option
advance_returns = refl

apply_operation-IsAllowed_example :
    (t : Task) × (wf : Workflow) × (to_state : String) × (lookup "t1" service.db.tasks ≡ some t)
    × (lookup t.workflow service.workflows ≡ some wf)
    × (resolve_operation wf t.state "advance" ≡ ok to_state)
    × IsAllowed wf t to_state
apply_operation-IsAllowed_example =
    apply_operation-IsAllowed service advanced.1 "t1" "advance" none (task_of advanced.0)
      advance_returns

abbrev dropped : Result Task × Service
dropped = request_transition "t1" "DROPPED" none none service

drop_returns :
    request_transition "t1" "DROPPED" none none service ≡ (ok (task_of dropped.0), dropped.1)
unfolding request_transition lookup transition_within apply_transition is_terminal can_transition
    responsibilities turn_on_enter save_task validate_task_consistency validate_history_append_only
    eq_option list_tasks_summary values put task_is_terminal
drop_returns = refl

request_transition-IsAllowed_example :
    (t : Task) × (wf : Workflow) × (lookup "t1" service.db.tasks ≡ some t)
    × (lookup t.workflow service.workflows ≡ some wf)
    × IsAllowed wf t "DROPPED"
request_transition-IsAllowed_example =
    request_transition-IsAllowed service dropped.1 "t1" "DROPPED" none none (task_of dropped.0)
      drop_returns

promise_is_pending : ¬ IsAllowed spike working "COMPLETE"
unfolding outstanding_responsibilities
promise_is_pending allowed = elim allowed.settled [
  | inl same ↦ ground (arith, eq_iff "COMPLETE" dropped_label)
  | inr settled_all ↦ absurd cc
]

t2_loaded : lookup "t2" service.db.tasks ≡ some working
unfolding lookup
t2_loaded = refl

spike_loaded : lookup working.workflow service.workflows ≡ some spike
unfolding lookup
spike_loaded = refl

request_transition_refused_example :
    (e : Error) × (request_transition "t2" "COMPLETE" none none service
      ≡ (err e, record service { ticks = 1 }))
request_transition_refused_example =
    request_transition_refused service "t2" "COMPLETE" none none working spike t2_loaded
      spike_loaded promise_is_pending

rows_AtMostOneWaits : AtMostOneWaits rows
unfolding AtMostOneWaits waiting
rows_AtMostOneWaits task_id = ground arith

session_inputs-AtMostOneWaits_example :
    ((task_id text : String) (submit : Bool) (key : String)
      → AtMostOneWaits (create_session_input task_id text submit key service).1.db)
    × ((task_id delivery_id runner_id : String) (status : SessionInputStatus)
        → AtMostOneWaits (settle_session_input task_id delivery_id runner_id status service).1.db)
session_inputs-AtMostOneWaits_example = session_inputs-AtMostOneWaits service rows_AtMostOneWaits

dependency_cycle_decides_example :
    ((c : List String) × (dependency_cycle (("a", "b" ∷ []) ∷ ("b", "a" ∷ []) ∷ []) "a" ≡ found c)
      × IsCycle (("a", "b" ∷ []) ∷ ("b", "a" ∷ []) ∷ []) c)
    ⊎ ((v : List String) × (dependency_cycle (("a", "b" ∷ []) ∷ ("b", "a" ∷ []) ∷ []) "a" ≡ clear v)
        × Settled (("a", "b" ∷ []) ∷ ("b", "a" ∷ []) ∷ []) "a")
dependency_cycle_decides_example =
    dependency_cycle_decides (("a", "b" ∷ []) ∷ ("b", "a" ∷ []) ∷ []) "a"

no_edges : (x : String) → dependencies_of (stored_graph (values rows.tasks)) x ≡ []
unfolding dependencies_of stored_graph lookup values
no_edges x = ground arith

rows_Settled : (x : String) → Settled (stored_graph (values rows.tasks)) x
rows_Settled x = settled x (λ d edge. absurd (ground (arith, no_edges x)))

depends_valid : validate_dependencies "t1" ("t2" ∷ []) rows ≡ ok tt
unfolding validate_dependencies lookup dependency_cycle visit assign stored_graph values search_all
    dependencies_of
depends_valid = refl

validate_dependencies-keeps_Settled_example :
    Settled (assign "t1" ("t2" ∷ []) (stored_graph (values rows.tasks))) "t1"
validate_dependencies-keeps_Settled_example =
    validate_dependencies-keeps_Settled "t1" ("t2" ∷ []) rows rows_Settled depends_valid "t1"
