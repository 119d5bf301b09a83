-- ===== src/Examples/Moves.antt =====
-- Tests of the state machine on the sample workflow.
use panopticon_next.Base.{All, ◌≡◌, refl, inl, inr, none, some, [], ◌∷◌, ◌++◌, ok, false}
use panopticon_next.Base.Table.{lookup}
use panopticon_next.Core.Models.{Actor, WakeStatus, Task, dropped_label}
use panopticon_next.Core.Models.Promises.{outstanding_responsibilities}
use panopticon_next.Core.Workflow.{
  is_terminal, can_transition, transitions, turn_on_enter, responsibilities, state_class,
}
use panopticon_next.Core.Workflow.Lifecycle.{apply_transition, force_transition, enter, gate}
use panopticon_next.Core.Workflow.WellFormed.{IsStateOk, rows-IsStateOk, IsWellFormed}
use panopticon_next.Core.Workflow.Moves.{
  IsAllowed, IsMoved, apply_transition_sound, apply_transition_total, force_transition_total,
  drop_total, moves-validate,
}
use panopticon_next.Core.Store.{validate_task_consistency, validate_history_append_only}
use panopticon_next.Examples.Data.{spike, spike_graph, ready, working}

-- The sample task after its advance.
abbrev completed : Task
completed = record ready {
  state = "COMPLETE";
  turn = Actor.user;
  history =
      ready.history
      ++ record {
        at = "10:00";
        from_state = some "BUILDING";
        to_state = "COMPLETE";
        trigger = some "advance";
        note = none;
        responsibilities = [];
        wake_status = WakeStatus.skipped;
      }
        ∷ [];
}

spike_advances :
    apply_transition spike ready "COMPLETE" "10:00" (some "advance") none ≡ ok completed
unfolding apply_transition gate enter outstanding_responsibilities is_terminal can_transition
    transitions turn_on_enter responsibilities state_class lookup
spike_advances = refl

apply_transition_sound_example :
    IsAllowed spike ready "COMPLETE" × IsMoved spike ready "COMPLETE" completed
apply_transition_sound_example =
    apply_transition_sound spike ready "COMPLETE" "10:00" (some "advance") none spike_advances

spike_rows : All (λ row. IsStateOk spike_graph row.0 row.1) spike_graph.states
unfolding lookup
spike_rows = (
  record {
    has_turn = refl;
    edges = (refl, (refl, (refl, tt)));
    operations = ((refl, λ e. absurd (cc)), ((refl, λ e. refl), tt));
  },
  (
    record { has_turn = refl; edges = refl; operations = tt },
    (record { has_turn = refl; edges = refl; operations = tt }, tt),
  ),
)

spike_IsWellFormed : IsWellFormed spike_graph
unfolding lookup
spike_IsWellFormed = record {
  states_ok = rows-IsStateOk spike_graph spike_rows;
  initial_ok = refl;
  dropped_ok = refl;
}

spike_is_live : is_terminal spike working.state ≡ ok false
unfolding is_terminal state_class lookup
spike_is_live = refl

drop_total_example :
    (t' : Task) × (apply_transition spike working dropped_label "10:00" (some "drop") none ≡ ok t')
    × (t'.state ≡ dropped_label)
drop_total_example =
    drop_total spike working "10:00" (some "drop") none spike_IsWellFormed spike_is_live

ready-IsAllowed : IsAllowed spike ready "COMPLETE"
unfolding outstanding_responsibilities is_terminal can_transition transitions state_class lookup
ready-IsAllowed = record { live = refl; edge = refl; settled = inr refl }

apply_transition_total_example :
    (t' : Task) × (apply_transition spike ready "COMPLETE" "10:00" none none ≡ ok t')
apply_transition_total_example =
    apply_transition_total spike ready "COMPLETE" "10:00" none none spike_IsWellFormed
      ready-IsAllowed

force_transition_total_example :
    (t' : Task) × (force_transition spike working "COMPLETE" "10:00" none none ≡ ok t')
    × IsMoved spike working "COMPLETE" t'
unfolding lookup
force_transition_total_example =
    force_transition_total spike working "COMPLETE" "10:00" none none spike_IsWellFormed refl

moves-validate_example :
    (validate_task_consistency completed ≡ ok tt)
    × (validate_history_append_only ready.history completed.history ≡ ok tt)
moves-validate_example =
    moves-validate spike ready completed "COMPLETE" "10:00" (some "advance") none
      (inl spike_advances)
