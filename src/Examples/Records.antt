-- ===== src/Examples/Records.antt =====
-- Tests of the recorded history, the promises, the container status and the saved rows.
use panopticon_next.Base.{
  String, ◌≡◌, ◌≢◌, ◌↔◌, refl, true, false, ◌&&◌, if◌then◌else◌, none, some, List, [], ◌∷◌, Result,
  ok, err, contains, eq_option,
}
use panopticon_next.Base.Table.{lookup}
use panopticon_next.Core.Models.{
  Status, Responsibility, Task, LifecyclePhase, ContainerStatus, is_failed,
}
use panopticon_next.Core.Models.Containers.{
  Signals, compose_container_status, compose_container_status_lem,
}
use panopticon_next.Core.Models.Promises.{
  resolve_in, resolve_responsibility, keys, resolve_in-eq_none_iff,
}
use panopticon_next.Core.Models.Promises.Resolved.{IsResolved, resolve_responsibility_sound}
use panopticon_next.Core.Store.{validate_task_consistency, validate_history_append_only}
use panopticon_next.Core.Store.History.{Extends, validate_history_append_only_iff}
use panopticon_next.Taskservice.Rows.{Store}
use panopticon_next.Taskservice.Rows.Tasks.{save_task}
use panopticon_next.Taskservice.Rows.Integrity.{save_task-keeps_history}
use panopticon_next.Examples.Data.{tests_promise, ready, working, rows}

abbrev signals : Signals
signals = record {
  terminal = false;
  dependencies_blocking = false;
  launch_paused = false;
  claimed = true;
  registered = true;
  runner_live = false;
  phase = some LifecyclePhase.failed;
}

compose_container_status_lem_example :
    ((compose_container_status signals ≡ ContainerStatus.live) ↔ (
      (signals.terminal ≡ false)
      × (signals.claimed ≡ true)
      × (signals.registered ≡ true)
      × (is_failed signals.phase ≡ false)))
    × ((compose_container_status signals ≡ ContainerStatus.disconnected) ↔ (
        (signals.terminal ≡ false)
        × (signals.launch_paused ≡ false)
        × (signals.claimed ≡ true)
        × (signals.registered ≡ false)
        × (signals.runner_live ≡ false)))
    × ((compose_container_status signals ≡ ContainerStatus.failed) ↔ (
        (signals.terminal ≡ false)
        × (is_failed signals.phase ≡ true)
        × ((if signals.registered
              then signals.claimed
              else if signals.launch_paused
              then true
              else signals.claimed && signals.runner_live)
            ≡ true)))
compose_container_status_lem_example = compose_container_status_lem signals

abbrev promises : List Responsibility
promises =
    tests_promise Status.pending ∷ record (tests_promise Status.pending) { key = "docs" } ∷ []

-- The second sample task with its promise met.
abbrev tested : Task
tested = record working { history = ready.history }

tests_resolved : resolve_responsibility working "tests" Status.met none ≡ ok tested
unfolding resolve_responsibility resolve_in
tests_resolved = refl

resolve_responsibility_sound_example : IsResolved working "tests" Status.met none tested
resolve_responsibility_sound_example =
    resolve_responsibility_sound working tested "tests" Status.met none tests_resolved

resolve_in-eq_none_iff_example :
    (resolve_in "lint" Status.met none promises ≡ none) ↔ (contains (keys promises) "lint" ≡ false)
resolve_in-eq_none_iff_example = resolve_in-eq_none_iff "lint" Status.met none promises

validate_history_append_only_iff_example :
    (validate_history_append_only working.history ready.history ≡ ok tt)
    ↔ Extends working.history ready.history
validate_history_append_only_iff_example =
    validate_history_append_only_iff working.history ready.history

-- That task with a slug.
abbrev met : Task
met = record tested { slug = some "fix" }

abbrev saved : Result Store
saved = save_task met rows

abbrev store_of : Result Store → Store
store_of (ok db) = db
store_of (err e) = rows

met-saved : save_task met rows ≡ ok (store_of saved)
unfolding save_task validate_task_consistency validate_history_append_only lookup eq_option
met-saved = refl

save_task-keeps_history_example :
    (before after : Task) × (lookup met.id rows.tasks ≡ some before)
    × (lookup met.id (store_of saved).tasks ≡ some after)
    × Extends before.history after.history
    × (validate_task_consistency after ≡ ok tt)
    × ((other : String)
        → met.id ≢ other
        → lookup other (store_of saved).tasks ≡ lookup other rows.tasks)
save_task-keeps_history_example = save_task-keeps_history met rows met-saved
