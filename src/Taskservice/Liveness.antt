-- ===== src/Taskservice/Liveness.antt =====
-- Liveness (service.py): container registrations, the reported lifecycle phases, the connected
-- runners, and the status composed from them. None of it is persisted.
use panopticon_next.Base.{
  String, Bool, true, false, not, ◌||◌, Option, none, some, List, ok, ◌==◌, is_some, any, select,
  eq_option, is_blank, not_ready,
}
use panopticon_next.Base.Exec.{pure, raise_if, modify, ◌>>=◌, ◌>>◌}
use panopticon_next.Base.Table.{lookup, assign, remove, values}
use panopticon_next.Core.Models.{Task, LifecyclePhase, ContainerStatus, is_failed}
use panopticon_next.Core.Models.Containers.{compose_container_status}
use panopticon_next.Taskservice.Rows.Repos.{set_task_launch_pause}
use panopticon_next.Taskservice.State.{
  Registration, ContainerLifecycle, RunnerRegistration, Service, Method, now, mint, commit,
  get_task, notify_change,
}
use panopticon_next.Taskservice.Workflows.{task_is_terminal}

unfoldable pub register : String → String → Option String → Method Registration
register task_id container_id runner_id = do
  t ← get_task task_id
  id ← mint
  at ← now
  let reg : Registration = record {
    id = id;
    task_id = task_id;
    container_id = container_id;
    runner_id = runner_id;
    registered_at = at;
  }
  modify (λ s. record s { registrations = assign id reg s.registrations })
  notify_change
  pure reg

unfoldable pub deregister : String → Method (Unit {0})
deregister registration_id s = elim (lookup registration_id s.registrations) [
  | none ↦ (ok tt, s)
  | some reg ↦ notify_change (record s { registrations = remove registration_id s.registrations })
]

-- `registrations(task_id)`.
unfoldable pub registrations_of : Service → String → List Registration
registrations_of s task_id = select (λ r. r.task_id == task_id) (values s.registrations)

abbrev pub is_registered : Service → String → Bool
is_registered s task_id = any (λ r. r.task_id == task_id) (values s.registrations)

-- `_record_lifecycle`.
unfoldable pub record_lifecycle :
    String → String → LifecyclePhase → Option String → Method ContainerLifecycle
record_lifecycle task_id runner_id phase detail = do
  at ← now
  let lifecycle : ContainerLifecycle = record {
    task_id = task_id;
    runner_id = runner_id;
    phase = phase;
    detail = detail;
    at = at;
  }
  modify (λ s. record s { lifecycles = assign task_id lifecycle s.lifecycles })
  notify_change
  pure lifecycle

unfoldable pub report_launcher_failure : String → String → String → Method ContainerLifecycle
unfolding record_lifecycle
report_launcher_failure task_id runner_id detail = do
  t ← get_task task_id
  λ s.
      raise_if
        (is_blank runner_id
          || not (eq_option t.claimed_by (some runner_id))
          || task_is_terminal s.workflows t)
        not_ready s
  record_lifecycle task_id runner_id LifecyclePhase.failed (some detail)

-- `report_lifecycle`; the flag is `pause_launch`.
unfoldable pub report_lifecycle :
    String → String → LifecyclePhase → Option String → Bool → Method ContainerLifecycle
unfolding record_lifecycle
report_lifecycle task_id runner_id phase detail false = do
  t ← get_task task_id
  record_lifecycle task_id runner_id phase detail
report_lifecycle task_id runner_id phase detail true = do
  t ← get_task task_id
  raise_if (not (is_failed (some phase)) || not (eq_option t.claimed_by (some runner_id))) not_ready
  commit (set_task_launch_pause task_id true detail false)
  record_lifecycle task_id runner_id phase detail

-- Wakes the feed only if a phase was there.
unfoldable pub clear_lifecycle : String → Method (Unit {0})
clear_lifecycle task_id s = elim (lookup task_id s.lifecycles) [
  | none ↦ (ok tt, s)
  | some lifecycle ↦ notify_change (record s { lifecycles = remove task_id s.lifecycles })
]

unfoldable pub register_runner : String → Option String → Option String → Method RunnerRegistration
register_runner runner_id host instance_id = do
  id ← mint
  at ← now
  let reg : RunnerRegistration = record {
    id = id;
    runner_id = runner_id;
    registered_at = at;
    host = host;
    instance_id = instance_id;
  }
  modify (λ s. record s { runner_registrations = assign id reg s.runner_registrations })
  notify_change
  pure reg

unfoldable pub deregister_runner : String → Method (Unit {0})
deregister_runner registration_id s = elim (lookup registration_id s.runner_registrations) [
  | none ↦ (ok tt, s)
  | some reg ↦
      notify_change
        (record s { runner_registrations = remove registration_id s.runner_registrations })
]

-- `runner_id in live_runners()`.
unfoldable pub runner_is_live : Service → String → Bool
runner_is_live s runner_id = any (λ r. r.runner_id == runner_id) (values s.runner_registrations)

abbrev pub owner_is_live : Service → Option String → Bool
owner_is_live s none = false
owner_is_live s (some runner_id) = runner_is_live s runner_id

abbrev pub phase_of : Option ContainerLifecycle → Option LifecyclePhase
phase_of none = none
phase_of (some lifecycle) = some lifecycle.phase

-- `container_status`, with the caller's dependency flag.
unfoldable pub container_status : Service → Task → Bool → ContainerStatus
container_status s t dependencies_blocking = compose_container_status (record {
  terminal = task_is_terminal s.workflows t;
  dependencies_blocking = dependencies_blocking;
  launch_paused = t.launch_paused;
  claimed = is_some t.claimed_by;
  registered = is_registered s t.id;
  runner_live = owner_is_live s t.claimed_by;
  phase = phase_of (lookup t.id s.lifecycles);
})
