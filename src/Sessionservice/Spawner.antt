-- ===== src/Sessionservice/Spawner.antt =====
-- src/panopticon/sessionservice/spawner.py: the `Spawner` of a runner host. It claims tasks, launches
-- them, and respawns a task whose session is gone under a crash-loop guard. What the service, Docker
-- and tmux answer during a pass is a `Host`; what the spawner asks of them is logged as `calls`.
pub mod Passes
pub mod Budget
pub mod Bursts
use panopticon_next.Base.{
  ℕ, ◌+◌, ◌-◌, String, Bool, true, false, not, ◌&&◌, ◌||◌, Option, none, some, List, [], ◌∷◌, ◌++◌,
  ok, is_some, is_given, or_else, contains, select, concat, eq_option, eq_nat, leb, ◌==◌,
  if◌then◌else◌, runtime_error,
}
use panopticon_next.Base.Exec.{Exec, raise, raise_if, when, modify, gets, pure, ◌>>=◌, ◌>>◌}
use panopticon_next.Base.Table.{Table, lookup, put, remove}
use panopticon_next.Core.Models.{LifecyclePhase, ContainerStatus, complete_label, dropped_label}

-- The fields of a task's JSON that the spawner reads.
pub record TaskView : Type 0 where
  pub id : String
  pub state : String
  pub workflow : String
  pub claimed_by : Option String
  pub launch_paused : Bool
  pub container_status : ContainerStatus
  -- the fact that the service projects, which an older service does not send
  pub terminal : Option Bool
  pub depends_on_task_ids : List String

-- What a request to the service, to Docker or to tmux is.
pub data Call : Type 0 where
  claim clear_lifecycle release stop_backend clean_credentials clean_workspace : String → Call
  -- a reported phase with its detail, and whether the launch is to be held
  report : String → LifecyclePhase → Option String → Bool → Call

-- How a step of a spawn fails: `_SpawnInfrastructureFailure`, `_MissingTaskAuth`,
-- `GitCredentialError` or any other exception, with its text.
pub data Failure : Type 0 where
  infrastructure missing_auth git_credentials other_failure : String → Failure

-- The service's answer to a claim: granted, a 409, or another error.
pub data ClaimAnswer : Type 0 where
  granted conflict broken : ClaimAnswer

-- The answers of one pass: the clock when the pass reads it and when a spawn failed, the probes
-- (none when a probe raises), and for each step of a spawn the failure that it raises. The session is
-- probed before a respawn and once more after a failed spawn.
pub record Host : Type 0 where
  pub now : ℕ
  pub failed_at : ℕ
  pub reachable : Bool
  pub is_shell : Bool
  pub has_session : Option Bool
  pub session_after : Option Bool
  pub is_running : Option Bool
  pub retains_completed : Bool
  pub claim_answer : ClaimAnswer
  pub configuration : Option Failure
  pub get_repo : Option Failure
  pub credential_check : Option String
  pub execution : Option Failure
  pub prepare : Option Failure
  pub hook : Option Failure
  pub base_image : Option Failure
  pub image : Option Failure
  pub start : Option Failure
  pub attach : Option Failure
  pub container : String

pub record Config : Type 0 where
  pub runner_id : String
  pub max_respawns : ℕ
  pub respawn_reset : ℕ
  pub has_shell_runner : Bool
  -- the text that says that the budget is exhausted, and the one that asks for foreground setup
  pub exhausted_note : String
  pub setup_note : String

-- `_respawns`: the respawns of the current burst and the time of the last one.
pub record Spawner : Type 0 where
  pub respawns : Table (ℕ × ℕ)
  pub pre_session_failures : List String
  pub calls : List Call

abbrev pub is_terminal_label : String → Bool
is_terminal_label = contains (complete_label ∷ dropped_label ∷ [])

abbrev pub is_failed_status : ContainerStatus → Bool
is_failed_status ContainerStatus.failed = true
is_failed_status _ = false

abbrev is_healing_status : ContainerStatus → Bool
is_healing_status ContainerStatus.healing = true
is_healing_status _ = false

-- `_IN_PROGRESS`.
abbrev is_in_progress : ContainerStatus → Bool
is_in_progress ContainerStatus.claiming = true
is_in_progress ContainerStatus.preparing = true
is_in_progress ContainerStatus.building = true
is_in_progress ContainerStatus.starting = true
is_in_progress ContainerStatus.awaiting = true
is_in_progress _ = false

abbrev pub add : String → List String → List String
add x xs = if contains xs x then xs else x ∷ xs

abbrev pub discard : String → List String → List String
discard x = select (λ y. not (y == x))

abbrev pub call : Call → Spawner → Spawner
call c s = record s { calls = s.calls ++ c ∷ [] }

abbrev pub report_phase : String → LifecyclePhase → Spawner → Spawner
report_phase id phase = call (Call.report id phase none false)

-- The steps of a spawn: the phase that is reported first, and how the step fails.
abbrev pub Steps : Type 0
Steps = List (Option LifecyclePhase × Option Failure)

abbrev report_first : String → Option LifecyclePhase → Spawner → Spawner
report_first id none s = s
report_first id (some phase) s = report_phase id phase s

unfoldable pub run_steps : String → Steps → Spawner → Option Failure × Spawner
run_steps id [] s = (none, s)
run_steps id ((phase, none) ∷ steps) s = run_steps id steps (report_first id phase s)
run_steps id ((phase, some failure) ∷ steps) s = (some failure, report_first id phase s)

abbrev missing : Option String → Option Failure
missing none = none
missing (some detail) = some (Failure.missing_auth detail)

-- `_spawn_container` after the credential check, and `_spawn_shell`.
abbrev pub container_steps : Host → Steps
container_steps h =
    (none, missing h.credential_check)
    ∷ (some LifecyclePhase.preparing, h.prepare)
    ∷ (none, h.hook)
    ∷ (some LifecyclePhase.building, h.base_image)
    ∷ (none, h.image)
    ∷ (some LifecyclePhase.starting, h.start)
    ∷ (some LifecyclePhase.awaiting, h.attach)
    ∷ []

abbrev pub shell_steps : Config → Host → Steps
shell_steps cfg h =
    (none, if cfg.has_shell_runner then none else some (Failure.other_failure "no shell runner"))
    ∷ (none, h.execution)
    ∷ (some LifecyclePhase.preparing, h.prepare)
    ∷ (some LifecyclePhase.starting, h.start)
    ∷ (some LifecyclePhase.awaiting, h.attach)
    ∷ []

abbrev pub steps_of : Config → Host → Steps
steps_of cfg h =
    (some LifecyclePhase.claiming, h.get_repo)
    ∷ (if h.is_shell then shell_steps cfg h else container_steps h)

abbrev pub is_infrastructure : Failure → Bool
is_infrastructure (Failure.infrastructure _) = true
is_infrastructure _ = false

abbrev pub detail_of : Failure → String
detail_of (Failure.infrastructure detail) = detail
detail_of (Failure.missing_auth detail) = detail
detail_of (Failure.git_credentials detail) = detail
detail_of (Failure.other_failure detail) = detail

-- `self._respawns.get(task_id, (0, 0.0))`.
abbrev pub respawn_of : String → Spawner → ℕ × ℕ
respawn_of id s = or_else (lookup id s.respawns) (0, 0)

abbrev pub set_respawn : String → ℕ → ℕ → Spawner → Spawner
set_respawn id count at s = record s { respawns = put id (count, at) s.respawns }

abbrev pub mark_failed : String → Spawner → Spawner
mark_failed id s = record s { pre_session_failures = add id s.pre_session_failures }

abbrev pub forget_failed : String → Spawner → Spawner
forget_failed id s = record s { pre_session_failures = discard id s.pre_session_failures }

-- Every fresh claim, and the end of a task, starts a new budget.
abbrev pub forget : String → Spawner → Spawner
forget id s = forget_failed id (record s { respawns = remove id s.respawns })
