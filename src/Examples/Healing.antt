-- ===== src/Examples/Healing.antt =====
-- Tests of the spawner of a runner host on a task whose image does not build.
use panopticon_next.Base.{
  ◌+◌, ◌≤◌, ◌≡◌, inl, refl, arith, eq_option, true, false, none, some, List, [], ◌∷◌, map, All,
  select, get_last?,
}
use panopticon_next.Base.Table.{Table, lookup, put}
use panopticon_next.Core.Models.{Task, ContainerStatus, LifecyclePhase}
use panopticon_next.Core.Workflow.{Workflow}
use panopticon_next.Sessionservice.Spawner.{
  TaskView, Call, Failure, ClaimAnswer, Host, Config, Spawner,
}
use panopticon_next.Sessionservice.Spawner.Passes.{heal}
use panopticon_next.Sessionservice.Spawner.Budget.{launches, count, FailsEarly}
use panopticon_next.Sessionservice.Spawner.Bursts.{
  IsBurst, IsFailingPass, heal_passes, heal_passes-launches,
}
use panopticon_next.Sessionservice.Ready.{spawnable_tasks, view, is_ready, spawnable_tasks-eq_ready}
use panopticon_next.Examples.Data.{spike, ready, working, owned}

abbrev config : Config
config = record {
  runner_id = "host-a";
  max_respawns = 2;
  respawn_reset = 60;
  has_shell_runner = true;
  exhausted_note = " (respawn budget exhausted after 2 attempts)";
  setup_note = ". Open foreground setup, then retry this task.";
}

abbrev no_build : Host
no_build = record {
  now = 100;
  failed_at = 130;
  reachable = true;
  is_shell = false;
  has_session = some false;
  session_after = some false;
  is_running = some false;
  retains_completed = false;
  claim_answer = ClaimAnswer.granted;
  configuration = none;
  get_repo = none;
  credential_check = none;
  execution = none;
  prepare = none;
  hook = none;
  base_image = some (Failure.infrastructure "docker build failed");
  image = none;
  start = none;
  attach = none;
  container = "panopticon-t3";
}

abbrev later : Host
later = record no_build { now = 900; failed_at = 930 }

-- A pass on which the probe of the session raises.
abbrev blind : Host
blind = record later { has_session = none }

abbrev down : TaskView
down = record {
  id = "t3";
  state = "BUILDING";
  workflow = "spike";
  claimed_by = some "host-a";
  launch_paused = false;
  container_status = ContainerStatus.down;
  terminal = some false;
  depends_on_task_ids = [];
}

abbrev idle : Spawner
idle = record { respawns = []; pre_session_failures = []; calls = [] }

abbrev passes : List (Host × TaskView)
passes = (no_build, down) ∷ (blind, down) ∷ (later, down) ∷ (later, down) ∷ []

-- Four passes over ten minutes launch the task twice.
four_passes : launches "t3" (heal_passes config passes idle).calls ≡ 2
unfolding launches heal_passes heal eq_option lookup put
four_passes = refl

-- A failure after which the session is there is reported at once.
abbrev attached : Host
attached = record no_build { session_after = some true }

attached_reports :
    get_last? (heal config attached down idle).1.calls
    ≡ some (Call.report "t3" LifecyclePhase.failed (some "docker build failed") false)
unfolding heal eq_option lookup put
attached_reports = refl

no_build_fails : FailsEarly config no_build
no_build_fails = record {
  failure = Failure.infrastructure "docker build failed";
  fails = refl;
  recoverable = refl;
}

blind_fails : FailsEarly config blind
blind_fails = record {
  failure = Failure.infrastructure "docker build failed";
  fails = refl;
  recoverable = refl;
}

later_fails : FailsEarly config later
later_fails = record {
  failure = Failure.infrastructure "docker build failed";
  fails = refl;
  recoverable = refl;
}

all_fail : All (IsFailingPass config "t3") passes
all_fail = (
  record { same_task = refl; live = refl; fails = no_build_fails },
  (
    record { same_task = refl; live = refl; fails = blind_fails },
    (
      record { same_task = refl; live = refl; fails = later_fails },
      (record { same_task = refl; live = refl; fails = later_fails }, tt),
    ),
  ),
)

idle-IsBurst : IsBurst config "t3" idle
unfolding lookup
idle-IsBurst = record { within = omega arith; marked = inl refl }

heal_passes-launches_example :
    launches "t3" (heal_passes config passes idle).calls + count "t3" idle
    ≤ launches "t3" idle.calls + 2
heal_passes-launches_example = heal_passes-launches config "t3" passes idle idle-IsBurst all_fail

abbrev live_status : Task → ContainerStatus
live_status t = ContainerStatus.queued

abbrev known : Table Workflow
known = ("spike", spike) ∷ []

spawnable_tasks-eq_ready_example :
    spawnable_tasks (map (view live_status known) (ready ∷ working ∷ owned ∷ []))
    ≡ map (view live_status known) (
        select
          (is_ready live_status known (ready ∷ working ∷ owned ∷ []))
          (ready ∷ working ∷ owned ∷ []))
spawnable_tasks-eq_ready_example =
    spawnable_tasks-eq_ready live_status known (ready ∷ working ∷ owned ∷ [])
