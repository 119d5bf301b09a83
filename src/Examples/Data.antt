-- ===== src/Examples/Data.antt =====
-- A small workflow, its tasks and a service that holds them.
use panopticon_next.Base.{String, true, false, Option, none, some, [], ◌∷◌}
use panopticon_next.Core.Models.{
  Actor, Status, WakeStatus, Responsibility, Repo, HistoryEntry, Task, SessionInput,
  SessionInputStatus,
}
use panopticon_next.Core.Workflow.{StateKind, StateClass, Graph, Workflow}
use panopticon_next.Taskservice.Rows.{Store}
use panopticon_next.Taskservice.State.{Env, Service}

abbrev pub tests_promise : Status → Responsibility
tests_promise status = record {
  key = "tests";
  description = "Run the tests.";
  status = status;
  comment = none;
}

abbrev ending : StateClass
ending = record {
  kind = StateKind.terminal;
  description = "The end.";
  turn_on_enter = some Actor.user;
  advanced_by = Actor.user;
  responsibilities = [];
}

abbrev building : StateClass
building = record {
  kind = StateKind.initial;
  description = "The work.";
  turn_on_enter = some Actor.agent;
  advanced_by = Actor.user;
  responsibilities = tests_promise Status.pending ∷ [];
}

abbrev pub spike_graph : Graph
spike_graph = record {
  states = ("BUILDING", building) ∷ ("COMPLETE", ending) ∷ ("DROPPED", ending) ∷ [];
  transitions = ("BUILDING", "COMPLETE" ∷ "DROPPED" ∷ []) ∷ ("COMPLETE", []) ∷ ("DROPPED", []) ∷ [];
  operations =
      ("BUILDING", ("advance", "COMPLETE") ∷ ("drop", "DROPPED") ∷ [])
      ∷ ("COMPLETE", [])
      ∷ ("DROPPED", [])
      ∷ [];
  initial = "BUILDING";
}

abbrev pub spike : Workflow
spike = record {
  name = "spike";
  graph = spike_graph;
  orchestrates = true;
  opt_in = false;
  hidden = false;
  configures_repo_credentials = false;
  default_harness = none;
  default_model = none;
  review_harness = none;
  review_model = none;
  skill_names = [];
}

abbrev pub started_entry : Status → HistoryEntry
started_entry status = record {
  at = "09:00";
  from_state = none;
  to_state = "BUILDING";
  trigger = some "start";
  note = none;
  responsibilities = tests_promise status ∷ [];
  wake_status = WakeStatus.skipped;
}

-- A task in BUILDING whose promise has the given status.
abbrev pub task_with : String → Status → Option String → Task
task_with id status governor = record {
  id = id;
  repo_id = "app";
  workflow = "spike";
  state = "BUILDING";
  turn = Actor.user;
  blocked = false;
  attention = false;
  memo = none;
  initial_prompt = none;
  slug = none;
  url = none;
  snoozed_until = none;
  branch = none;
  clone = none;
  provisioned_by = none;
  workspace_verified_by = none;
  migration = none;
  claimed_by = none;
  tokens_used = none;
  token_estimate = none;
  starting_model = none;
  harness = some "claude";
  governor_task_id = governor;
  created_at = none;
  updated_at = none;
  depends_on_task_ids = [];
  history = started_entry status ∷ [];
  launch_paused = false;
  launch_pause_reason = none;
}

-- A task that is ready to advance, one that is not, and one that is claimed.
abbrev pub ready : Task
ready = task_with "t1" Status.met none

abbrev pub working : Task
working = task_with "t2" Status.pending (some "t1")

abbrev pub owned : Task
owned = record (task_with "t3" Status.pending (some "t2")) { claimed_by = some "host-a" }

-- A task whose workspace is on its way from host-a to host-b, and one that is about to get one.
abbrev pub moving : Task
moving = record (task_with "t4" Status.pending none) {
  claimed_by = some "host-b";
  provisioned_by = some "host-a";
  slug = some "fix";
  migration = some (record {
    source_runner = "host-a";
    destination_runner = "host-b";
    workspace_disposition = "pending";
    session_history_disposition = "requested";
    workspace_method = "archive";
    discarded_changes = [];
    discard_authorized_by = none;
    session_history_changed_by = none;
    session_history_was_requested = true;
  });
}

abbrev pub named : Task
named = record (task_with "t5" Status.pending none) {
  claimed_by = some "host-a";
  slug = some "fix";
  tokens_used = some 20;
}

-- A task in planning, governed by t4.
abbrev pub planned : Task
planned = record (task_with "t6" Status.pending (some "t4")) {
  state = "PLANNING";
  history = record (started_entry Status.pending) { to_state = "PLANNING" } ∷ [];
}

abbrev pub app : Repo
app = record {
  id = "app";
  name = "app";
  git_url = "git@host:app";
  default_base = "main";
  env_file = none;
  image_layer_file = none;
  capabilities = [];
  hook_file = none;
  enabled_workflows = [];
  disabled_workflows = [];
  credential_dir = none;
  default_harness = some "codex";
  default_model = some "large";
  honesty_reviewer = none;
  reviewer_1 = none;
  reviewer_2 = none;
  launch_paused = false;
}

abbrev pub waiting_input : SessionInput
waiting_input = record {
  id = "i1";
  task_id = "t3";
  idempotency_key = "k1";
  text = "yes";
  submit = true;
  status = SessionInputStatus.pending;
  created_at = "09:05";
  settled_at = none;
  failure_reason = none;
}

abbrev pub rows : Store
rows = record {
  repos = ("app", app) ∷ [];
  tasks =
      ("t1", ready)
      ∷ ("t2", working)
      ∷ ("t3", owned)
      ∷ ("t4", moving)
      ∷ ("t5", named)
      ∷ ("t6", planned)
      ∷ [];
  inputs = ("i1", waiting_input) ∷ [];
  transcripts = [];
  version = 0;
}

abbrev env : Env
env = record {
  clock = λ tick. "10:00";
  fresh_id = λ n. "fresh";
  discovered = ("spike", spike) ∷ [];
  message = λ e. "failed";
}

abbrev pub service : Service
service = record {
  env = env;
  db = rows;
  workflows = ("spike", spike) ∷ [];
  registrations =
      (
        "g1",
        record {
          id = "g1";
          task_id = "t3";
          container_id = "c1";
          runner_id = some "host-a";
          registered_at = "09:01";
        },
      )
      ∷ [];
  runner_registrations =
      (
        "h1",
        record {
          id = "h1";
          runner_id = "host-a";
          registered_at = "08:00";
          host = none;
          instance_id = none;
        },
      )
      ∷ [];
  lifecycles = [];
  artifacts = [];
  aliases = [];
  ephemeral_epoch = 0;
  ticks = 0;
  minted = 0;
}
