-- ===== src/Taskservice/Provisioning.antt =====
-- The facts that a runner reports of a task's workspace (service.py): its provisioning, and the
-- steps of an explicit migration to another host. The reported facts are texts, which the source's
-- check for JSON always passes.
pub mod Migrations
use panopticon_next.Base.{
  String, Bool, true, false, not, ◌&&◌, ◌||◌, Option, none, some, List, [], ◌∷◌, Result, ok, err,
  ◌==◌, if◌then◌else◌, is_some, eq_option, contains, concat, value_error, not_ready, ◌>>◌,
}
use panopticon_next.Base
use panopticon_next.Base.Exec.{lift, raise_if, ◌>>=◌}
use panopticon_next.Base.Exec
use panopticon_next.Core.Models.{Task, MigrationRecord}
use panopticon_next.Core.Workflow.Lifecycle.{is_nonempty}
use panopticon_next.Taskservice.State.{Method, get_task, save_task}

abbrev is_in_place : String → Bool
is_in_place disposition = contains ("installed" ∷ "accepted" ∷ []) disposition

-- The destination of a migration waits until the workspace was installed there.
abbrev awaits_workspace : Option MigrationRecord → String → Bool
awaits_workspace none runner_id = false
awaits_workspace (some m) runner_id =
    m.destination_runner == runner_id && not (is_in_place m.workspace_disposition)

abbrev slug_branch : Option String → String
slug_branch none = ""
slug_branch (some slug) = concat "panopticon/" slug

-- The checks of `record_provisioning` on the task that it read.
unfoldable pub provisioning_guards : Task → String → String → Result (Unit {0})
provisioning_guards t branch runner_id = do
  Base.raise_if (not (is_some t.slug)) value_error
  Base.raise_if (not (eq_option t.claimed_by (some runner_id))) not_ready
  Base.raise_if (awaits_workspace t.migration runner_id) not_ready
  Base.raise_if (not (branch == slug_branch t.slug) && not (eq_option t.branch (some branch)))
      not_ready

unfoldable pub record_provisioning : String → String → String → String → Bool → Method Task
unfolding provisioning_guards
record_provisioning task_id branch clone runner_id workspace_verified = get_task task_id >>= λ t.
    lift (provisioning_guards t branch runner_id) >>= λ _. save_task (record t {
      branch = some branch;
      clone = some clone;
      provisioned_by = some runner_id;
      workspace_verified_by = if workspace_verified then some runner_id else none;
    })

-- The reported facts of a migration.
pub record MigrationFacts : Type 0 where
  pub source_runner : String
  pub destination_runner : String
  pub workspace_disposition : String
  pub session_history_disposition : String
  pub discarded_changes : List String
  pub discard_authorized_by : Option String
  pub workspace_method : String

-- The dispositions from which a workspace may be installed or accepted.
abbrev steps_from : String → List String
steps_from disposition =
    if disposition == "installed" then "pending" ∷ [] else "pending" ∷ "installed" ∷ []

abbrev pub continues : Option MigrationRecord → MigrationFacts → Bool
continues none facts = false
continues (some m) facts =
    m.source_runner == facts.source_runner
    && m.destination_runner == facts.destination_runner
    && m.workspace_method == facts.workspace_method
    && contains (steps_from facts.workspace_disposition) m.workspace_disposition

-- The checks of `record_migration` on the task that it read.
unfoldable pub migration_guards : Task → MigrationFacts → Result (Unit {0})
migration_guards t facts = do
  Base.raise_if (not (is_some t.provisioned_by)) not_ready
  Base.raise_if (not (eq_option t.provisioned_by (some facts.source_runner))) not_ready
  Base.raise_if (facts.destination_runner == facts.source_runner) value_error
  Base.raise_if
      (not (
        contains ("pending" ∷ "installed" ∷ "accepted" ∷ "failed" ∷ [])
          facts.workspace_disposition))
      value_error
  Base.raise_if (not (contains ("archive" ∷ "forge-first" ∷ []) facts.workspace_method)) value_error
  Base.raise_if
      (not (
        contains ("requested" ∷ "accepted" ∷ "omitted" ∷ "failed" ∷ [])
          facts.session_history_disposition))
      value_error
  Base.raise_if (is_in_place facts.workspace_disposition && not (continues t.migration facts))
      not_ready
  Base.raise_if
      (is_nonempty facts.discarded_changes
        && not (eq_option facts.discard_authorized_by (some "user")))
      value_error

abbrev history_was_requested : Option MigrationRecord → Bool
history_was_requested none = false
history_was_requested (some m) =
    m.session_history_disposition == "requested" || m.session_history_was_requested

abbrev pub migration_of : Task → MigrationFacts → MigrationRecord
migration_of t facts = record {
  source_runner = facts.source_runner;
  destination_runner = facts.destination_runner;
  workspace_disposition = facts.workspace_disposition;
  session_history_disposition = facts.session_history_disposition;
  workspace_method = facts.workspace_method;
  discarded_changes = facts.discarded_changes;
  discard_authorized_by = facts.discard_authorized_by;
  session_history_changed_by =
      if history_was_requested t.migration && facts.session_history_disposition == "omitted"
      then some "user"
      else none;
  session_history_was_requested =
      history_was_requested t.migration || facts.session_history_disposition == "requested";
}

unfoldable pub record_migration : String → MigrationFacts → Method Task
unfolding migration_guards
record_migration task_id facts = get_task task_id >>= λ t. lift (migration_guards t facts) >>= λ _.
    save_task (record t { migration = some (migration_of t facts) })
