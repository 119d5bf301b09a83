-- ===== src/Examples/Workspaces.antt =====
-- Tests of the reported workspaces and of the token usage on the sample service.
use panopticon_next.Base.{
  is_given, ◌↔◌, ℕ, ◌≤◌, ◌≡◌, refl, true, none, some, [], Result, ok, err, eq_option,
}
use panopticon_next.Base.Table.{lookup}
use panopticon_next.Core.Models.{Task}
use panopticon_next.Core.Models.Containers.{provisioned}
use panopticon_next.Core.Store.{validate_task_consistency, validate_history_append_only}
use panopticon_next.Taskservice.Rows.{Store}
use panopticon_next.Taskservice.Rows.Tasks.{save_task, set_tokens_used_max}
use panopticon_next.Taskservice.Rows.Usage.{set_tokens_used_max-le}
use panopticon_next.Taskservice.State.{Service}
use panopticon_next.Taskservice.Provisioning.{
  MigrationFacts, migration_of, record_migration, record_provisioning,
}
use panopticon_next.Taskservice.Provisioning.Migrations.{
  IsMigration, HasArrived, record_migration-IsMigration, record_provisioning-provisioned,
}
use panopticon_next.Examples.Data.{named, rows, service}

abbrev accepting : MigrationFacts
accepting = record {
  source_runner = "host-a";
  destination_runner = "host-b";
  workspace_disposition = "accepted";
  session_history_disposition = "omitted";
  discarded_changes = [];
  discard_authorized_by = none;
  workspace_method = "archive";
}

abbrev task_of : Result Task → Task
task_of (ok t) = t
task_of (err e) = named

abbrev accepted : Result Task × Service
accepted = record_migration "t4" accepting service

accept_returns : record_migration "t4" accepting service ≡ (ok (task_of accepted.0), accepted.1)
unfolding record_migration lookup eq_option save_task validate_task_consistency
    validate_history_append_only
accept_returns = refl

record_migration-IsMigration_example :
    (t : Task) × (lookup "t4" service.db.tasks ≡ some t)
    × IsMigration t accepting
    × ((task_of accepted.0).migration ≡ some (migration_of t accepting))
record_migration-IsMigration_example =
    record_migration-IsMigration service accepted.1 "t4" accepting (task_of accepted.0)
      accept_returns

abbrev reported : Result Task × Service
reported = record_provisioning "t5" "panopticon/fix" "/clones/t5" "host-a" true service

report_returns :
    record_provisioning "t5" "panopticon/fix" "/clones/t5" "host-a" true service
    ≡ (ok (task_of reported.0), reported.1)
unfolding record_provisioning lookup eq_option save_task validate_task_consistency
    validate_history_append_only
report_returns = refl

t5_stored : lookup "t5" service.db.tasks ≡ some named
unfolding lookup
t5_stored = refl

record_provisioning-provisioned_example : (provisioned (task_of reported.0) ≡ true) ↔ (
    HasArrived named.migration
    × (is_given (some "panopticon/fix") ≡ true)
    × (is_given (some "/clones/t5") ≡ true)
    × (is_given (some "host-a") ≡ true)
    × (true ≡ true))
record_provisioning-provisioned_example =
    record_provisioning-provisioned service reported.1 "t5" "panopticon/fix" "/clones/t5" "host-a"
      true named (task_of reported.0) t5_stored report_returns

abbrev counted : Result (Task × Store)
counted = set_tokens_used_max "t5" 12 "10:00" rows

abbrev counted_task : Result (Task × Store) → Task × Store
counted_task (ok r) = r
counted_task (err e) = (named, rows)

count_returns :
    set_tokens_used_max "t5" 12 "10:00" rows
    ≡ ok ((counted_task counted).0, (counted_task counted).1)
unfolding set_tokens_used_max lookup
count_returns = refl

set_tokens_used_max-le_example :
    (before : Task) × (n : ℕ) × (lookup "t5" rows.tasks ≡ some before)
    × (lookup "t5" (counted_task counted).1.tasks ≡ some (counted_task counted).0)
    × ((counted_task counted).0.tokens_used ≡ some n)
    × (12 ≤ n)
    × ((m : ℕ) → before.tokens_used ≡ some m → m ≤ n)
set_tokens_used_max-le_example =
    set_tokens_used_max-le "t5" 12 "10:00" rows (counted_task counted).1 (counted_task counted).0
      count_returns
