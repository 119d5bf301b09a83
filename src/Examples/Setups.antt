-- ===== src/Examples/Setups.antt =====
-- Tests of the launch gates on the sample service.
use mathlib.Core.Option
use panopticon_next.Base.{
  String, ◌≡◌, ◌⊎◌, refl, true, false, some, if◌then◌else◌, ok, err, not_ready, [], ◌∷◌,
}
use panopticon_next.Base.Table.{lookup}
use panopticon_next.Taskservice.State.{Service}
use panopticon_next.Core.Models.{Task}
use panopticon_next.Taskservice.Dependencies.{
  dependencies_blocking, dependencies_blocking_in_snapshot,
}
use panopticon_next.Taskservice.Dependencies.Blocking.{dependencies_blocking-eq_snapshot}
use panopticon_next.Taskservice.Claims.{begin_repo_setup}
use panopticon_next.Taskservice.Claims.Setup.{
  IsKeyed, is_unsettled, launch_is_open, held, begin_repo_setup-holds,
}
use panopticon_next.Examples.Data.{app, ready, rows, service}

-- One dependency is there and unfinished, one is missing.
abbrev waiting_task : Task
waiting_task = record ready { depends_on_task_ids = "t2" ∷ "t9" ∷ [] }

dependencies_blocking-eq_snapshot_example :
    dependencies_blocking service.workflows rows.tasks waiting_task
    ≡ dependencies_blocking_in_snapshot service.workflows waiting_task rows.tasks
dependencies_blocking-eq_snapshot_example =
    dependencies_blocking-eq_snapshot service.workflows rows.tasks waiting_task

rows-IsKeyed : IsKeyed service.db.tasks
unfolding lookup
rows-IsKeyed =
    (refl, refl, (refl, refl, (refl, refl, (refl, refl, (refl, refl, (refl, refl, tt))))))

app_stored : lookup "app" service.db.repos ≡ some app
unfolding lookup
app_stored = refl

begin_repo_setup-holds_example :
    ((launch_is_open service "app" ≡ true)
      × (begin_repo_setup "app" service ≡ (err not_ready, service)))
    ⊎ ((launch_is_open service "app" ≡ false)
        × (s' : Service) × (begin_repo_setup "app" service
            ≡ (ok (record app { launch_paused = true }), s'))
        × ((id : String)
            → lookup id s'.db.tasks
              ≡ Option.map
                  (λ t. if is_unsettled service "app" t then held t else t)
                  (lookup id service.db.tasks)))
begin_repo_setup-holds_example = begin_repo_setup-holds service "app" app app_stored rows-IsKeyed
