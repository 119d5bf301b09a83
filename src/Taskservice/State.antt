-- ===== src/Taskservice/State.antt =====
-- The state of src/panopticon/taskservice/service.py's `TaskService`: the store, the loaded
-- workflows, and the liveness that is kept in memory. Each method is one action on it; the
-- service's locks make the steps of a locked method one.
use panopticon_next.Base.{
  ℕ, ◌+◌, String, Option, some, Result, ok, err, Error, not_found, unknown_workflow, ◌≡◌, ap, sym,
  arith,
}
use panopticon_next.Base.Exec.{Exec, pure, lift, require, ◌>>=◌, ◌>>◌}
use panopticon_next.Base.Table.{Table, lookup}
use panopticon_next.Core.Models.{Repo, Task, LifecyclePhase}
use panopticon_next.Core.Workflow.{Workflow}
use panopticon_next.Taskservice.Rows.{Store}
use panopticon_next.Taskservice.Rows.Tasks.{save_task as save_row}

pub record Registration : Type 0 where
  pub id : String
  pub task_id : String
  pub container_id : String
  pub runner_id : Option String
  pub registered_at : String

pub record ContainerLifecycle : Type 0 where
  pub task_id : String
  pub runner_id : String
  pub phase : LifecyclePhase
  pub detail : Option String
  pub at : String

pub record RunnerRegistration : Type 0 where
  pub id : String
  pub runner_id : String
  pub registered_at : String
  pub host : Option String
  pub instance_id : Option String

-- What the service is given: the readings of its clock and the ids of its factory in the order in
-- which they are taken, what workflow discovery finds, and the text of an exception.
pub record Env : Type 0 where
  pub clock : ℕ → String
  pub fresh_id : ℕ → String
  pub discovered : Table Workflow
  pub message : Error → String

pub record Service : Type 0 where
  pub env : Env
  pub db : Store
  pub workflows : Table Workflow
  pub registrations : Table Registration
  pub runner_registrations : Table RunnerRegistration
  pub lifecycles : Table ContainerLifecycle
  -- the task directories of the artifact store, and its slug aliases
  pub artifacts : Table (Table String)
  pub aliases : Table String
  pub ephemeral_epoch : ℕ
  pub ticks : ℕ
  pub minted : ℕ

abbrev pub Method : Type 0 → Type 0
Method A = Exec Service A

abbrev pub now : Method String
now s = (ok (s.env.clock s.ticks), record s { ticks = s.ticks + 1 })

abbrev pub mint : Method String
mint s = (ok (s.env.fresh_id s.minted), record s { minted = s.minted + 1 })

-- A transaction on the store.
abbrev pub commit : (Store → Result Store) → Method (Unit {0})
commit write s = elim (write s.db) [ ok db ↦ (ok tt, record s { db = db }) | err e ↦ (err e, s) ]

abbrev pub get_task : String → Method Task
get_task task_id s = require (lookup task_id s.db.tasks) not_found s

abbrev pub get_repo : String → Method Repo
get_repo repo_id s = require (lookup repo_id s.db.repos) not_found s

-- `_workflow`.
abbrev pub workflow : String → Method Workflow
workflow name s = require (lookup name s.workflows) unknown_workflow s

-- `_notify_change`.
abbrev pub notify_change : Method (Unit {0})
notify_change s = (ok tt, record s { ephemeral_epoch = s.ephemeral_epoch + 1 })

-- `_save_task` stamps the task and persists it.
abbrev pub save_task : Task → Method Task
save_task t = do
  at ← now
  let stamped = record t { updated_at = some at }
  commit (save_row stamped)
  pure stamped

-- `_save_container_state` does not stamp.
abbrev pub save_container_state : Task → Method Task
save_container_state t = do commit (save_row t); pure t

-- `tasks_version`, the change feed.
unfoldable pub tasks_version : Service → ℕ
tasks_version s = s.db.version + s.ephemeral_epoch

-- What a read or a save that returned says.
pub get_task-eq-ok :
    (task_id : String) (t : Task) (s s1 : Service)
    → get_task task_id s ≡ (ok t, s1)
    → (lookup task_id s.db.tasks ≡ some t) × (s1 ≡ s)
get_task-eq-ok task_id t s s1 h = (ground arith, ground arith)

pub save_container_state-eq-ok :
    (t t' : Task) (s s' : Service)
    → save_container_state t s ≡ (ok t', s')
    → (t' ≡ t) × (save_row t s.db ≡ ok s'.db)
save_container_state-eq-ok t t' s s' h = (ground arith, ground arith)

pub workflow-eq-ok :
    (name : String) (wf : Workflow) (s s1 : Service)
    → workflow name s ≡ (ok wf, s1)
    → (lookup name s.workflows ≡ some wf) × (s1 ≡ s)
workflow-eq-ok name wf s s1 h = (ground arith, ground arith)

pub lift-eq-ok :
    {A : Type 0} (r : Result A) (a : A) (s s1 : Service)
    → lift {O = Service} r s ≡ (ok a, s1)
    → (r ≡ ok a) × (s1 ≡ s)
lift-eq-ok r a s s1 h = (ap (λ x. x.0) h, sym (ap (λ x. x.1) h))

pub save_task-eq-ok :
    (t t' : Task) (s s' : Service)
    → save_task t s ≡ (ok t', s')
    → t' ≡ record t { updated_at = some (s.env.clock s.ticks) }
save_task-eq-ok t t' s s' h = ground arith
