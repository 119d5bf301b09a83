-- ===== src/Taskservice/Create.antt =====
-- The creation of tasks (service.py): the launch pair, the checks of `_create_task_locked`, and
-- the path for orchestrators.
pub mod Launch
use panopticon_next.Base.{
  String, Bool, true, false, not, ◌&&◌, ◌||◌, Option, none, some, List, [], ◌∷◌, Result, ok, err,
  ◌==◌, if◌then◌else◌, is_some, is_given, or_else, value_error, not_authorized,
}
use panopticon_next.Base
use panopticon_next.Base.Exec.{Exec, pure, raise, raise_if, lift, gets, when, ◌>>=◌, ◌>>◌}
use panopticon_next.Base.Table.{Table, lookup}
use panopticon_next.Core.Models.{Repo, Task}
use panopticon_next.Core.Workflow.{Workflow}
use panopticon_next.Core.Workflow.Lifecycle.{start_task, is_nonempty}
use panopticon_next.Taskservice.Rows.Tasks.{create_task as create_row}
use panopticon_next.Taskservice.Rows.Repos.{setup_reason}
use panopticon_next.Taskservice.State.{
  Service, Method, now, mint, commit, get_task, get_repo, workflow,
}
use panopticon_next.Taskservice.Workflows.{
  default_harness, get_harness, validate_harness_name, workflow_visible, rescan_workflows,
}
use panopticon_next.Taskservice.Dependencies.{validate_dependencies}
use panopticon_next.Taskservice.Artifacts.{put_artifact}

-- The arguments of `create_task`; an absent collection is an empty one.
pub record NewTask : Type 0 where
  pub repo_id : String
  pub workflow_name : String
  pub memo : Option String
  pub governor_task_id : Option String
  pub initial_prompt : Option String
  pub harness : Option String
  pub starting_model : Option String
  pub artifacts : List (String × String)
  pub depends_on_task_ids : List String

pub record LaunchPair : Type 0 where
  pub harness : String
  pub model : Option String

-- The defaults travel as a pair: the workflow's, else the repo's, else the default harness.
pub default_pair : Workflow → Repo → LaunchPair
default_pair wf repo =
    let harness = if is_some wf.default_harness then wf.default_harness else repo.default_harness in
    record {
      harness = if is_given harness then or_else harness default_harness else default_harness;
      model = if is_some wf.default_harness then wf.default_model else repo.default_model;
    }

-- A harness other than the default one discards the model that belongs to the default.
unfoldable pub choose_launch : Workflow → Repo → Option String → Option String → LaunchPair
unfolding default_pair
choose_launch wf repo harness starting_model =
    let pair = default_pair wf repo in
    let chosen = or_else harness pair.harness in
    record {
      harness = chosen;
      model =
          if not (is_some starting_model) && (not (is_some harness) || chosen == pair.harness)
          then pair.model
          else starting_model;
    }

abbrev get_governor : Option String → Method (Option Task)
get_governor none s = (ok none, s)
get_governor (some task_id) s = (do t ← get_task task_id; pure (some t)) s

-- A review task runs on another harness than its governor.
review_differs : String → Option Task → Result (Unit {0})
unfolding get_harness
review_differs harness none = err value_error
review_differs harness (some governor) = Base.◌>>=◌ (get_harness (some harness)) λ own.
    Base.◌>>=◌ (get_harness governor.harness) λ other. Base.raise_if (own == other) value_error

put_artifacts : String → List (String × String) → Method (Unit {0})
unfolding put_artifact
put_artifacts task_id [] = pure tt
put_artifacts task_id ((name, content) ∷ rest) = do
  put_artifact task_id name content
  put_artifacts task_id rest

unfoldable pub create_task : NewTask → Method Task
unfolding choose_launch review_differs put_artifacts
create_task new = do
  repo ← get_repo new.repo_id
  let is_review = new.workflow_name == "review"
  raise_if (is_review && not (is_some new.governor_task_id)) value_error
  governor ← get_governor new.governor_task_id
  lift (validate_harness_name new.harness)
  loaded ← gets (λ s. is_some (lookup new.workflow_name s.workflows))
  when (not loaded) rescan_workflows
  wf ← workflow new.workflow_name
  raise_if (not (workflow_visible wf repo)) not_authorized
  at ← now
  id ← mint
  started ← lift (start_task wf id new.repo_id at new.memo new.initial_prompt)
  let launch = choose_launch wf repo new.harness new.starting_model
  when is_review (lift (review_differs launch.harness governor))
  let needs = is_nonempty new.depends_on_task_ids
  when needs (λ s. (validate_dependencies id new.depends_on_task_ids s.db, s))
  let task = record started {
    harness = some launch.harness;
    starting_model = launch.model;
    governor_task_id = new.governor_task_id;
    created_at = some at;
    updated_at = some at;
    depends_on_task_ids = new.depends_on_task_ids;
    launch_paused = repo.launch_paused;
    launch_pause_reason = if repo.launch_paused then some setup_reason else none;
  }
  commit (create_row task)
  put_artifacts id new.artifacts
  pure task

-- `_require_orchestrator`.
unfoldable pub require_orchestrator : String → Method Task
require_orchestrator actor_task_id = do
  actor ← get_task actor_task_id
  wf ← workflow actor.workflow
  raise_if (not wf.orchestrates) not_authorized
  pure actor

-- `create_task_as`: in the orchestrator's own repo, governed by it.
unfoldable pub create_task_as :
    String
    → String
    → Option String
    → Option String
    → List (String × String)
    → List String
    → Method Task
unfolding require_orchestrator
create_task_as actor_task_id workflow_name memo initial_prompt artifacts depends = do
  actor ← require_orchestrator actor_task_id
  create_task (record {
    repo_id = actor.repo_id;
    workflow_name = workflow_name;
    memo = memo;
    governor_task_id = some actor_task_id;
    initial_prompt = initial_prompt;
    harness = none;
    starting_model = none;
    artifacts = artifacts;
    depends_on_task_ids = depends;
  })
