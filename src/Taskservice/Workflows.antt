-- ===== src/Taskservice/Workflows.antt =====
-- The registered workflows (service.py and core/workflow.py): the registration checks, discovery,
-- what a repo sees, and a task's terminality through its workflow.
use panopticon_next.Base.{
  String, Bool, true, false, not, ◌||◌, Option, none, some, List, [], ◌∷◌, map, Result, ok, err,
  ◌>>=◌, ◌>>◌, raise_if, ◌==◌, if◌then◌else◌, is_some, is_given, contains, invalid_workflow,
  value_error, key_error,
}
use panopticon_next.Base.Table.{Table, lookup, assign}
use panopticon_next.Core.Models.{Repo, Task, complete_label, dropped_label}
use panopticon_next.Core.Workflow.{Workflow, is_terminal, operations}
use panopticon_next.Taskservice.State.{Service}

-- The registry of src/panopticon/harnesses/__init__.py.
abbrev pub harnesses : List String
harnesses = "claude" ∷ "codex" ∷ "pi" ∷ "outfitter" ∷ []

abbrev pub default_harness : String
default_harness = "claude"

-- `get_harness(name).name`: no name and the empty name give the default.
unfoldable pub get_harness : Option String → Result String
get_harness name =
    if is_given name
    then elim name [
      | none ↦ ok default_harness
      | some key ↦ (if contains harnesses key then ok key else err key_error)
    ]
    else ok default_harness

-- `_validate_harness_name`.
unfoldable pub validate_harness_name : Option String → Result (Unit {0})
unfolding get_harness
validate_harness_name none = ok tt
validate_harness_name (some name) = elim (get_harness (some name)) [
  | ok found ↦ ok tt
  | err e ↦ err value_error
]

-- One of the two launch pairs of `Workflow.validate_registration`.
abbrev validate_pair : Option String → Option String → Result (Unit {0})
validate_pair none none = ok tt
validate_pair none (some model) = err invalid_workflow
validate_pair (some harness) none = err invalid_workflow
validate_pair (some harness) (some model) =
    if contains harnesses harness then ok tt else err invalid_workflow

-- The graph of a loaded workflow was validated when it was resolved.
unfoldable pub validate_registration : Workflow → Result (Unit {0})
validate_registration wf = do
  validate_pair wf.default_harness wf.default_model
  validate_pair wf.review_harness wf.review_model

-- The loop over `container_skills()`, which collects the surface names.
abbrev surface_of : List String → List String → Result (List String)
surface_of names [] = ok names
surface_of names (skill ∷ skills) = do
  let rest = surface_of (skill ∷ names) skills
  raise_if (contains names skill) invalid_workflow
  rest

abbrev keys_free : List String → Table String → Result (Unit {0})
keys_free names [] = ok tt
keys_free names ((operation, dest) ∷ ops) = do
  let rest = keys_free names ops
  raise_if (contains names operation) invalid_workflow
  rest

-- The loop over the labels and their operations.
operations_free : Workflow → List String → List String → Result (Unit {0})
operations_free wf names [] = ok tt
operations_free wf names (label ∷ labels) = do
  let rest = operations_free wf names labels
  ops ← operations wf label
  keys_free names ops
  rest

abbrev pub labels : Workflow → List String
labels wf = map (λ row. row.0) wf.graph.states

-- `_validate_agent_surface`: the names of the universal skills are taken.
unfoldable pub validate_agent_surface : Workflow → Result (Unit {0})
unfolding validate_registration operations_free
validate_agent_surface wf = do
  validate_registration wf
  names ← surface_of ("artifacts" ∷ "provision" ∷ []) wf.skill_names
  operations_free wf names (labels wf)

-- `_rescan_workflows` only adds names; what was added before a refusal stays.
rescan_from : Table Workflow → Table Workflow → Result (Unit {0}) × Table Workflow
unfolding validate_agent_surface
rescan_from [] loaded = (ok tt, loaded)
rescan_from ((name, wf) ∷ found) loaded =
    let skip = rescan_from found loaded in
    let add = rescan_from found (assign name wf loaded) in
    if is_some (lookup name loaded)
    then skip
    else elim (validate_agent_surface wf) [ err e ↦ (err e, loaded) | ok _ ↦ add ]

unfoldable pub rescan_workflows : Service → Result (Unit {0}) × Service
unfolding rescan_from
rescan_workflows s =
    let (r, loaded) = rescan_from s.env.discovered s.workflows in
    (r, record s { workflows = loaded })

-- `_workflow_visible`.
unfoldable pub workflow_visible : Workflow → Repo → Bool
workflow_visible wf repo =
    if contains repo.disabled_workflows wf.name
    then false
    else if wf.opt_in
    then contains repo.enabled_workflows wf.name
    else true

abbrev pub is_terminal_label : String → Bool
is_terminal_label state = state == complete_label || state == dropped_label

abbrev terminal_or_label : Result Bool → String → Bool
terminal_or_label (ok b) state = b
terminal_or_label (err e) state = is_terminal_label state

abbrev terminal_in : Option Workflow → String → Bool
terminal_in none state = is_terminal_label state
terminal_in (some wf) state = terminal_or_label (is_terminal wf state) state

-- `_task_is_terminal`: through the task's workflow, with the built-in labels for a workflow that
-- is not loaded and for a state that the workflow does not have.
unfoldable pub task_is_terminal : Table Workflow → Task → Bool
task_is_terminal workflows t = terminal_in (lookup t.workflow workflows) t.state

abbrev flag_of : (Workflow → Bool) → Option Workflow → Bool
flag_of flag none = false
flag_of flag (some wf) = flag wf

-- `task_orchestrates`, closed for a missing task and an unknown workflow.
unfoldable pub task_orchestrates : Table Workflow → Option Task → Bool
task_orchestrates workflows none = false
task_orchestrates workflows (some t) = flag_of (λ wf. wf.orchestrates) (lookup t.workflow workflows)

unfoldable pub task_configures_repo_credentials : Table Workflow → Option Task → String → Bool
unfolding task_is_terminal
task_configures_repo_credentials workflows none repo_id = false
task_configures_repo_credentials workflows (some t) repo_id =
    if not (t.repo_id == repo_id) || task_is_terminal workflows t
    then false
    else flag_of (λ wf. wf.configures_repo_credentials) (lookup t.workflow workflows)
