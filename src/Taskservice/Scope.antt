-- ===== src/Taskservice/Scope.antt =====
-- What a task's own credential may do (taskservice/auth_scope.py): its relation to the task that a
-- request names, and the decision on the action.
pub mod Governance
pub mod Decisions
use panopticon_next.Base.{
  ℕ, zero, suc, ◌+◌, String, Bool, true, false, not, ◌&&◌, ◌||◌, Option, none, some, List, [], ◌∷◌,
  ◌++◌, Result, ok, err, ◌>>=◌, or_raise, ◌==◌, if◌then◌else◌, is_some, any, contains, length,
  recursion_error, index_error,
}
use panopticon_next.Base.Table.{Table, lookup, assign, values}
use panopticon_next.Core.Models.{Responsibility, HistoryEntry, Task}
use panopticon_next.Core.Models.Promises.{current_entry}
use panopticon_next.Taskservice.State.{Service}
use panopticon_next.Taskservice.Workflows.{task_orchestrates}

pub data Relation : Type 0 where
  self governed unrelated missing : Relation

pub data Action : Type 0 where
  read_task read_task_metadata invoke_operation request_transition set_state : Action
  resolve_responsibility set_slug set_url set_tokens_used set_token_estimate set_turn : Action
  set_blocked set_attention set_dependencies record_stage_entry_wake put_artifact : Action
  list_artifacts read_artifact create_session_input read_session_input_status : Action
  read_session_transcript register_container deregister_container task_liveness claim_task : Action
  provision_task migrate_task report_lifecycle report_launcher_failure set_governor : Action
  snooze_task preplan_child create_child list_workflows : Action

pub record Target : Type 0 where
  pub task_id : String
  pub relation : Relation
  pub orchestrates : Bool

-- The status and the body of a refusal are constants of the source.
pub record ScopeDecision : Type 0 where
  pub allowed : Bool
  pub subject_task_id : String
  pub target_task_id : String

-- Membership in `_SELF_ACTIONS`.
abbrev pub is_self_action : Action → Bool
is_self_action Action.record_stage_entry_wake = false
is_self_action Action.claim_task = false
is_self_action Action.provision_task = false
is_self_action Action.migrate_task = false
is_self_action Action.report_lifecycle = false
is_self_action Action.set_governor = false
is_self_action Action.snooze_task = false
is_self_action Action.preplan_child = false
is_self_action Action.create_child = false
is_self_action Action.list_workflows = false
is_self_action _ = true

-- Membership in `_CHILD_ACTIONS`.
abbrev pub is_child_action : Action → Bool
is_child_action Action.read_task = true
is_child_action Action.read_task_metadata = true
is_child_action Action.put_artifact = true
is_child_action Action.list_artifacts = true
is_child_action Action.read_artifact = true
is_child_action Action.set_slug = true
is_child_action Action.set_token_estimate = true
is_child_action Action.set_turn = true
is_child_action Action.set_dependencies = true
is_child_action _ = false

abbrev is_preplan : Action → Bool
is_preplan Action.preplan_child = true
is_preplan _ = false

abbrev allows : String → Action → Target → Relation → Bool
allows subject action target Relation.self = target.task_id == subject && is_self_action action
allows subject action target Relation.governed =
    target.orchestrates && (is_child_action action || is_preplan action)
allows subject action target _ = false

-- `authorize`; the check of the argument types is the typing here.
unfoldable pub authorize : String → Action → Target → ScopeDecision
authorize subject action target = record {
  allowed = allows subject action target target.relation;
  subject_task_id = subject;
  target_task_id = target.task_id;
}

-- `{task.id: task for task in tasks}`.
unfoldable pub index_by_id : Table Task → List Task → Table Task
index_by_id rows [] = rows
index_by_id rows (t ∷ ts) = index_by_id (assign t.id t rows) ts

unfoldable pub by_id : List Task → Table Task
unfolding index_by_id
by_id tasks = index_by_id [] tasks

-- A governor id that counts: not empty.
abbrev pub given_governor : Option String → Option String
given_governor none = none
given_governor (some g) = if g == "" then none else some g

-- The walk up the governors, from the target on. A round takes a task that was not seen before.
unfoldable pub walk : ℕ → Table Task → String → List String → Task → Result Relation
walk zero rows subject seen current = err recursion_error
walk (suc fuel) rows subject seen current = elim (given_governor current.governor_task_id) [
  | none ↦ ok Relation.unrelated
  | some g ↦
      let next : Result Relation = elim (lookup g rows) [
        | none ↦ ok Relation.unrelated
        | some u ↦ walk fuel rows subject (seen ++ current.id ∷ []) u
      ] in
      if contains seen current.id
      then ok Relation.unrelated
      else if g == subject
      then ok Relation.governed
      else next
]

abbrev pub is_self : String → Task → Option Task → Bool
is_self subject target subject_task = target.id == subject && is_some subject_task

unfoldable pub relation_to : String → Option Task → Table Task → Result Relation
unfolding walk
relation_to subject none rows = ok Relation.missing
relation_to subject (some target) rows =
    let governed = walk (length rows + 1) rows subject [] target in
    if is_self subject target (lookup subject rows) then ok Relation.self else governed

-- `_target`.
unfoldable pub target_of : Service → String → String → List Task → Result Target
unfolding relation_to
target_of s subject target_id tasks = do
  relation ← relation_to subject (lookup target_id (by_id tasks)) (by_id tasks)
  ok (record {
    task_id = target_id;
    relation = relation;
    orchestrates = task_orchestrates s.workflows (lookup subject (by_id tasks));
  })

unfoldable pub decide : Service → String → Action → String → Result ScopeDecision
decide s subject action target_id = do
  target ← target_of s subject target_id (values s.db.tasks)
  ok (authorize subject action target)

-- `next((task for task in tasks if task.id == target_id), None)`.
abbrev find_task : String → List Task → Option Task
find_task task_id [] = none
find_task task_id (t ∷ ts) =
    let rest = find_task task_id ts in if t.id == task_id then some t else rest

-- A governed child's current planning promise.
abbrev is_planning_key : String → Option Task → Result Bool
is_planning_key key none = ok false
is_planning_key key (some t) = if not (t.state == "PLANNING") then ok false else do
  entry ← or_raise (current_entry t) index_error
  ok (any (λ r. r.key == key) entry.responsibilities)

abbrev governs : Target → Relation → Bool
governs target Relation.governed = target.orchestrates
governs target _ = false

abbrev responsibility_decision :
    String → String → Target → Relation → Result Bool → Result ScopeDecision
responsibility_decision subject target_id target Relation.self planning =
    ok (authorize subject Action.resolve_responsibility target)
responsibility_decision subject target_id target relation planning = do
  key ← planning
  ok (record {
    allowed = governs target relation && key;
    subject_task_id = subject;
    target_task_id = target_id;
  })

unfoldable pub decide_responsibility : Service → String → String → String → Result ScopeDecision
decide_responsibility s subject target_id key = do
  target ← target_of s subject target_id (values s.db.tasks)
  responsibility_decision subject target_id target target.relation
      (is_planning_key key (find_task target_id (values s.db.tasks)))

-- The loop over the proposed dependencies, each a target of its own.
decide_each : Service → String → String → ScopeDecision → List String → Result ScopeDecision
unfolding authorize
decide_each s subject target_id primary [] = ok primary
decide_each s subject target_id primary (d ∷ ds) =
    let rest = decide_each s subject target_id primary ds in
    let refused : ScopeDecision = record {
      allowed = false;
      subject_task_id = subject;
      target_task_id = target_id;
    } in
    if d == "" then rest else do
      target ← target_of s subject d (values s.db.tasks)
      if (authorize subject Action.set_dependencies target).allowed then rest else ok refused

unfoldable pub decide_dependencies : Service → String → String → List String → Result ScopeDecision
unfolding decide_each authorize
decide_dependencies s subject target_id dep_ids = do
  target ← target_of s subject target_id (values s.db.tasks)
  let primary = authorize subject Action.set_dependencies target
  let each = decide_each s subject target_id primary dep_ids
  if primary.allowed then each else ok primary
