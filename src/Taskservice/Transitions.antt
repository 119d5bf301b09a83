-- ===== src/Taskservice/Transitions.antt =====
-- The moves of a stored task (service.py): named operations, transitions, the user's free moves,
-- the review task that a move into REVIEW creates, the cascade of a governor's drop, the
-- resolution of responsibilities and the settling of stage-entry wakes.
pub mod Guarantees
use panopticon_next.Base.{
  ℕ, zero, suc, ◌+◌, String, Bool, true, false, not, ◌&&◌, ◌||◌, Option, none, some, List, [], ◌∷◌,
  ◌++◌, Result, ok, err, Error, ◌==◌, if◌then◌else◌, is_some, is_given, or_else, any, length, set,
  get_elem?, eq_option, concat, value_error, index_error, recursion_error, invalid_workflow,
}
use panopticon_next.Base.Exec.{Exec, pure, raise, raise_if, lift, require, when, ◌>>=◌, ◌>>◌}
use panopticon_next.Base.Table.{Table, lookup}
use panopticon_next.Core.Models.{
  Actor, Status, WakeStatus, Responsibility, HistoryEntry, Task, eq_actor, eq_wake, dropped_label,
}
use panopticon_next.Core.Models.Promises.{
  current_entry, set_last, resolve_responsibility as resolve_promise, outstanding_responsibilities,
}
use panopticon_next.Core.Workflow.{Workflow, resolve_operation, operations, advanced_by}
use panopticon_next.Core.Workflow.Lifecycle.{apply_transition, force_transition, is_nonempty}
use panopticon_next.Taskservice.Rows.Tasks.{list_tasks_summary}
use panopticon_next.Taskservice.State.{Service, Method, now, get_task, workflow, save_task}
use panopticon_next.Taskservice.Workflows.{task_is_terminal}
use panopticon_next.Taskservice.Create.{create_task}

abbrev pub review_key : String
review_key = "review-addressed"

-- The gate promise is added to the entry unless it is there.
add_review_promise : List Responsibility → List Responsibility
add_review_promise rs =
    if any (λ r. r.key == review_key) rs
    then rs
    else rs
      ++ record {
        key = review_key;
        description = "Address the governed review verdict before advancing.";
        status = Status.pending;
        comment = none;
      }
        ∷ []

abbrev with_failure : Option String → String → String
with_failure note failure =
    if is_given note then concat (or_else note "") (concat "\n" failure) else failure

-- A refused review task is noted on the entry and does not undo the move; a created one blocks.
abbrev review_outcome : Service → Task → HistoryEntry → Result Task → Task
review_outcome s task entry (ok created) = record task { blocked = true }
review_outcome s task entry (err e) =
    let failure = concat "Review task creation failed: " (s.env.message e) in
    record task {
      history =
          set_last task.history (record entry { note = some (with_failure entry.note failure) });
    }

abbrev enters_review : Task → Workflow → Bool
enters_review task wf = task.state == "REVIEW" && is_some wf.review_harness

-- `_create_review_task_on_entry`.
unfoldable pub create_review_task_on_entry : Task → Workflow → Method Task
unfolding add_review_promise
create_review_task_on_entry task wf =
    if enters_review task wf
    then (do
      entry ← require (current_entry task) index_error
      let entry' = record entry { responsibilities = add_review_promise entry.responsibilities }
      let task' = record task { history = set_last task.history entry' }
      λ s.
          let (r, s') =
            create_task
              (record {
                repo_id = task.repo_id;
                workflow_name = "review";
                memo = none;
                governor_task_id = some task.id;
                initial_prompt = none;
                harness = wf.review_harness;
                starting_model = wf.review_model;
                artifacts = [];
                depends_on_task_ids = [];
              })
              s in
          (ok (review_outcome s' task' entry' r), s'))
    else pure task

abbrev pub move :
    Bool → Workflow → Task → String → String → Option String → Option String → Result Task
move true wf task to_state at trigger note = force_transition wf task to_state at trigger note
move false wf task to_state at trigger note = apply_transition wf task to_state at trigger note

-- `_commit_transition` at the time that it took. The workflows' `on_transition` hook is the empty
-- default.
unfoldable pub commit_at :
    Task → Workflow → String → Bool → Option String → Option String → String → Method Task
unfolding create_review_task_on_entry
commit_at task wf to_state force trigger note at = do
  moved ← lift (move force wf task to_state at trigger note)
  reviewed ← create_review_task_on_entry (record moved { blocked = false }) wf
  save_task reviewed

unfoldable pub commit_transition :
    Task → Workflow → String → Bool → Option String → Option String → Method Task
unfolding commit_at
commit_transition task wf to_state force trigger note = do
  at ← now
  commit_at task wf to_state force trigger note at

-- The loop of `_cascade_drop_governed` over a snapshot of the tasks.
cascade_child : (String → Method Task) → String → Task → Method (Unit {0})
cascade_child drop_child governor_id child s =
    if eq_option child.governor_task_id (some governor_id)
      && not (task_is_terminal s.workflows child)
    then (do dropped ← drop_child child.id; pure tt) s
    else (ok tt, s)

unfoldable pub cascade_over : (String → Method Task) → String → List Task → Method (Unit {0})
unfolding cascade_child
cascade_over drop_child governor_id [] = pure tt
cascade_over drop_child governor_id (child ∷ rest) = do
  cascade_child drop_child governor_id child
  cascade_over drop_child governor_id rest

-- `_cascade_after_transition`.
unfoldable pub cascade_after_transition : (String → Method Task) → Task → Method Task
unfolding cascade_over
cascade_after_transition drop_child task s =
    if task.state == dropped_label
    then (do cascade_over drop_child task.id (list_tasks_summary s.db); pure task) s
    else (ok task, s)

-- `request_transition`, with the depth of nested cascades as fuel.
unfoldable pub transition_within : ℕ → String → String → Option String → Option String → Method Task
unfolding commit_transition cascade_after_transition
transition_within zero _ _ _ _ = raise recursion_error
transition_within (suc depth) task_id to_state trigger note = do
  task ← get_task task_id
  wf ← workflow task.workflow
  task' ← commit_transition task wf to_state false trigger note
  cascade_after_transition
      (λ child. transition_within depth child dropped_label (some "cascade-drop") note) task'

-- Each nested cascade starts at a task that has just become terminal, so that the number of tasks
-- bounds the depth.
abbrev pub depth_of : Service → ℕ
depth_of s = length s.db.tasks + 1

abbrev pub drop_governed : Option String → String → Method Task
drop_governed note child s =
    transition_within (depth_of s) child dropped_label (some "cascade-drop") note s

unfoldable pub request_transition : String → String → Option String → Option String → Method Task
request_transition task_id to_state trigger note s =
    transition_within (depth_of s) task_id to_state trigger note s

unfoldable pub apply_operation : String → String → Option String → Method Task
unfolding commit_transition cascade_after_transition
apply_operation task_id operation note = do
  task ← get_task task_id
  wf ← workflow task.workflow
  to_state ← lift (resolve_operation wf task.state operation)
  task' ← commit_transition task wf to_state false (some operation) note
  cascade_after_transition (drop_governed note) task'

-- The user's free move.
unfoldable pub set_state : String → String → Option String → Method Task
unfolding commit_transition cascade_after_transition
set_state task_id to_state note = do
  task ← get_task task_id
  wf ← workflow task.workflow
  task' ← commit_transition task wf to_state true (some "set-state") note
  cascade_after_transition (drop_governed note) task'

-- The automatic advance after the last promise is resolved.
abbrev advance_or_save : Workflow → Task → Option String → Method Task
advance_or_save wf task none = save_task task
advance_or_save wf task (some dest) = do
  by ← lift (advanced_by wf task.state)
  if eq_actor by Actor.agent
      then (do
        task' ← commit_transition task wf dest false (some "advance") none
        cascade_after_transition (drop_governed none) task')
      else save_task task

unfoldable pub resolve_responsibility : String → String → Status → Option String → Method Task
unfolding commit_transition cascade_after_transition
resolve_responsibility task_id key status comment = do
  task ← get_task task_id
  resolved ← lift (resolve_promise task key status comment)
  outstanding ← lift (outstanding_responsibilities resolved)
  if is_nonempty outstanding then save_task resolved else (do
    wf ← workflow resolved.workflow
    ops ← lift (operations wf resolved.state)
    advance_or_save wf resolved (lookup "advance" ops))

-- `record_stage_entry_wake`. An index is a natural number here; the source refuses a negative one
-- like one past the end.
unfoldable pub record_stage_entry_wake : String → ℕ → WakeStatus → Method Task
record_stage_entry_wake task_id index status = do
  raise_if (eq_wake status WakeStatus.pending) value_error
  task ← get_task task_id
  entry ← require (get_elem? task.history index) value_error
  if eq_wake entry.wake_status status then pure task else (do
    raise_if (not (eq_wake entry.wake_status WakeStatus.pending)) value_error
    save_task
        (record task { history = set task.history index (record entry { wake_status = status }) }))
