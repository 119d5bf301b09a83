-- ===== src/Core/Workflow/Lifecycle.antt =====
-- The moves of a task (workflow.py): `start_task`, `apply_transition`, `force_transition` and the
-- bookkeeping that they share. Timestamps come from the caller.
use panopticon_next.Base.{
  String, Bool, true, false, not, ◌&&◌, Option, none, some, List, [], ◌∷◌, ◌++◌, Result, ok, ◌>>=◌,
  ◌>>◌, raise_if, ◌==◌, if◌then◌else◌, illegal_transition, responsibilities_not_met,
}
use panopticon_next.Core.Models.{Actor, WakeStatus, HistoryEntry, Task, eq_actor, dropped_label}
use panopticon_next.Core.Models.Promises.{outstanding_responsibilities}
use panopticon_next.Core.Workflow.{
  Workflow, is_terminal, can_transition, turn_on_enter, responsibilities, state_class,
}

-- `list` truth: a non-empty list is true.
abbrev pub is_nonempty {ℓ} : {A : Type ℓ} → List A → Bool
is_nonempty [] = false
is_nonempty (_ ∷ _) = true

module _ (wf : Workflow) where
  -- Every field that the constructor call leaves out has its default.
  unfoldable pub start_task : String → String → String → Option String → Option String → Result Task
  start_task task_id repo_id at memo initial_prompt = do
    let state = wf.graph.initial
    turn ← turn_on_enter wf state
    promised ← responsibilities wf state
    ok (record {
      id = task_id;
      repo_id = repo_id;
      workflow = wf.name;
      state = state;
      turn = turn;
      blocked = false;
      attention = false;
      memo = memo;
      initial_prompt = initial_prompt;
      slug = none;
      url = none;
      snoozed_until = none;
      branch = none;
      clone = none;
      provisioned_by = none;
      workspace_verified_by = none;
      migration = none;
      claimed_by = none;
      tokens_used = none;
      token_estimate = none;
      starting_model = none;
      harness = none;
      governor_task_id = none;
      created_at = none;
      updated_at = none;
      depends_on_task_ids = [];
      history =
          record {
            at = at;
            from_state = none;
            to_state = state;
            trigger = some "start";
            note = none;
            responsibilities = promised;
            wake_status = WakeStatus.skipped;
          }
          ∷ [];
      launch_paused = false;
      launch_pause_reason = none;
    })

  -- The wake that an entry starts with: pending where the agent holds the turn of a live state.
  abbrev pub first_wake : Bool → Actor → WakeStatus
  first_wake terminal turn =
      if not terminal && eq_actor turn Actor.agent then WakeStatus.pending else WakeStatus.skipped

  unfoldable pub enter : Task → String → String → Option String → Option String → Result Task
  enter t to_state at trigger note = do
    promised ← responsibilities wf to_state
    terminal ← is_terminal wf to_state
    turn ← turn_on_enter wf to_state
    let entry : HistoryEntry = record {
      at = at;
      from_state = some t.state;
      to_state = to_state;
      trigger = trigger;
      note = note;
      responsibilities = promised;
      wake_status = first_wake terminal turn;
    }
    ok (record t { state = to_state; turn = turn; history = t.history ++ entry ∷ [] })

  -- The responsibility gate, which a drop bypasses.
  unfoldable pub gate : Task → String → Result (Unit {0})
  gate t to_state = if to_state == dropped_label then ok tt else do
    outstanding ← outstanding_responsibilities t
    raise_if (is_nonempty outstanding) responsibilities_not_met

  unfoldable pub apply_transition :
      Task → String → String → Option String → Option String → Result Task
  unfolding gate enter
  apply_transition t to_state at trigger note = do
    terminal ← is_terminal wf t.state
    raise_if terminal illegal_transition
    legal ← can_transition wf t.state to_state
    raise_if (not legal) illegal_transition
    gate t to_state
    enter t to_state at trigger note

  unfoldable pub force_transition :
      Task → String → String → Option String → Option String → Result Task
  unfolding enter
  force_transition t to_state at trigger note = do
    cls ← state_class wf to_state
    enter t to_state at trigger note
