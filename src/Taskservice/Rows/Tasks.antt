-- ===== src/Taskservice/Rows/Tasks.antt =====
-- The task rows (store_sqlalchemy.py) under the checks of `create_task` and `save_task`.
use panopticon_next.Base.{
  ℕ, String, Bool, true, false, not, ◌&&◌, Option, none, some, List, [], ◌∷◌, map, Result, ok,
  ◌>>=◌, ◌>>◌, raise_if, or_raise, ◌==◌, if◌then◌else◌, is_some, ltb, not_found, already_exists,
  integrity_error,
}
use panopticon_next.Base.Table.{lookup, put, values}
use panopticon_next.Core.Models.{Responsibility, HistoryEntry, Task}
use panopticon_next.Core.Store.{validate_task_consistency, validate_history_append_only}
use panopticon_next.Taskservice.Rows.{Store, bump}

unfoldable pub same_keys : List Responsibility → List Responsibility → Bool
same_keys [] [] = true
same_keys [] (s ∷ ss) = false
same_keys (r ∷ rs) [] = false
same_keys (r ∷ rs) (s ∷ ss) = r.key == s.key && same_keys rs ss

-- `_fulfil_current_promises` writes statuses and comments only.
unfoldable pub fulfil : List Responsibility → List Responsibility → List Responsibility
fulfil [] ss = []
fulfil (r ∷ rs) [] = r ∷ rs
fulfil (r ∷ rs) (s ∷ ss) = record r { status = s.status; comment = s.comment } ∷ fulfil rs ss

-- The history rows after an update: wakes of stored entries, promises of the last stored entry,
-- and the new entries behind them.
unfoldable pub merge_history : List HistoryEntry → List HistoryEntry → Result (List HistoryEntry)
unfolding same_keys fulfil
merge_history [] incoming = ok incoming
merge_history (p ∷ ps) [] = ok (p ∷ ps)
merge_history (p ∷ []) (c ∷ cs) = do
  raise_if (not (same_keys p.responsibilities c.responsibilities)) integrity_error
  ok (
      record p {
        wake_status = c.wake_status;
        responsibilities = fulfil p.responsibilities c.responsibilities;
      }
      ∷ cs)
merge_history (p ∷ q ∷ ps) (c ∷ cs) = do
  rest ← merge_history (q ∷ ps) cs
  ok (record p { wake_status = c.wake_status } ∷ rest)

-- The columns that a save writes; the others keep the row's value.
abbrev pub updated_row : Task → Task → List HistoryEntry → Task
updated_row row t history = record t {
  id = row.id;
  repo_id = row.repo_id;
  workflow = row.workflow;
  memo = row.memo;
  initial_prompt = row.initial_prompt;
  starting_model = row.starting_model;
  harness = row.harness;
  created_at = row.created_at;
  history = history;
  launch_paused = row.launch_paused;
  launch_pause_reason = row.launch_pause_reason;
}

unfoldable pub create_task : Task → Store → Result Store
create_task t db = do
  validate_task_consistency t
  raise_if (is_some (lookup t.id db.tasks)) already_exists
  repo ← or_raise (lookup t.repo_id db.repos) not_found
  ok (bump (record db { tasks = put t.id t db.tasks }))

unfoldable pub save_task : Task → Store → Result Store
unfolding merge_history
save_task t db = do
  validate_task_consistency t
  row ← or_raise (lookup t.id db.tasks) not_found
  validate_history_append_only row.history t.history
  history ← merge_history row.history t.history
  ok (bump (record db { tasks = put t.id (updated_row row t history) db.tasks }))

-- `list_tasks_summary`: the rows without history, in the order of ids.
unfoldable pub list_tasks_summary : Store → List Task
list_tasks_summary db = map (λ (t : Task). record t { history = [] }) (values db.tasks)

abbrev pub raised_tokens : Option ℕ → ℕ → ℕ
raised_tokens none n = n
raised_tokens (some m) n = if ltb m n then n else m

unfoldable pub set_tokens_used_max : String → ℕ → String → Store → Result (Task × Store)
set_tokens_used_max task_id tokens_used updated_at db = do
  row ← or_raise (lookup task_id db.tasks) not_found
  let row' = record row {
    tokens_used = some (raised_tokens row.tokens_used tokens_used);
    updated_at = some updated_at;
  }
  ok (row', bump (record db { tasks = put task_id row' db.tasks }))
