-- ===== src/Taskservice/Sessions.antt =====
-- The remote access to a task's terminal session (service.py): durable inputs with their
-- idempotency keys, their settlement by the owning runner, and the published transcripts.
pub mod Waiting
pub mod Pending
use panopticon_next.Base.{
  ℕ, String, Bool, true, false, not, ◌&&◌, ◌||◌, Option, none, some, List, [], ◌∷◌, Result, ok, err,
  ◌==◌, if◌then◌else◌, is_some, eq_option, any, session_conflict, not_found,
}
use panopticon_next.Base.Exec.{pure, raise, raise_if, gets, modify, require, ◌>>=◌, ◌>>◌}
use panopticon_next.Base.Table.{lookup}
use panopticon_next.Core.Models.{
  Actor, ContainerStatus, SessionInput, SessionInputStatus, SessionTranscript, Task, eq_actor,
}
use panopticon_next.Taskservice.Rows.{Store}
use panopticon_next.Taskservice.Rows.Sessions.{
  find_key, list_session_inputs as list_rows, create_session_input as create_row,
  get_session_input as get_row, settle_session_input as settle_row,
  put_session_transcript as put_transcript_row,
}
use panopticon_next.Taskservice.State.{Service, Method, now, mint, get_task}
use panopticon_next.Taskservice.Workflows.{task_is_terminal}
use panopticon_next.Taskservice.Liveness.{container_status, owner_is_live}

abbrev pub is_pending_input : SessionInputStatus → Bool
is_pending_input SessionInputStatus.pending = true
is_pending_input _ = false

abbrev eq_bool : Bool → Bool → Bool
eq_bool true b = b
eq_bool false b = not b

abbrev is_live : ContainerStatus → Bool
is_live ContainerStatus.live = true
is_live _ = false

-- A transaction on the store that gives a value back.
abbrev transact : (Store → Result (SessionInput × Store)) → Method SessionInput
transact write s = elim (write s.db) [ ok r ↦ (ok r.0, record s { db = r.1 }) | err e ↦ (err e, s) ]

-- The session takes input while the agent waits for the user in a live container on a live host.
unfoldable pub accepts_input : Service → Task → Bool
accepts_input s t = not (
    task_is_terminal s.workflows t
    || not (is_some t.claimed_by)
    || not (owner_is_live s t.claimed_by)
    || not (is_live (container_status s t false))
    || not (eq_actor t.turn Actor.user))

-- A key that is not yet used: at most one input waits at a time.
unfoldable pub enqueue :
    Task → List SessionInput → String → String → Bool → String → Method SessionInput
unfolding accepts_input
enqueue t existing task_id text submit key = do
  raise_if (any (λ i. is_pending_input i.status) existing) session_conflict
  λ s. raise_if (not (accepts_input s t)) session_conflict s
  id ← mint
  at ← now
  transact (
      create_row (record {
        id = id;
        task_id = task_id;
        idempotency_key = key;
        text = text;
        submit = submit;
        status = SessionInputStatus.pending;
        created_at = at;
        settled_at = none;
        failure_reason = none;
      }))

-- A key that is used answers with its input, and refuses another one.
abbrev replay : SessionInput → String → Bool → Method SessionInput
replay i text submit =
    if not (i.text == text) || not (eq_bool i.submit submit) then raise session_conflict else pure i

abbrev replay_or_enqueue :
    Option SessionInput
    → Task
    → List SessionInput
    → String
    → String
    → Bool
    → String
    → Method SessionInput
replay_or_enqueue (some i) t existing task_id text submit key = replay i text submit
replay_or_enqueue none t existing task_id text submit key =
    enqueue t existing task_id text submit key

unfoldable pub create_session_input : String → String → Bool → String → Method SessionInput
unfolding enqueue
create_session_input task_id text submit key = do
  t ← get_task task_id
  existing ← gets (λ s. list_rows task_id s.db)
  replay_or_enqueue (find_key key existing) t existing task_id text submit key

unfoldable pub list_session_inputs : String → Method (List SessionInput)
list_session_inputs task_id = do t ← get_task task_id; gets (λ s. list_rows task_id s.db)

abbrev pub get_session_input : String → String → Method SessionInput
get_session_input task_id delivery_id = do
  t ← get_task task_id
  λ s. require (get_row task_id delivery_id s.db) not_found s

abbrev failure_of : SessionInputStatus → Option String
failure_of SessionInputStatus.failed = some "tmux-delivery-failed"
failure_of _ = none

unfoldable pub settle_session_input :
    String → String → String → SessionInputStatus → Method SessionInput
settle_session_input task_id delivery_id runner_id status = do
  t ← get_task task_id
  raise_if (not (eq_option t.claimed_by (some runner_id))) session_conflict
  raise_if (is_pending_input status) session_conflict
  delivery ← get_session_input task_id delivery_id
  if not (is_pending_input delivery.status) then pure delivery else (do
    at ← now
    transact (
        settle_row (record delivery {
          status = status;
          settled_at = some at;
          failure_reason = failure_of status;
        })))

unfoldable pub publish_session_transcript :
    String → String → String → ℕ → ℕ → Bool → Method SessionTranscript
publish_session_transcript task_id runner_id text columns rows truncated = do
  t ← get_task task_id
  raise_if (not (eq_option t.claimed_by (some runner_id))) session_conflict
  at ← now
  let transcript : SessionTranscript = record {
    task_id = task_id;
    runner_id = runner_id;
    text = text;
    columns = columns;
    rows = rows;
    truncated = truncated;
    received_at = at;
  }
  modify (λ s. record s { db = put_transcript_row transcript s.db })
  pure transcript

unfoldable pub get_session_transcript : String → Method SessionTranscript
get_session_transcript task_id = do
  t ← get_task task_id
  λ s. require (lookup task_id s.db.transcripts) not_found s
