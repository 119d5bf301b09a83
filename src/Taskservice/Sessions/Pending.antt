-- ===== src/Taskservice/Sessions/Pending.antt =====
-- At most one session input of a task waits for delivery: an invariant of the rows that creating
-- and settling an input keep.
use panopticon_next.Base.{
  ◌+◌, String, Bool, true, false, none, some, Result, ◌≡◌, sym, arith, ◌∙◌, inl, inr, ◌==◌,
  eq_option, select, Bool-cases, Option-cases, Result-cases,
}
use panopticon_next.Base.Table.{lookup, values}
use panopticon_next.Core.Models.{Task, SessionInput, SessionInputStatus}
use panopticon_next.Taskservice.Rows.{Store}
use panopticon_next.Taskservice.Rows.Sessions.{
  create_session_input as create_row, settle_session_input as settle_row,
  get_session_input as get_row, list_session_inputs, find_key,
}
use panopticon_next.Taskservice.State.{Service}
use panopticon_next.Taskservice.Sessions.{
  transact, enqueue, accepts_input, failure_of, is_pending_input, create_session_input,
  settle_session_input,
}
use panopticon_next.Taskservice.Sessions.Waiting.{
  waiting, any_pending, any-by_created, none_pending-waiting, AtMostOneWaits, Writes, nothing,
  Writes-keeps, row_result, create_row-Writes, settle_row-Writes,
}

transact_db :
    (write : Store → Result (SessionInput × Store)) (s : Service)
    → (transact write s).1.db ≡ row_result s.db (write s.db)
transact_db write s = elim (Result-cases (write s.db)) [
  | inl (r, done) ↦ ground arith
  | inr (e, failed) ↦ ground arith
]

-- The input that `enqueue` adds.
abbrev queued_input : Service → String → String → Bool → String → SessionInput
queued_input s task_id text submit key = record {
  id = s.env.fresh_id s.minted;
  task_id = task_id;
  idempotency_key = key;
  text = text;
  submit = submit;
  status = SessionInputStatus.pending;
  created_at = s.env.clock s.ticks;
  settled_at = none;
  failure_reason = none;
}

module _ (s : Service) (t : Task) (task_id text : String) (submit : Bool) (key : String) where
  enqueue_db :
      any_pending (list_session_inputs task_id s.db) ≡ false
      → accepts_input s t ≡ true
      → (enqueue t (list_session_inputs task_id s.db) task_id text submit key s).1.db
        ≡ row_result s.db (create_row (queued_input s task_id text submit key) s.db)
  unfolding enqueue
  enqueue_db idle accepts = ground (
    arith,
    transact_db (create_row (queued_input s task_id text submit key))
        (record s { minted = s.minted + 1; ticks = s.ticks + 1 }),
  )

  idle-waiting :
      any_pending (list_session_inputs task_id s.db) ≡ false → waiting task_id s.db.inputs ≡ 0
  unfolding list_session_inputs
  idle-waiting idle =
      none_pending-waiting task_id s.db.inputs
        (sym (any-by_created (select (λ i. i.task_id == task_id) (values s.db.inputs))) ∙ idle)

  enqueue-Writes :
      Writes s.db.inputs
        (enqueue t (list_session_inputs task_id s.db) task_id text submit key s).1.db.inputs
  enqueue-Writes = elim (Bool-cases (any_pending (list_session_inputs task_id s.db))) [
    | inl busy ↦ nothing (unfold enqueue in ground arith)
    | inr idle ↦ elim (Bool-cases (accepts_input s t)) [
      | inl accepts ↦
          rw (enqueue_db idle accepts)
            (create_row-Writes s.db (queued_input s task_id text submit key) (idle-waiting idle))
      | inr refuses ↦ nothing (unfold enqueue in ground arith)
    ]
  ]

-- If at most one input of each task waits, creating a session input keeps it so on every outcome.
create_session_input-AtMostOneWaits :
    (s : Service) (task_id text : String) (submit : Bool) (key : String)
    → AtMostOneWaits s.db
    → AtMostOneWaits (create_session_input task_id text submit key s).1.db
unfolding create_session_input AtMostOneWaits
create_session_input-AtMostOneWaits s task_id text submit key most =
    Writes-keeps s.db.inputs (create_session_input task_id text submit key s).1.db.inputs writes
      most
  where
    writes : Writes s.db.inputs (create_session_input task_id text submit key s).1.db.inputs
    writes = elim (Option-cases (lookup task_id s.db.tasks)) [
      | inl missing ↦ nothing (ground arith)
      | inr (t, found) ↦ elim (Option-cases (find_key key (list_session_inputs task_id s.db))) [
        | inl fresh ↦ rw (found, fresh) (enqueue-Writes s t task_id text submit key)
        | inr (i, known) ↦ nothing (ground arith)
      ]
    ]

module _ (s : Service) (task_id delivery_id runner_id : String) (status : SessionInputStatus) where
  -- The input that a settlement writes.
  abbrev settled_input : SessionInput → SessionInput
  settled_input i = record i {
    status = status;
    settled_at = some (s.env.clock s.ticks);
    failure_reason = failure_of status;
  }

  settle_db :
      (t : Task) (i : SessionInput)
      → lookup task_id s.db.tasks ≡ some t
      → eq_option t.claimed_by (some runner_id) ≡ true
      → is_pending_input status ≡ false
      → get_row task_id delivery_id s.db ≡ some i
      → is_pending_input i.status ≡ true
      → (settle_session_input task_id delivery_id runner_id status s).1.db
        ≡ row_result s.db (settle_row (settled_input i) s.db)
  unfolding settle_session_input
  settle_db t i found owned final got pending_now =
      ground (arith, transact_db (settle_row (settled_input i)) (record s { ticks = s.ticks + 1 }))

  settle-Writes :
      Writes s.db.inputs (settle_session_input task_id delivery_id runner_id status s).1.db.inputs
  settle-Writes = elim (Option-cases (lookup task_id s.db.tasks)) [
    | inl missing ↦ nothing (unfold settle_session_input in ground arith)
    | inr (t, found) ↦ elim (Bool-cases (eq_option t.claimed_by (some runner_id))) [
      | inr foreign ↦ nothing (unfold settle_session_input in ground arith)
      | inl owned ↦ elim (Bool-cases (is_pending_input status)) [
        | inl unsettled ↦ nothing (unfold settle_session_input in ground arith)
        | inr final ↦ elim (Option-cases (get_row task_id delivery_id s.db)) [
          | inl missing ↦ nothing (unfold settle_session_input in ground arith)
          | inr (i, got) ↦ elim (Bool-cases (is_pending_input i.status)) [
            | inr done ↦ nothing (unfold settle_session_input in ground arith)
            | inl waiting_now ↦
                rw (settle_db t i found owned final got waiting_now)
                  (settle_row-Writes s.db (settled_input i) final)
          ]
        ]
      ]
    ]
  ]

  -- If at most one input of each task waits, settling one keeps it so on every outcome.
  settle_session_input-AtMostOneWaits :
      AtMostOneWaits s.db
      → AtMostOneWaits (settle_session_input task_id delivery_id runner_id status s).1.db
  unfolding AtMostOneWaits
  settle_session_input-AtMostOneWaits most =
      Writes-keeps s.db.inputs
        (settle_session_input task_id delivery_id runner_id status s).1.db.inputs settle-Writes most

-- If at most one input of each task waits, creating a session input and settling one keep it so, on
-- every outcome.
pub session_inputs-AtMostOneWaits :
    (s : Service)
    → AtMostOneWaits s.db
    → ((task_id text : String) (submit : Bool) (key : String)
        → AtMostOneWaits (create_session_input task_id text submit key s).1.db)
      × ((task_id delivery_id runner_id : String) (status : SessionInputStatus)
          → AtMostOneWaits (settle_session_input task_id delivery_id runner_id status s).1.db)
session_inputs-AtMostOneWaits s most = (
  λ task_id text submit key. create_session_input-AtMostOneWaits s task_id text submit key most,
  λ task_id delivery_id runner_id status.
      settle_session_input-AtMostOneWaits s task_id delivery_id runner_id status most,
)
