-- ===== src/Taskservice/Sessions/Waiting.antt =====
-- The session inputs that wait for delivery, counted on the rows, and what a transaction does to
-- their number.
use panopticon_next.Base.{
  ℕ, suc, ◌+◌, ◌≤◌, String, Bool, false, ◌&&◌, ◌||◌, List, [], ◌∷◌, Result, ok, err, ◌≡◌, refl,
  arith, inl, inr, ◌==◌, eq_iff, if◌then◌else◌, is_some, any, select, Bool-cases, Option-cases,
}
use panopticon_next.Base.Table.{Table, lookup, assign, values}
use panopticon_next.Core.Models.{SessionInput}
use panopticon_next.Taskservice.Rows.{Store}
use panopticon_next.Taskservice.Rows.Sessions.{
  insert_by_created, by_created, create_session_input as create_row,
  settle_session_input as settle_row, get_session_input as get_row, find_key,
}
use panopticon_next.Taskservice.Sessions.{is_pending_input}

-- Whether an input waits for the task's session.
abbrev pub waits : String → SessionInput → Bool
waits task_id i = i.task_id == task_id && is_pending_input i.status

-- The number of inputs that wait for the task.
unfoldable pub waiting : String → Table SessionInput → ℕ
waiting task_id [] = 0
waiting task_id ((k, i) ∷ rows) =
    if waits task_id i then suc (waiting task_id rows) else waiting task_id rows

abbrev pub any_pending : List SessionInput → Bool
any_pending is = any (λ i. is_pending_input i.status) is

pub any-insert_by_created :
    (i : SessionInput) (is : List SessionInput)
    → any_pending (insert_by_created i is) ≡ (is_pending_input i.status || any_pending is)
unfolding insert_by_created
any-insert_by_created i [] = refl
any-insert_by_created i (j ∷ js) = ground (arith, any-insert_by_created i js)

pub any-by_created : (is : List SessionInput) → any_pending (by_created is) ≡ any_pending is
unfolding by_created
any-by_created [] = refl
any-by_created (i ∷ is) = rw (any-insert_by_created, any-by_created is) refl

pub none_pending-waiting :
    (task_id : String) (rows : Table SessionInput)
    → any_pending (select (λ i. i.task_id == task_id) (values rows)) ≡ false
    → waiting task_id rows ≡ 0
unfolding values waiting
none_pending-waiting task_id [] h = refl
none_pending-waiting task_id ((k, i) ∷ rows) h = ground (arith, none_pending-waiting task_id rows)

-- A row that is written adds at most itself to those that wait.
pub waiting-assign :
    (task_id id : String) (i : SessionInput) (rows : Table SessionInput)
    → waiting task_id (assign id i rows) ≤ waiting task_id rows + (if waits task_id i then 1 else 0)
unfolding assign waiting
waiting-assign task_id id i [] = ground arith
waiting-assign task_id id i ((k, j) ∷ rows) = ground (arith, waiting-assign task_id id i rows)

unfoldable pub AtMostOneWaits : Store → Type 0
AtMostOneWaits db = (task_id : String) → waiting task_id db.inputs ≤ 1

-- What an operation does to the input rows: nothing, or one row that does not wait or that is the
-- only one to wait.
pub data Writes (old new : Table SessionInput) : Type 0 where
  nothing : new ≡ old → Writes old new
  settled :
      (id : String) (i : SessionInput)
      → is_pending_input i.status ≡ false
      → new ≡ assign id i old
      → Writes old new
  queued :
      (id : String) (i : SessionInput)
      → waiting i.task_id old ≡ 0
      → new ≡ assign id i old
      → Writes old new

pub Writes-keeps :
    (old new : Table SessionInput)
    → Writes old new
    → ((task_id : String) → waiting task_id old ≤ 1)
    → (task_id : String) → waiting task_id new ≤ 1
Writes-keeps old new (nothing same) most task_id = rw same (most task_id)
Writes-keeps old new (settled id i done wrote) most task_id =
    rw wrote (ground (arith, waiting-assign task_id id i old, most task_id))
Writes-keeps old new (queued id i free wrote) most task_id =
    rw wrote (elim (Bool-cases (i.task_id == task_id)) [
      | inl same ↦
          let none_waits : waiting task_id old ≡ 0 =
            rw ((eq_iff i.task_id task_id).0 same) at free in
          ground (arith, waiting-assign task_id id i old)
      | inr other ↦ ground (arith, waiting-assign task_id id i old, most task_id)
    ])

-- The rows after a transaction.
abbrev pub row_result : Store → Result (SessionInput × Store) → Store
row_result db (ok r) = r.1
row_result db (err e) = db

pub create_row-Writes :
    (db : Store) (i : SessionInput)
    → waiting i.task_id db.inputs ≡ 0
    → Writes db.inputs (row_result db (create_row i db)).inputs
unfolding create_row
create_row-Writes db i free =
    elim (Option-cases
      (find_key i.idempotency_key (select (λ j. j.task_id == i.task_id) (values db.inputs)))) [
        | inl fresh ↦ elim (Bool-cases (is_some (lookup i.id db.inputs))) [
          | inl taken ↦ nothing (ground arith)
          | inr new ↦ queued i.id i free (ground arith)
        ]
        | inr (j, known) ↦ nothing (ground arith)
      ]

pub settle_row-Writes :
    (db : Store) (i : SessionInput)
    → is_pending_input i.status ≡ false
    → Writes db.inputs (row_result db (settle_row i db)).inputs
unfolding settle_row
settle_row-Writes db i done = elim (Option-cases (get_row i.task_id i.id db)) [
  | inl missing ↦ nothing (ground arith)
  | inr (row, found) ↦
      settled i.id
        (record row {
          status = i.status;
          settled_at = i.settled_at;
          failure_reason = i.failure_reason;
        })
        done (ground arith)
]
