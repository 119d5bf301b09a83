-- ===== src/Taskservice/Rows/Sessions.antt =====
-- The rows of remote session inputs and of session transcripts (store_sqlalchemy.py). The rows
-- stand in the order in which they were added.
use panopticon_next.Base.{
  String, Option, none, some, List, [], ◌∷◌, Result, ok, err, ◌>>=◌, ◌==◌, if◌then◌else◌, is_some,
  select, or_raise, not_found, integrity_error, before,
}
use panopticon_next.Base.Table.{lookup, assign, values}
use panopticon_next.Core.Models.{SessionInput, SessionTranscript}
use panopticon_next.Taskservice.Rows.{Store, bump}

-- `order_by(created_at)`.
unfoldable pub insert_by_created : SessionInput → List SessionInput → List SessionInput
insert_by_created i [] = i ∷ []
insert_by_created i (j ∷ js) =
    let rest = insert_by_created i js in
    if before i.created_at j.created_at then i ∷ j ∷ js else j ∷ rest

unfoldable pub by_created : List SessionInput → List SessionInput
unfolding insert_by_created
by_created [] = []
by_created (i ∷ is) = insert_by_created i (by_created is)

unfoldable pub list_session_inputs : String → Store → List SessionInput
unfolding by_created
list_session_inputs task_id db = by_created (select (λ i. i.task_id == task_id) (values db.inputs))

-- The first input of a list with the key.
abbrev pub find_key : String → List SessionInput → Option SessionInput
find_key key [] = none
find_key key (i ∷ is) =
    let rest = find_key key is in if i.idempotency_key == key then some i else rest

-- The primary key refuses an id that is taken.
unfoldable pub create_session_input : SessionInput → Store → Result (SessionInput × Store)
create_session_input delivery db =
    elim (find_key delivery.idempotency_key
      (select (λ i. i.task_id == delivery.task_id) (values db.inputs))) [
        | some existing ↦ ok (existing, bump db)
        | none ↦
            if is_some (lookup delivery.id db.inputs)
            then err integrity_error
            else ok (delivery, bump (record db { inputs = assign delivery.id delivery db.inputs }))
      ]

abbrev of_task : String → Option SessionInput → Option SessionInput
of_task task_id none = none
of_task task_id (some i) = if i.task_id == task_id then some i else none

unfoldable pub get_session_input : String → String → Store → Option SessionInput
get_session_input task_id delivery_id db = of_task task_id (lookup delivery_id db.inputs)

unfoldable pub settle_session_input : SessionInput → Store → Result (SessionInput × Store)
unfolding get_session_input
settle_session_input delivery db = do
  row ← or_raise (get_session_input delivery.task_id delivery.id db) not_found
  let row' = record row {
    status = delivery.status;
    settled_at = delivery.settled_at;
    failure_reason = delivery.failure_reason;
  }
  ok (delivery, bump (record db { inputs = assign delivery.id row' db.inputs }))

-- Transcripts do not bump the version.
unfoldable pub put_session_transcript : SessionTranscript → Store → Store
put_session_transcript t db = record db { transcripts = assign t.task_id t db.transcripts }
