-- ===== src/Core/Store.antt =====
-- The integrity rules of src/panopticon/core/store.py, which the store's base class runs before
-- every create and save.
pub mod History
use panopticon_next.Base.{
  String, Bool, true, false, not, ◌&&◌, ◌||◌, Option, none, some, List, [], ◌∷◌, Result, ok, err,
  ◌>>=◌, ◌>>◌, raise_if, or_raise, ◌==◌, eq_option, ltb, length, get_last?, integrity_error,
  index_error, if◌then◌else◌,
}
use panopticon_next.Core.Models.{Status, WakeStatus, Responsibility, HistoryEntry, Task, eq_wake}

unfoldable pub validate_task_consistency : Task → Result (Unit {0})
validate_task_consistency t = do
  last ← or_raise (get_last? t.history) integrity_error
  raise_if (not (t.state == last.to_state)) integrity_error

-- `_transition_facts(prev) == _transition_facts(cur)`.
pub same_facts : HistoryEntry → HistoryEntry → Bool
same_facts p c =
    p.at == c.at
    && eq_option p.from_state c.from_state
    && p.to_state == c.to_state
    && eq_option p.trigger c.trigger
    && eq_option p.note c.note

-- A wake that changes was pending and is settled now.
pub wake_allowed : WakeStatus → WakeStatus → Bool
wake_allowed prev cur =
    eq_wake prev cur || (eq_wake prev WakeStatus.pending && not (eq_wake cur WakeStatus.pending))

pub eq_status : Status → Status → Bool
eq_status Status.pending Status.pending = true
eq_status Status.met Status.met = true
eq_status Status.failed Status.failed = true
eq_status _ _ = false

pub eq_responsibility : Responsibility → Responsibility → Bool
unfolding eq_status
eq_responsibility r s =
    r.key == s.key
    && r.description == s.description
    && eq_status r.status s.status
    && eq_option r.comment s.comment

pub eq_responsibilities : List Responsibility → List Responsibility → Bool
unfolding eq_responsibility
eq_responsibilities [] [] = true
eq_responsibilities [] (s ∷ ss) = false
eq_responsibilities (r ∷ rs) [] = false
eq_responsibilities (r ∷ rs) (s ∷ ss) = eq_responsibility r s && eq_responsibilities rs ss

-- Only the last stored entry may change its promises.
abbrev pub final_promises : List HistoryEntry → HistoryEntry → HistoryEntry → Bool
final_promises [] p c = true
final_promises (_ ∷ _) p c = eq_responsibilities p.responsibilities c.responsibilities

-- The loop over the stored entries; the length was checked before it.
pub entries_append_only : List HistoryEntry → List HistoryEntry → Result (Unit {0})
unfolding same_facts wake_allowed
entries_append_only [] incoming = ok tt
entries_append_only (p ∷ ps) [] = err index_error
entries_append_only (p ∷ ps) (c ∷ cs) = do
  let rest = entries_append_only ps cs
  raise_if (not (same_facts p c)) integrity_error
  raise_if (not (wake_allowed p.wake_status c.wake_status)) integrity_error
  raise_if (not (final_promises ps p c)) integrity_error
  rest

unfoldable pub validate_history_append_only :
    List HistoryEntry → List HistoryEntry → Result (Unit {0})
unfolding entries_append_only
validate_history_append_only stored incoming = do
  raise_if (ltb (length incoming) (length stored)) integrity_error
  entries_append_only stored incoming
