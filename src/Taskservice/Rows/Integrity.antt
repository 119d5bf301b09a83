-- ===== src/Taskservice/Rows/Integrity.antt =====
-- What a save guarantees of the rows: a task's recorded history is only extended, the row stays
-- consistent, other rows are not touched, and a read gives back what was saved.
use panopticon_next.Base.{
  String, ◌≡◌, ◌≢◌, ◌↔◌, sym, not_found, refl, ap, ◌∙◌, some, List, [], ◌∷◌, arith, ok, or_raise,
  >>=-eq-ok, get_last?, eq_iff,
}
use panopticon_next.Base.Table.{lookup, put, lookup-put_self, lookup-put_ne}
use panopticon_next.Core.Models.{Responsibility, HistoryEntry, Task}
use panopticon_next.Core.Store.{validate_task_consistency, validate_history_append_only}
use panopticon_next.Core.Store.History.{SameFacts, Extends, validate_history_append_only_iff}
use panopticon_next.Taskservice.Rows.{Store, bump}
use panopticon_next.Taskservice.Rows.Tasks.{fulfil, merge_history, updated_row, save_task}

-- The row of a stored entry keeps the entry's facts.
kept : (p : HistoryEntry) (rs : List Responsibility) (c : HistoryEntry) → HistoryEntry
kept p rs c = record p { wake_status = c.wake_status; responsibilities = rs }

kept-SameFacts :
    (p : HistoryEntry) (rs : List Responsibility) (c : HistoryEntry) → SameFacts p (kept p rs c)
unfolding kept
kept-SameFacts p rs c = record {
  at = refl;
  from_state = refl;
  to_state = refl;
  trigger = refl;
  note = refl;
}

module _ (p c : HistoryEntry) (cs : List HistoryEntry) where
  merge_last :
      (h : List HistoryEntry)
      → merge_history (p ∷ []) (c ∷ cs) ≡ ok h
      → h ≡ kept p (fulfil p.responsibilities c.responsibilities) c ∷ cs
  unfolding merge_history kept
  merge_last h e = ground arith

  merge_more :
      (q : HistoryEntry) (ps h : List HistoryEntry)
      → merge_history (p ∷ q ∷ ps) (c ∷ cs) ≡ ok h
      → (rest : List HistoryEntry) × (merge_history (q ∷ ps) cs ≡ ok rest)
        × (h ≡ kept p p.responsibilities c ∷ rest)
  unfolding merge_history kept
  merge_more q ps h e =
      let (rest, r, last) = >>=-eq-ok (merge_history (q ∷ ps) cs) _ e in (rest, r, ground arith)

merge_history-Extends :
    (stored incoming h : List HistoryEntry)
    → Extends stored incoming
    → merge_history stored incoming ≡ ok h
    → Extends stored h
merge_history-Extends [] incoming h x e = tt
merge_history-Extends (p ∷ ps) [] h x e = absurd x
merge_history-Extends (p ∷ []) (c ∷ cs) h x e =
    rw (merge_last p c cs h e) (kept-SameFacts p _ c, unfold kept in x.1, tt, tt)
merge_history-Extends (p ∷ q ∷ ps) (c ∷ cs) h x e =
    let (rest, r, split) = merge_more p c cs q ps h e in
    rw split (
      kept-SameFacts p _ c,
      unfold kept in x.1,
      unfold kept in refl,
      merge_history-Extends (q ∷ ps) cs rest x.3 r,
    )

-- The state that the last entry of a history leads to, or `d` for an empty one.
abbrev last_to : String → List HistoryEntry → String
last_to d [] = d
last_to d (e ∷ h) = last_to e.to_state h

-- A history is not empty and leads to `s`.
abbrev LeadsTo : String → List HistoryEntry → Type 0
LeadsTo s [] = ⊥
LeadsTo s (e ∷ h) = s ≡ last_to e.to_state h

last_entry :
    (e : HistoryEntry) (h : List HistoryEntry)
    → (l : HistoryEntry) × (get_last? (e ∷ h) ≡ some l) × (l.to_state ≡ last_to e.to_state h)
last_entry e [] = (e, refl, refl)
last_entry e (f ∷ h) = last_entry f h

consistent_iff : (t : Task) → (validate_task_consistency t ≡ ok tt) ↔ LeadsTo t.state t.history
unfolding validate_task_consistency
consistent_iff t = go t.history refl
  where
    go :
        (h : List HistoryEntry)
        → t.history ≡ h
        → (validate_task_consistency t ≡ ok tt) ↔ LeadsTo t.state t.history
    go [] e = rw (e, validate_task_consistency) (λ x. cc, λ x. absurd x)
    go (f ∷ h) e =
        let (l, found, leads) = last_entry f h in
        rw (e, validate_task_consistency)
          (rw found (
            λ x. ground (arith, eq_iff t.state l.to_state),
            λ x. ground (arith, eq_iff t.state l.to_state),
          ))

merge_history-last :
    (stored incoming h : List HistoryEntry) (d : String)
    → Extends stored incoming
    → merge_history stored incoming ≡ ok h
    → last_to d h ≡ last_to d incoming
unfolding merge_history kept
merge_history-last [] incoming h d x e = let same : h ≡ incoming = ground arith in rw same refl
merge_history-last (p ∷ ps) [] h d x e = absurd x
merge_history-last (p ∷ []) (c ∷ cs) h d x e =
    rw (merge_last p c cs h e) (ap (λ s. last_to s cs) x.0.to_state)
merge_history-last (p ∷ q ∷ ps) (c ∷ cs) h d x e =
    let (rest, r, split) = merge_more p c cs q ps h e in
    rw split
      (merge_history-last (q ∷ ps) cs rest p.to_state x.3 r ∙ ap (λ s. last_to s cs) x.0.to_state)

merge_history-LeadsTo :
    (stored incoming h : List HistoryEntry) (s : String)
    → Extends stored incoming
    → merge_history stored incoming ≡ ok h
    → LeadsTo s incoming
    → LeadsTo s h
merge_history-LeadsTo [] incoming h s x e l =
    let same : h ≡ incoming = unfold merge_history in ground arith in rw same l
merge_history-LeadsTo (p ∷ ps) [] h s x e l = absurd l
merge_history-LeadsTo (p ∷ []) (c ∷ cs) h s x e l =
    let last = merge_history-last (p ∷ []) (c ∷ cs) h s x e in
    rw (merge_last p c cs h e) (unfold kept in l ∙ ap (λ u. last_to u cs) (sym x.0.to_state))
merge_history-LeadsTo (p ∷ q ∷ ps) (c ∷ cs) h s x e l =
    let (rest, r, split) = merge_more p c cs q ps h e in
    rw split (
      unfold kept in
      l
      ∙ ap (λ u. last_to u cs) (sym x.0.to_state)
      ∙ sym (merge_history-last (q ∷ ps) cs rest p.to_state x.3 r))

-- What a successful save wrote: a row whose history extends the stored one and ends in the saved
-- state, with every other row as it was.
pub record IsSaved (t : Task) (db db' : Store) : Type 0 where
  pub row : Task
  pub was : lookup t.id db.tasks ≡ some row
  pub history : List HistoryEntry
  pub merged : merge_history row.history t.history ≡ ok history
  pub extends : Extends row.history t.history
  pub consistent : validate_task_consistency t ≡ ok tt
  pub wrote : db' ≡ bump (record db { tasks = put t.id (updated_row row t history) db.tasks })

pub save_task-IsSaved :
    (t : Task) (db : Store) {db' : Store} → save_task t db ≡ ok db' → IsSaved t db db'
unfolding save_task
save_task-IsSaved t db e =
    let (_, consistent, e1) = >>=-eq-ok (validate_task_consistency t) _ e in
    let (row, was, e2) = >>=-eq-ok (or_raise (lookup t.id db.tasks) not_found) _ e1 in
    let (_, valid, e3) = >>=-eq-ok (validate_history_append_only row.history t.history) _ e2 in
    let (history, merged, e4) = >>=-eq-ok (merge_history row.history t.history) _ e3 in
    record {
      row = row;
      was = ground arith;
      history = history;
      merged = merged;
      extends = (validate_history_append_only_iff row.history t.history).0 valid;
      consistent = consistent;
      wrote = ground arith;
    }

module _ (t : Task) (db : Store) {db' : Store} (saved : save_task t db ≡ ok db') where
  -- After a save that returns the task's row has a history that extends the one stored before, so no recorded
  -- transition is ever changed or lost; the row is consistent and no other row changed.
  pub save_task-keeps_history :
      (before after : Task) × (lookup t.id db.tasks ≡ some before)
      × (lookup t.id db'.tasks ≡ some after)
      × Extends before.history after.history
      × (validate_task_consistency after ≡ ok tt)
      × ((other : String) → t.id ≢ other → lookup other db'.tasks ≡ lookup other db.tasks)
  save_task-keeps_history =
      let s = save_task-IsSaved t db saved in
      let after = updated_row s.row t s.history in
      (
        s.row,
        after,
        s.was,
        rw s.wrote (lookup-put_self t.id after db.tasks),
        merge_history-Extends s.row.history t.history s.history s.extends s.merged,
        (consistent_iff after).1 (
            merge_history-LeadsTo s.row.history t.history s.history t.state s.extends s.merged
              ((consistent_iff t).0 s.consistent)),
        λ other ne. rw s.wrote (lookup-put_ne t.id other after db.tasks ne),
      )
