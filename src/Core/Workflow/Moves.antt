-- ===== src/Core/Workflow/Moves.antt =====
-- What the moves of a task do: which are allowed, what they record, and that a drop never fails.
use panopticon_next.Base.{
  String, ◌≡◌, refl, ◌⊎◌, inl, inr, true, false, Option, some, [], ◌∷◌, ◌++◌, arith, ok, ◌>>=◌,
  eq_iff, >>=-eq-ok, result_or, get_last?-append, ◌∙◌, ap, eq_refl,
}
use panopticon_next.Core.Models.{HistoryEntry, Task, dropped_label}
use panopticon_next.Core.Models.Promises.{outstanding_responsibilities}
use panopticon_next.Base.Table.{lookup}
use panopticon_next.Core.Workflow.{
  Workflow, StateClass, is_terminal_kind, is_terminal, can_transition, turn_on_enter,
  responsibilities, state_class,
}
use panopticon_next.Core.Workflow.Lifecycle.{
  first_wake, enter, gate, apply_transition, force_transition,
}
use panopticon_next.Core.Workflow.WellFormed.{
  IsWellFormed, turn_on_enter_total, edge-is_state, drop_is_edge,
}
use panopticon_next.Core.Store.{validate_task_consistency, validate_history_append_only}
use panopticon_next.Core.Store.History.{Extends, Extends-append, validate_history_append_only_iff}

-- The entry that records a move to `to_state`.
pub record Records (wf : Workflow) (t : Task) (to_state : String) (e : HistoryEntry) : Type 0 where
  pub from : e.from_state ≡ some t.state
  pub to : e.to_state ≡ to_state
  pub promised : responsibilities wf to_state ≡ ok e.responsibilities

-- `t'` is `t` moved to `to_state`: its state, turn and one new history entry, and no other field.
pub record IsMoved (wf : Workflow) (t : Task) (to_state : String) (t' : Task) : Type 0 where
  pub entry : HistoryEntry
  pub records : Records wf t to_state entry
  pub turn : turn_on_enter wf to_state ≡ ok t'.turn
  pub moved : t' ≡ record t { state = to_state; turn = t'.turn; history = t.history ++ entry ∷ [] }

module _ (wf : Workflow) (t : Task) (to_state at : String) (trigger note : Option String) where
  enter-IsMoved :
      {t' : Task} → enter wf t to_state at trigger note ≡ ok t' → IsMoved wf t to_state t'
  unfolding enter
  enter-IsMoved {t'} h = record {
    entry = record {
      at = at;
      from_state = some t.state;
      to_state = to_state;
      trigger = trigger;
      note = note;
      responsibilities = result_or (responsibilities wf to_state) [];
      wake_status = first_wake wf (result_or (is_terminal wf to_state) false) t'.turn;
    };
    records = record { from = refl; to = refl; promised = ground arith };
    turn = ground arith;
    moved = ground arith;
  }

-- A move that the graph and the gate allow.
pub record IsAllowed (wf : Workflow) (t : Task) (to_state : String) : Type 0 where
  pub live : is_terminal wf t.state ≡ ok false
  pub edge : can_transition wf t.state to_state ≡ ok true
  pub settled : (to_state ≡ dropped_label) ⊎ (outstanding_responsibilities t ≡ ok [])

gate_settled :
    (wf : Workflow) (t : Task) (to_state : String)
    → gate wf t to_state ≡ ok tt
    → (to_state ≡ dropped_label) ⊎ (outstanding_responsibilities t ≡ ok [])
unfolding gate
gate_settled wf t to_state h = ground (arith, eq_iff to_state dropped_label)

settled_gate :
    (wf : Workflow) (t : Task) (to_state : String)
    → (to_state ≡ dropped_label) ⊎ (outstanding_responsibilities t ≡ ok [])
    → gate wf t to_state ≡ ok tt
unfolding gate
settled_gate wf t to_state h = ground (arith, eq_iff to_state dropped_label)

module _ (wf : Workflow) (t : Task) (to_state at : String) (trigger note : Option String) where
  -- The guards of `apply_transition`, apart from what it records.
  apply_transition-eq_enter :
      IsAllowed wf t to_state
      → apply_transition wf t to_state at trigger note ≡ enter wf t to_state at trigger note
  unfolding apply_transition
  apply_transition-eq_enter h = ground (arith, settled_gate wf t to_state h.settled)

  apply_transition_guards :
      {t' : Task}
      → apply_transition wf t to_state at trigger note ≡ ok t'
      → IsAllowed wf t to_state × (enter wf t to_state at trigger note ≡ ok t')
  unfolding apply_transition
  apply_transition_guards h = (
    record {
      live = ground arith;
      edge = ground arith;
      settled = gate_settled wf t to_state (ground arith);
    },
    ground arith,
  )

  -- A gated transition that returns was allowed: the task was not terminal, the graph has the
  -- edge, and either the task is dropped or no promise of the current entry was pending. It
  -- changes the task's state, turn and history only, by one entry at the end.
  pub apply_transition_sound :
      {t' : Task}
      → apply_transition wf t to_state at trigger note ≡ ok t'
      → IsAllowed wf t to_state × IsMoved wf t to_state t'
  apply_transition_sound h =
      let (allowed, entered) = apply_transition_guards h in
      (allowed, enter-IsMoved wf t to_state at trigger note entered)

  module _ (wf_ok : IsWellFormed wf.graph) where
    enter_total :
        {cls : StateClass}
        → lookup to_state wf.graph.states ≡ some cls
        → (t' : Task) × (enter wf t to_state at trigger note ≡ ok t')
    unfolding enter responsibilities is_terminal
    enter_total {cls} e =
        let (turn, has) = turn_on_enter_total wf wf_ok to_state e in
        (
          record t {
            state = to_state;
            turn = turn;
            history =
                t.history
                ++ record {
                  at = at;
                  from_state = some t.state;
                  to_state = to_state;
                  trigger = trigger;
                  note = note;
                  responsibilities = cls.responsibilities;
                  wake_status = first_wake wf (is_terminal_kind cls.kind) turn;
                }
                  ∷ [];
          },
          rw (e, has, ◌>>=◌) refl,
        )

    -- In a validated graph every allowed transition returns.
    pub apply_transition_total :
        IsAllowed wf t to_state
        → (t' : Task) × (apply_transition wf t to_state at trigger note ≡ ok t')
    apply_transition_total h =
        let (cls, e) = edge-is_state wf wf_ok t.state to_state h.edge in
        let (t', entered) = enter_total e in (t', apply_transition-eq_enter h ∙ entered)

    -- In a validated graph the user's free move returns for every label of the graph, from any
    -- state and whatever is promised; it records the same entry as a gated move.
    pub force_transition_total :
        {cls : StateClass}
        → lookup to_state wf.graph.states ≡ some cls
        → (t' : Task) × (force_transition wf t to_state at trigger note ≡ ok t')
          × IsMoved wf t to_state t'
    unfolding force_transition state_class
    force_transition_total e =
        let (t', entered) = enter_total e in
        (t', rw e entered, enter-IsMoved wf t to_state at trigger note entered)

-- In a validated graph a task in a state that is not terminal can be dropped, whatever promises
-- are pending.
pub drop_total :
    (wf : Workflow) (t : Task) (at : String) (trigger note : Option String)
    → IsWellFormed wf.graph
    → is_terminal wf t.state ≡ ok false
    → (t' : Task) × (apply_transition wf t dropped_label at trigger note ≡ ok t')
      × (t'.state ≡ dropped_label)
drop_total wf t at trigger note wf_ok live =
    let allowed : IsAllowed wf t dropped_label = record {
      live = live;
      edge = drop_is_edge wf wf_ok t.state live;
      settled = inl refl;
    } in
    let (t', done) = apply_transition_total wf t dropped_label at trigger note wf_ok allowed in
    let moved = (apply_transition_sound wf t dropped_label at trigger note done).1.moved in
    (t', done, ap (λ (u : Task). u.state) moved)

-- A moved task passes the store's checks: it is consistent, and its history extends the old one.
pub IsMoved-validates :
    (wf : Workflow) (t t' : Task) (to_state : String)
    → IsMoved wf t to_state t'
    → (validate_task_consistency t' ≡ ok tt) × Extends t.history t'.history
unfolding validate_task_consistency
IsMoved-validates wf t t' to_state h =
    let history : t'.history ≡ t.history ++ h.entry ∷ [] = ap (λ (u : Task). u.history) h.moved in
    let state : t'.state ≡ to_state = ap (λ (u : Task). u.state) h.moved in
    (
      rw (history, get_last?-append) (rw (state, h.records.to) (rw eq_refl)),
      rw history (Extends-append t.history (h.entry ∷ [])),
    )

-- A gated or a free move that returns passes the store's checks.
pub moves-validate :
    (wf : Workflow) (t t' : Task) (to_state at : String) (trigger note : Option String)
    → (apply_transition wf t to_state at trigger note ≡ ok t')
      ⊎ (force_transition wf t to_state at trigger note ≡ ok t')
    → (validate_task_consistency t' ≡ ok tt)
      × (validate_history_append_only t.history t'.history ≡ ok tt)
unfolding force_transition
moves-validate wf t t' to_state at trigger note h =
    let moved : IsMoved wf t to_state t' = elim h [
      | inl gated ↦ (apply_transition_sound wf t to_state at trigger note gated).1
      | inr free ↦
          let (cls, _, entered) = >>=-eq-ok (state_class wf to_state) _ free in
          enter-IsMoved wf t to_state at trigger note entered
    ] in
    let (consistent, extends) = IsMoved-validates wf t t' to_state moved in
    (consistent, (validate_history_append_only_iff t.history t'.history).1 extends)
