-- ===== src/Taskservice/Transitions/Guarantees.antt =====
-- What the moves of stored tasks guarantee (service.py): a named operation and a requested
-- transition pass the graph and the responsibility gate, and a refused one leaves every row.
use panopticon_next.Base.{
  ℕ, zero, suc, ◌+◌, String, false, Option, some, ok, err, Error, ◌≡◌, arith, inl, inr,
  Result-cases,
}
use panopticon_next.Base.Exec.{lift, ran, bind-eq-ok}
use panopticon_next.Base.Table.{lookup}
use panopticon_next.Core.Models.{Task, dropped_label}
use panopticon_next.Core.Workflow.{Workflow, resolve_operation}
use panopticon_next.Core.Workflow.Lifecycle.{apply_transition}
use panopticon_next.Core.Workflow.Moves.{IsAllowed, apply_transition_sound}
use panopticon_next.Taskservice.State.{
  Service, now, get_task, workflow, get_task-eq-ok, workflow-eq-ok, lift-eq-ok,
}
use panopticon_next.Taskservice.Transitions.{
  commit_at, commit_transition, request_transition, transition_within, apply_operation, depth_of,
  move, drop_governed, cascade_after_transition,
}

commit_transition-IsAllowed :
    (task : Task) (wf : Workflow) (to_state : String) (trigger note : Option String) {t' : Task}
    (s s' : Service)
    → commit_transition task wf to_state false trigger note s ≡ (ok t', s')
    → IsAllowed wf task to_state
unfolding commit_transition commit_at
commit_transition-IsAllowed task wf to_state trigger note s s' h =
    elim (bind-eq-ok now (commit_at task wf to_state false trigger note) {before = s} h) [
      | ran at s1 ticked h1 ↦
          elim (bind-eq-ok (lift (move false wf task to_state at trigger note)) _ h1) [
            | ran moved s2 e h2 ↦
                (apply_transition_sound wf task to_state at trigger note
                  (lift-eq-ok (move false wf task to_state at trigger note) moved s1 s2 e).0).0
          ]
    ]

-- A named operation that returns named an edge of the task's state, and that move was allowed: the
-- task was not terminal, and unless it was dropped none of its promises was pending.
pub apply_operation-IsAllowed :
    (s s' : Service) (task_id operation : String) (note : Option String) (t' : Task)
    → apply_operation task_id operation note s ≡ (ok t', s')
    → (t : Task) × (wf : Workflow) × (to_state : String) × (lookup task_id s.db.tasks ≡ some t)
      × (lookup t.workflow s.workflows ≡ some wf)
      × (resolve_operation wf t.state operation ≡ ok to_state)
      × IsAllowed wf t to_state
unfolding apply_operation
apply_operation-IsAllowed s s' task_id operation note t' h =
    elim (bind-eq-ok (get_task task_id) _ h) [
      | ran t s1 got h1 ↦ elim (bind-eq-ok (workflow t.workflow) _ h1) [
        | ran wf s2 loaded h2 ↦
            elim (bind-eq-ok (lift (resolve_operation wf t.state operation)) _ h2) [
              | ran to_state s3 resolved h3 ↦
                  elim (bind-eq-ok (commit_transition t wf to_state false (some operation) note)
                    (cascade_after_transition (drop_governed note)) {before = s3} h3) [
                      | ran u s4 committed h4 ↦
                          let (found, same) = get_task-eq-ok task_id t s s1 got in
                          let (named, _) =
                            lift-eq-ok (resolve_operation wf t.state operation) to_state s2 s3
                              resolved in
                          (
                            t,
                            wf,
                            to_state,
                            found,
                            rw same at (workflow-eq-ok t.workflow wf s1 s2 loaded).0,
                            named,
                            commit_transition-IsAllowed t wf to_state (some operation) note s3 s4
                                committed,
                          )
                    ]
            ]
      ]
    ]

-- A requested transition that returns was of a stored task with a loaded workflow, and allowed: the
-- task was not terminal, the graph has the edge, and unless it was dropped no promise was pending.
pub request_transition-IsAllowed :
    (s s' : Service) (task_id to_state : String) (trigger note : Option String) (t' : Task)
    → request_transition task_id to_state trigger note s ≡ (ok t', s')
    → (t : Task) × (wf : Workflow) × (lookup task_id s.db.tasks ≡ some t)
      × (lookup t.workflow s.workflows ≡ some wf)
      × IsAllowed wf t to_state
unfolding request_transition transition_within
request_transition-IsAllowed s s' task_id to_state trigger note t' h = within (depth_of s) h
  where
    within :
        (depth : ℕ)
        → transition_within depth task_id to_state trigger note s ≡ (ok t', s')
        → (t : Task) × (wf : Workflow) × (lookup task_id s.db.tasks ≡ some t)
          × (lookup t.workflow s.workflows ≡ some wf)
          × IsAllowed wf t to_state
    within zero e = absurd (ground arith)
    within (suc depth) e = elim (bind-eq-ok (get_task task_id) _ e) [
      | ran t s1 got h1 ↦ elim (bind-eq-ok (workflow t.workflow) _ h1) [
        | ran wf s2 loaded h2 ↦
            elim (bind-eq-ok (commit_transition t wf to_state false trigger note)
              (cascade_after_transition
                (λ child. transition_within depth child dropped_label (some "cascade-drop") note))
              {before = s2} h2) [
                | ran u s3 committed h3 ↦
                    let (found, same) = get_task-eq-ok task_id t s s1 got in
                    (
                      t,
                      wf,
                      found,
                      rw same at (workflow-eq-ok t.workflow wf s1 s2 loaded).0,
                      commit_transition-IsAllowed t wf to_state trigger note s2 s3 committed,
                    )
              ]
      ]
    ]

refused_by :
    (s : Service) (task_id to_state : String) (trigger note : Option String) (t : Task)
    (wf : Workflow) (e : Error)
    → lookup task_id s.db.tasks ≡ some t
    → lookup t.workflow s.workflows ≡ some wf
    → apply_transition wf t to_state (s.env.clock s.ticks) trigger note ≡ err e
    → request_transition task_id to_state trigger note s ≡ (err e, record s { ticks = s.ticks + 1 })
unfolding request_transition transition_within commit_transition commit_at
refused_by s task_id to_state trigger remark t wf e found loaded refused = ground arith

-- A transition that is not allowed for a stored task with a loaded workflow, because the task is
-- terminal, the graph lacks the edge, or a promise is pending and the task is not dropped, raises an
-- error, and the service is as before but for the reading of its clock.
pub request_transition_refused :
    (s : Service) (task_id to_state : String) (trigger note : Option String) (t : Task)
    (wf : Workflow)
    → lookup task_id s.db.tasks ≡ some t
    → lookup t.workflow s.workflows ≡ some wf
    → ¬ IsAllowed wf t to_state
    → (e : Error) × (request_transition task_id to_state trigger note s
        ≡ (err e, record s { ticks = s.ticks + 1 }))
request_transition_refused s task_id to_state trigger note t wf found loaded forbidden =
    let at = s.env.clock s.ticks in
    elim (Result-cases (apply_transition wf t to_state at trigger note)) [
      | inl (moved, allowed) ↦
          absurd (forbidden (apply_transition_sound wf t to_state at trigger note allowed).0)
      | inr (e, refused) ↦
          (e, refused_by s task_id to_state trigger note t wf e found loaded refused)
    ]
