-- ===== src/Taskservice/Claims/Ownership.antt =====
-- Who owns a task (service.py): a claim is exclusive, only admits a task that may be launched, and
-- a release or a reclaim gives the task back.
use panopticon_next.Base.{
  String, true, false, not, ◌&&◌, ◌∙◌, ◌||◌, none, some, ok, err, ◌≡◌, ◌≢◌, refl, arith, eq_iff,
  is_some, Option-cases, inl, inr, already_claimed,
}
use panopticon_next.Base.Exec.{ran, bind-eq-ok, raise_if-eq-ok, raise_if-then-eq-ok}
use panopticon_next.Base.Table.{lookup, lookup-put_self}
use panopticon_next.Core.Models.{Repo, Task}
use panopticon_next.Taskservice.State.{
  Service, get_task, get_task-eq-ok, save_container_state-eq-ok,
}
use panopticon_next.Taskservice.Rows.Tasks.{updated_row}
use panopticon_next.Taskservice.Rows.Integrity.{save_task-IsSaved}
use panopticon_next.Taskservice.Workflows.{task_is_terminal}
use panopticon_next.Taskservice.Dependencies.{dependencies_blocking}
use panopticon_next.Taskservice.Liveness.{clear_lifecycle}
use panopticon_next.Taskservice.Claims.{free_or, pause_gate, migration_admits, claim_guards, claim}

-- What the checks of a claim establish. An unclaimed task that is launched anew is unpaused, in
-- an unpaused repository, on the host that holds its workspace or one that a migration prepared,
-- in a state that is not terminal, and none of its dependencies blocks it.
pub record IsClaimable (s : Service) (runner_id : String) (t : Task) : Type 0 where
  pub unowned : free_or t.claimed_by runner_id ≡ true
  pub unpaused : t.launch_paused ≡ false
  pub hosted :
      t.claimed_by ≡ none
      → (free_or t.provisioned_by runner_id
          || migration_admits t.migration t.provisioned_by runner_id)
        ≡ true
  pub live : t.claimed_by ≡ none → task_is_terminal s.workflows t ≡ false
  pub clear : t.claimed_by ≡ none → dependencies_blocking s.workflows s.db.tasks t ≡ false
  pub repo_ready :
      t.claimed_by ≡ none
      → (r : Repo) × (lookup t.repo_id s.db.repos ≡ some r) × (r.launch_paused ≡ false)

pause_gate_sound :
    (s s1 : Service) (t : Task)
    → pause_gate t s ≡ (ok tt, s1)
    → (s1 ≡ s)
      × (t.launch_paused ≡ false)
      × (t.claimed_by ≡ none
          → (r : Repo) × (lookup t.repo_id s.db.repos ≡ some r) × (r.launch_paused ≡ false))
pause_gate_sound s s1 t h = (
  ground arith,
  ground arith,
  λ free. elim (Option-cases (lookup t.repo_id s.db.repos)) [
    | inl missing ↦ absurd (ground arith)
    | inr (r, found) ↦ (r, found, ground arith)
  ],
)

claim_guards_sound :
    (s s1 : Service) (runner_id : String) (t : Task)
    → claim_guards t runner_id s ≡ (ok tt, s1)
    → IsClaimable s runner_id t × (s1 ≡ s)
unfolding claim_guards
claim_guards_sound s s1 runner_id t h =
    let (unowned, h1) = raise_if-then-eq-ok (not (free_or t.claimed_by runner_id)) _ _ h in
    elim (bind-eq-ok (pause_gate t) _ h1) [
      | ran _ s2 paused h2 ↦
          let (same, unpaused, repo_ready) = pause_gate_sound s s2 t paused in
          let (hosted, h3) =
            raise_if-then-eq-ok
              (not (is_some t.claimed_by)
                && not (free_or t.provisioned_by runner_id)
                && not (migration_admits t.migration t.provisioned_by runner_id))
              _ _ h2 in
          let (live, same') =
            raise_if-eq-ok
              (not (is_some t.claimed_by)
                && (task_is_terminal s2.workflows t
                    || dependencies_blocking s2.workflows s2.db.tasks t))
              _ h3 in
          (
            record {
              unowned = ground arith;
              unpaused = unpaused;
              hosted = λ free. ground arith;
              live = λ free. rw same at (unblocked s2 free live).0;
              clear = λ free. rw same at (unblocked s2 free live).1;
              repo_ready = repo_ready;
            },
            same' ∙ same,
          )
    ]
  where
    unblocked :
        (u : Service)
        → t.claimed_by ≡ none
        → (not (is_some t.claimed_by)
            && (task_is_terminal u.workflows t || dependencies_blocking u.workflows u.db.tasks t))
          ≡ false
        → (task_is_terminal u.workflows t ≡ false)
          × (dependencies_blocking u.workflows u.db.tasks t ≡ false)
    unblocked u free live = (ground arith, ground arith)

-- A claim that returns was of a claimable task, and gives that task with the runner as its owner
-- and every other field as it was.
pub claim_sound :
    (s s' : Service) (task_id runner_id : String) (t' : Task)
    → claim task_id runner_id s ≡ (ok t', s')
    → (t : Task) × (lookup task_id s.db.tasks ≡ some t)
      × IsClaimable s runner_id t
      × (t' ≡ record t { claimed_by = some runner_id })
unfolding claim
claim_sound s s' task_id runner_id t' h = elim (bind-eq-ok (get_task task_id) _ h) [
  | ran t s1 got h1 ↦ elim (bind-eq-ok (claim_guards t runner_id) _ h1) [
    | ran _ s2 guarded h2 ↦ elim (bind-eq-ok (clear_lifecycle task_id) _ h2) [
      | ran _ s3 cleared h3 ↦
          let (found, same) = get_task-eq-ok task_id t s s1 got in
          (
            t,
            found,
            rw same at (claim_guards_sound s1 s2 runner_id t guarded).0,
            (save_container_state-eq-ok (record t { claimed_by = some runner_id }) t' s3 s' h3).0,
          )
    ]
  ]
]

-- A claim of a task with another stored owner is refused, with nothing changed.
refused_to_others :
    (s : Service) (task_id runner_id owner : String) (t : Task)
    → lookup task_id s.db.tasks ≡ some t
    → t.claimed_by ≡ some owner
    → owner ≢ runner_id
    → claim task_id runner_id s ≡ (err already_claimed, s)
unfolding claim claim_guards
refused_to_others s task_id runner_id owner t found owned other =
    ground (arith, eq_iff owner runner_id)

-- Once a claim returned, its runner is the stored owner of the task.
claim-stores :
    (s s' : Service) (task_id runner_id : String) (t' : Task)
    → claim task_id runner_id s ≡ (ok t', s')
    → (after : Task) × (lookup t'.id s'.db.tasks ≡ some after) × (after.claimed_by ≡ some runner_id)
unfolding claim
claim-stores s s' task_id runner_id t' h = elim (bind-eq-ok (get_task task_id) _ h) [
  | ran t s1 got h1 ↦ elim (bind-eq-ok (claim_guards t runner_id) _ h1) [
    | ran _ s2 guarded h2 ↦ elim (bind-eq-ok (clear_lifecycle task_id) _ h2) [
      | ran _ s3 cleared h3 ↦
          let claimed = record t { claimed_by = some runner_id } in
          let (same, wrote) = save_container_state-eq-ok claimed t' s3 s' h3 in
          let saved = save_task-IsSaved claimed s3.db wrote in
          let after = updated_row saved.row claimed saved.history in
          (after, rw (same, saved.wrote) (lookup-put_self t.id after s3.db.tasks), refl)
    ]
  ]
]

-- After a claim that returned, the claim of the same task by any other runner is refused and changes
-- nothing.
pub claim_exclusive :
    (s s' : Service) (task_id runner_id other_runner : String) (t' : Task)
    → claim task_id runner_id s ≡ (ok t', s')
    → runner_id ≢ other_runner
    → claim t'.id other_runner s' ≡ (err already_claimed, s')
claim_exclusive s s' task_id runner_id other_runner t' h other =
    let (after, found, owned) = claim-stores s s' task_id runner_id t' h in
    refused_to_others s' t'.id other_runner runner_id after found owned other
