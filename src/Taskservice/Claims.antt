-- ===== src/Taskservice/Claims.antt =====
-- Claims (service.py): the gate through which exactly one runner comes to own a task, its release
-- and reclaim, and the launch pauses of repository setup.
pub mod Ownership
pub mod Setup
use panopticon_next.Base.{
  String, Bool, true, false, not, ◌&&◌, ◌||◌, Option, none, some, List, [], ◌∷◌, Result, ok, err,
  ◌==◌, if◌then◌else◌, is_some, is_given, eq_option, already_claimed, not_ready,
}
use panopticon_next.Base.Exec.{pure, raise, raise_if, gets, when, ◌>>=◌, ◌>>◌}
use panopticon_next.Base.Table.{Table, lookup, values}
use panopticon_next.Core.Models.{Repo, Task, MigrationRecord, is_failed}
use panopticon_next.Taskservice.Rows.Repos.{set_repo_launch_pause, set_task_launch_pause}
use panopticon_next.Taskservice.State.{
  Service, Method, commit, get_task, get_repo, save_container_state,
}
use panopticon_next.Taskservice.Workflows.{task_is_terminal}
use panopticon_next.Taskservice.Dependencies.{dependencies_blocking}
use panopticon_next.Taskservice.Liveness.{is_registered, clear_lifecycle, phase_of}

-- `x in (None, runner_id)`.
abbrev pub free_or : Option String → String → Bool
free_or none runner_id = true
free_or (some owner) runner_id = owner == runner_id

abbrev pub is_settled_workspace : String → Bool
is_settled_workspace d = d == "installed" || d == "accepted"

-- A claim on another host than the one that holds the workspace wants a migration to it.
abbrev pub migration_admits : Option MigrationRecord → Option String → String → Bool
migration_admits none provisioned_by runner_id = false
migration_admits (some m) provisioned_by runner_id =
    eq_option (some m.source_runner) provisioned_by
    && m.destination_runner == runner_id
    && is_settled_workspace m.workspace_disposition

-- The repo's gate is read only for an unclaimed task that is not paused itself.
abbrev pause_gate : Task → Method (Unit {0})
pause_gate t =
    if t.launch_paused
    then raise not_ready
    else if is_some t.claimed_by
    then pure tt
    else do repo ← get_repo t.repo_id; raise_if repo.launch_paused not_ready

-- The checks of `claim` on the task that it read.
unfoldable pub claim_guards : Task → String → Method (Unit {0})
claim_guards t runner_id = do
  raise_if (not (free_or t.claimed_by runner_id)) already_claimed
  pause_gate t
  let unclaimed = not (is_some t.claimed_by)
  raise_if
      (unclaimed
        && not (free_or t.provisioned_by runner_id)
        && not (migration_admits t.migration t.provisioned_by runner_id))
      not_ready
  λ s.
      raise_if
        (unclaimed
          && (task_is_terminal s.workflows t || dependencies_blocking s.workflows s.db.tasks t))
        not_ready s

unfoldable pub claim : String → String → Method Task
unfolding claim_guards
claim task_id runner_id = do
  t ← get_task task_id
  claim_guards t runner_id
  clear_lifecycle task_id
  save_container_state (record t { claimed_by = some runner_id })

unfoldable pub release : String → Method Task
release task_id = do
  t ← get_task task_id
  clear_lifecycle task_id
  save_container_state (record t { claimed_by = none })

-- The loop of `reclaim` over the tasks, which returns those that it released.
reclaim_over : String → List Task → Method (List Task)
reclaim_over runner_id [] = pure []
reclaim_over runner_id (t ∷ ts) = do
  let rest = reclaim_over runner_id ts
  terminal ← gets (λ s. task_is_terminal s.workflows t)
  if eq_option t.claimed_by (some runner_id) && not terminal
      then (do
        clear_lifecycle t.id
        saved ← save_container_state (record t { claimed_by = none })
        others ← rest
        pure (saved ∷ others))
      else rest

unfoldable pub reclaim : String → Method (List Task)
unfolding reclaim_over
reclaim runner_id = do tasks ← gets (λ s. values s.db.tasks); reclaim_over runner_id tasks

-- A launch that may still be on its way: claimed, not held, and no failure reported.
abbrev pub in_flight : Service → Task → Bool
in_flight s t =
    is_given t.claimed_by
    && not t.launch_paused
    && not (is_failed (phase_of (lookup t.id s.lifecycles)))

abbrev prepend : String → Result (List String) → Result (List String)
prepend id (ok ids) = ok (id ∷ ids)
prepend id (err e) = err e

-- The loop of `begin_repo_setup`: the ids of the repo's live tasks that have no session.
unfoldable pub pending_of : Service → String → List Task → Result (List String)
pending_of s repo_id [] = ok []
pending_of s repo_id (t ∷ ts) =
    let rest = pending_of s repo_id ts in
    if not (t.repo_id == repo_id) || task_is_terminal s.workflows t || is_registered s t.id
    then rest
    else if in_flight s t
    then err not_ready
    else prepend t.id rest

unfoldable pub begin_repo_setup : String → Method Repo
unfolding pending_of
begin_repo_setup repo_id = do
  repo ← get_repo repo_id
  ids ← λ s. (pending_of s repo_id (values s.db.tasks), s)
  commit (set_repo_launch_pause repo_id true ids)
  get_repo repo_id

unfoldable pub finish_repo_setup : String → Method Repo
finish_repo_setup repo_id = do commit (set_repo_launch_pause repo_id false []); get_repo repo_id

unfoldable pub retry_task : String → Method Task
retry_task task_id = do
  t ← get_task task_id
  repo ← get_repo t.repo_id
  raise_if repo.launch_paused not_ready
  λ s. raise_if (task_is_terminal s.workflows t || is_registered s task_id) not_ready s
  λ s. raise_if (in_flight s t) not_ready s
  commit (set_task_launch_pause task_id false none true)
  clear_lifecycle task_id
  get_task task_id
