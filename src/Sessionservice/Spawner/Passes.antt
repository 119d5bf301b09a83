-- ===== src/Sessionservice/Spawner/Passes.antt =====
-- The methods of `Spawner` (sessionservice/spawner.py), each as one pass over a task. A failure is
-- raised again after it is recorded, as the daemon's isolation of tasks expects.
use panopticon_next.Base.{
  ℕ, ◌+◌, ◌-◌, String, Bool, true, false, not, ◌&&◌, ◌||◌, Option, none, some, List, [], ◌∷◌, ok,
  is_some, is_given, or_else, ◌==◌, contains, concat, eq_option, eq_nat, leb, if◌then◌else◌,
  runtime_error,
}
use panopticon_next.Base.Exec.{Exec, raise, raise_if, when, modify, gets, pure, ◌>>=◌, ◌>>◌}
use panopticon_next.Base.Table.{lookup}
use panopticon_next.Core.Models.{LifecyclePhase, complete_label}
use panopticon_next.Sessionservice.Spawner.{
  TaskView, Call, Failure, ClaimAnswer, Host, Config, Spawner, is_terminal_label, is_failed_status,
  is_healing_status, is_in_progress, call, report_phase, run_steps, steps_of, is_infrastructure,
  detail_of, respawn_of, set_respawn, mark_failed, forget_failed, forget,
}

module _ (cfg : Config) where
  abbrev is_ours : TaskView → Bool
  is_ours t = eq_option t.claimed_by (some cfg.runner_id)

  -- A failed Docker command before there is a session.
  abbrev pub is_recoverable : Host → Failure → Bool
  is_recoverable h f =
      not (is_some h.get_repo)
      && not h.is_shell
      && is_infrastructure f
      && not (or_else h.session_after true)

  -- A hold is persisted for a credential that is missing.
  abbrev pub report_failure : String → Failure → String → Spawner → Spawner
  report_failure id (Failure.missing_auth _) detail =
      call (Call.report id LifecyclePhase.failed (some detail) true)
  report_failure id (Failure.git_credentials _) detail =
      call (Call.report id LifecyclePhase.failed (some (concat detail cfg.setup_note)) true)
  report_failure id _ detail = call (Call.report id LifecyclePhase.failed (some detail) false)

  -- The failure is deferred to the next pass while the budget lasts, and latched after that.
  abbrev pub on_failure : Host → String → Failure → Spawner → Spawner
  on_failure h id f s =
      let count = (respawn_of id s).0 in
      if is_recoverable h f
      then if leb cfg.max_respawns count
        then report_failure id f (concat (detail_of f) cfg.exhausted_note)
            (set_respawn id count h.failed_at (mark_failed id s))
        else call (Call.clear_lifecycle id) (
            if eq_nat count 0
            then mark_failed id s
            else set_respawn id count h.failed_at (mark_failed id s))
      else report_failure id f (detail_of f) s

  abbrev pub spawn_result : Host → String → Option Failure → Exec Spawner String
  spawn_result h id none = pure h.container
  spawn_result h id (some f) = modify (on_failure h id f) >> raise runtime_error

  -- `_spawn`.
  unfoldable pub spawn : Host → String → Exec Spawner String
  unfolding run_steps
  spawn h id s = let (failed, s') = run_steps id (steps_of cfg h) s in spawn_result h id failed s'

  -- `_respawn_count`: a respawn that survived long enough does not count.
  abbrev pub respawn_count : String → ℕ → Spawner → ℕ
  respawn_count id now s =
      let (count, last) = respawn_of id s in
      if not (eq_nat count 0)
        && not (contains s.pre_session_failures id)
        && leb cfg.respawn_reset (now - last)
      then 0
      else count

  -- `_is_orphan`. A probe of the session that raises leaves the method by its exception.
  abbrev pub may_be_orphan : Host → TaskView → Bool
  may_be_orphan h t =
      is_ours t
      && not (is_terminal_label t.state)
      && not (t.launch_paused || is_failed_status t.container_status)
      && not h.is_shell

  abbrev pub probe : Option Bool → Exec Spawner Bool
  probe none = raise runtime_error
  probe (some b) = pure (not b)

  abbrev pub is_orphan : Host → TaskView → Exec Spawner Bool
  is_orphan h t = if may_be_orphan h t then probe h.has_session else pure false

  abbrev pub validate_configuration : Host → Exec Spawner Unit
  validate_configuration h = raise_if (is_some h.configuration) runtime_error

  -- The body of `heal` for an orphan, once the daemon is reachable.
  abbrev pub respawn : Host → String → Exec Spawner (Option String)
  respawn h id s =
      let count = respawn_count id h.now s in
      if leb cfg.max_respawns count
      then (ok none, s)
      else (do
        modify (set_respawn id (count + 1) h.now)
        container ← spawn h id
        modify (forget_failed id)
        pure (some container))
          s

  -- An outage keeps the count, and its time does not count as survival.
  abbrev pub keep_fresh : Host → String → Spawner → Spawner
  keep_fresh h id s =
      if is_some (lookup id s.respawns) then set_respawn id (respawn_of id s).0 h.now s else s

  abbrev pub heal_reachable : Bool → Host → String → Exec Spawner (Option String)
  heal_reachable true h id = respawn h id
  heal_reachable false h id = modify (keep_fresh h id) >> pure none

  abbrev pub heal_orphan : Host → String → Exec Spawner (Option String)
  heal_orphan h id = heal_reachable h.reachable h id

  abbrev pub heal_if : Host → String → Bool → Exec Spawner (Option String)
  heal_if h id false = pure none
  heal_if h id true = validate_configuration h >> heal_orphan h id

  abbrev pub end_budget : TaskView → Exec Spawner Unit
  end_budget t = when (is_terminal_label t.state && is_ours t) (modify (forget t.id))

  unfoldable pub heal : Host → TaskView → Exec Spawner (Option String)
  unfolding spawn
  heal h t = do end_budget t; orphan ← is_orphan h t; heal_if h t.id orphan

  abbrev flag_healing : Host → TaskView → Exec Spawner Unit
  flag_healing h t = do
    validate_configuration h
    count ← gets (respawn_count t.id h.now)
    when (not (leb cfg.max_respawns count) && not (is_healing_status t.container_status))
        (modify (report_phase t.id LifecyclePhase.healing))

  unfoldable pub mark_healing : Host → TaskView → Exec Spawner Unit
  mark_healing h t = do orphan ← is_orphan h t; when orphan (flag_healing h t)

  -- The answer to a claim: a conflict is no failure.
  abbrev after_claim : Host → String → ClaimAnswer → Exec Spawner (Option String)
  after_claim h id ClaimAnswer.conflict = pure none
  after_claim h id ClaimAnswer.broken = raise runtime_error
  after_claim h id ClaimAnswer.granted = do
    modify (forget id)
    container ← spawn h id
    pure (some container)

  abbrev claim_and_spawn : Host → String → Exec Spawner (Option String)
  claim_and_spawn h id =
      if not h.is_shell && not h.reachable
      then pure none
      else modify (call (Call.claim id)) >> after_claim h id h.claim_answer

  unfoldable pub spawn_one : Host → TaskView → Exec Spawner (Option String)
  unfolding spawn
  spawn_one h t =
      if is_terminal_label t.state || is_given t.claimed_by || t.launch_paused
      then pure none
      else validate_configuration h >> claim_and_spawn h t.id

  abbrev clear_if_gone : String → Option Bool → Exec Spawner Unit
  clear_if_gone id none = raise runtime_error
  clear_if_gone id (some true) = pure tt
  clear_if_gone id (some false) = modify (call (Call.clear_lifecycle id))

  -- Down-detection: a spawn that is in flight without its container is cleared.
  unfoldable pub reconcile : Host → TaskView → Exec Spawner Unit
  reconcile h t =
      if is_ours t && is_in_progress t.container_status
      then clear_if_gone t.id h.is_running
      else pure tt

  -- A restart releases the claims whose containers are gone; a probe that raises keeps the claim.
  abbrev pub is_reclaimed : Host → TaskView → Bool
  is_reclaimed h t = may_be_orphan h t && not (or_else h.is_running true)

  unfoldable pub startup_reclaim : List (Host × TaskView) → Spawner → Spawner
  startup_reclaim [] s = s
  startup_reclaim ((h, t) ∷ tasks) s =
      startup_reclaim tasks (if is_reclaimed h t then call (Call.release t.id) s else s)

  -- Whether the Docker runner owns the session of the task.
  abbrev is_docker : Host → Bool
  is_docker h = not (cfg.has_shell_runner && h.is_shell)

  abbrev stop_docker : String → Option Bool → Exec Spawner Unit
  stop_docker id none = modify (call (Call.clean_credentials id)) >> raise runtime_error
  stop_docker id (some false) = modify (call (Call.clean_credentials id))
  stop_docker id (some true) = modify (call (Call.stop_backend id))

  abbrev clean_up : Host → TaskView → Exec Spawner Unit
  clean_up h t = do
    if is_docker h then stop_docker t.id h.is_running else modify (call (Call.stop_backend t.id))
    when (is_ours t) (modify (call (Call.release t.id)))
    when (not (t.state == complete_label && is_given (some t.workflow) && h.retains_completed))
        (modify (call (Call.clean_workspace t.id)))

  unfoldable pub cleanup : Host → TaskView → Exec Spawner Unit
  cleanup h t = if is_terminal_label t.state then clean_up h t else pure tt
