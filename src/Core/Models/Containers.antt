-- ===== src/Core/Models/Containers.antt =====
-- `compose_container_status` of core/models.py, the one text that the dashboard shows for a
-- task's container, and the provisioned flag of a task.
use panopticon_next.Base.{
  ◌≡◌, ◌↔◌, Bool, true, false, not, ◌&&◌, Option, none, some, arith, if◌then◌else◌, is_given,
  eq_option, ◌==◌,
}
use panopticon_next.Core.Models.{LifecyclePhase, ContainerStatus, Task, MigrationRecord, is_failed}

-- `ContainerStatus(phase.value)`: each phase has a status of the same value.
shown : LifecyclePhase → ContainerStatus
shown LifecyclePhase.healing = ContainerStatus.healing
shown LifecyclePhase.claiming = ContainerStatus.claiming
shown LifecyclePhase.preparing = ContainerStatus.preparing
shown LifecyclePhase.building = ContainerStatus.building
shown LifecyclePhase.starting = ContainerStatus.starting
shown LifecyclePhase.awaiting = ContainerStatus.awaiting
shown LifecyclePhase.failed = ContainerStatus.failed

shown_or_down : Option LifecyclePhase → ContainerStatus
unfolding shown
shown_or_down (some phase) = shown phase
shown_or_down none = ContainerStatus.down

-- The signals that the status is folded from.
pub record Signals : Type 0 where
  pub terminal : Bool
  pub dependencies_blocking : Bool
  pub launch_paused : Bool
  pub claimed : Bool
  pub registered : Bool
  pub runner_live : Bool
  pub phase : Option LifecyclePhase

unfoldable pub compose_container_status : Signals → ContainerStatus
unfolding shown_or_down
compose_container_status s =
    if s.terminal
    then ContainerStatus.blank
    else if s.launch_paused && not s.registered
    then (if is_failed s.phase then ContainerStatus.failed else ContainerStatus.paused)
    else if not s.claimed && s.dependencies_blocking
    then ContainerStatus.gated
    else if not s.claimed
    then ContainerStatus.queued
    else if s.registered
    then (if is_failed s.phase then ContainerStatus.failed else ContainerStatus.live)
    else if not s.runner_live
    then ContainerStatus.disconnected
    else shown_or_down s.phase

-- A container is shown as live exactly when the task is not terminal, is claimed, has an open
-- registration, and no failure was reported.
compose-live_iff :
    (s : Signals)
    → (compose_container_status s ≡ ContainerStatus.live) ↔ (
        (s.terminal ≡ false)
        × (s.claimed ≡ true)
        × (s.registered ≡ true)
        × (is_failed s.phase ≡ false))
unfolding compose_container_status
compose-live_iff s = (λ h. ground arith, λ h. ground arith)

-- A container is shown as disconnected exactly when the task is not terminal, its launch is not
-- held, and a runner that is no longer connected holds the claim with no registration open; what
-- phase that runner last reported does not matter.
compose-disconnected_iff :
    (s : Signals)
    → (compose_container_status s ≡ ContainerStatus.disconnected) ↔ (
        (s.terminal ≡ false)
        × (s.launch_paused ≡ false)
        × (s.claimed ≡ true)
        × (s.registered ≡ false)
        × (s.runner_live ≡ false))
unfolding compose_container_status
compose-disconnected_iff s = (λ h. ground arith, λ h. ground arith)

-- A container is shown as failed exactly when a failure was reported for a task that is not
-- terminal, and either its launch is held with no registration open, or it is claimed and a
-- registration is open or its runner is connected.
compose-failed_iff :
    (s : Signals)
    → (compose_container_status s ≡ ContainerStatus.failed) ↔ (
        (s.terminal ≡ false)
        × (is_failed s.phase ≡ true)
        × ((if s.registered
              then s.claimed
              else if s.launch_paused
              then true
              else s.claimed && s.runner_live)
            ≡ true))
unfolding compose_container_status
compose-failed_iff s = (λ h. ground arith, λ h. ground arith)

-- Which signals are shown as live, as disconnected and as failed: a live container needs a claimed
-- and registered task that is not terminal and reported no failure; a disconnected one a claim whose
-- runner is gone, with no hold and no registration; a failed one a failure that was reported for a task
-- that is not terminal, with a claimed registration, a held launch, or a claim of a connected runner.
pub compose_container_status_lem :
    (s : Signals)
    → ((compose_container_status s ≡ ContainerStatus.live) ↔ (
        (s.terminal ≡ false)
        × (s.claimed ≡ true)
        × (s.registered ≡ true)
        × (is_failed s.phase ≡ false)))
      × ((compose_container_status s ≡ ContainerStatus.disconnected) ↔ (
          (s.terminal ≡ false)
          × (s.launch_paused ≡ false)
          × (s.claimed ≡ true)
          × (s.registered ≡ false)
          × (s.runner_live ≡ false)))
      × ((compose_container_status s ≡ ContainerStatus.failed) ↔ (
          (s.terminal ≡ false)
          × (is_failed s.phase ≡ true)
          × ((if s.registered
                then s.claimed
                else if s.launch_paused
                then true
                else s.claimed && s.runner_live)
              ≡ true)))
compose_container_status_lem s =
    (compose-live_iff s, compose-disconnected_iff s, compose-failed_iff s)

abbrev pub migration_ready : Option MigrationRecord → Bool
migration_ready none = true
migration_ready (some m) = m.workspace_disposition == "accepted"

-- `Task.provisioned`.
unfoldable pub provisioned : Task → Bool
provisioned t =
    migration_ready t.migration
    && is_given t.branch
    && is_given t.clone
    && is_given t.claimed_by
    && eq_option t.claimed_by t.provisioned_by
    && eq_option t.provisioned_by t.workspace_verified_by
