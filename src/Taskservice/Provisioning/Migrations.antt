-- ===== src/Taskservice/Provisioning/Migrations.antt =====
-- What a recorded provisioning or migration guarantees: the workspace of a task moves between hosts
-- in the order pending, installed, accepted, and only from the host that owns it.
use panopticon_next.Base.{
  String, Bool, if◌then◌else◌, ◌↔◌, ◌≡◌, ◌≢◌, ◌⊎◌, inl, inr, refl, ap, arith, eq_iff, eq_refl,
  eq_option_iff, true, false, not, ◌&&◌, Option, none, some, List, [], ◌∷◌, ok, ◌==◌, is_given,
  is_some, eq_option, contains, sym, ◌∙◌, raise_if, value_error, raise_if->>-eq-ok, Option-cases,
}
use mathlib.Core.Option.{some-injective}
use panopticon_next.Core.Workflow.Lifecycle.{is_nonempty}
use panopticon_next.Base.Exec.{lift, ran, bind-eq-ok}
use panopticon_next.Base.Table.{lookup}
use panopticon_next.Core.Models.{Task, MigrationRecord}
use panopticon_next.Core.Models.Containers.{provisioned, migration_ready}
use panopticon_next.Taskservice.State.{
  Service, get_task, save_task, get_task-eq-ok, lift-eq-ok, save_task-eq-ok,
}
use panopticon_next.Taskservice.Provisioning.{
  MigrationFacts, is_in_place, steps_from, continues, migration_guards, migration_of,
  record_migration, provisioning_guards, record_provisioning,
}

-- The recorded migration `m` is the one that the facts continue.
pub record Matches (m : MigrationRecord) (facts : MigrationFacts) : Type 0 where
  pub source : m.source_runner ≡ facts.source_runner
  pub destination : m.destination_runner ≡ facts.destination_runner
  pub method : m.workspace_method ≡ facts.workspace_method

-- What the facts of a recorded migration are of a task.
pub record IsMigration (t : Task) (facts : MigrationFacts) : Type 0 where
  pub owned : t.provisioned_by ≡ some facts.source_runner
  pub elsewhere : facts.destination_runner ≢ facts.source_runner
  pub installed :
      facts.workspace_disposition ≡ "installed"
      → (m : MigrationRecord) × (t.migration ≡ some m)
        × Matches m facts
        × (m.workspace_disposition ≡ "pending")
  pub accepted :
      facts.workspace_disposition ≡ "accepted"
      → (m : MigrationRecord) × (t.migration ≡ some m)
        × Matches m facts
        × ((m.workspace_disposition ≡ "pending") ⊎ (m.workspace_disposition ≡ "installed"))
  pub discards : (facts.discarded_changes ≡ []) ⊎ (facts.discard_authorized_by ≡ some "user")

continues-Matches :
    (m : MigrationRecord) (facts : MigrationFacts)
    → continues (some m) facts ≡ true
    → Matches m facts
continues-Matches m facts h = record {
  source = ground (arith, eq_iff m.source_runner facts.source_runner);
  destination = ground (arith, eq_iff m.destination_runner facts.destination_runner);
  method = ground (arith, eq_iff m.workspace_method facts.workspace_method);
}

installs :
    (t : Task) (facts : MigrationFacts)
    → continues t.migration facts ≡ true
    → (m : MigrationRecord) × (t.migration ≡ some m)
      × Matches m facts
      × (contains (steps_from facts.workspace_disposition) m.workspace_disposition ≡ true)
installs t facts h = elim (Option-cases t.migration) [
  | inl fresh ↦ absurd (ground arith)
  | inr (m, is) ↦
      let same : continues (some m) facts ≡ true = ap (λ o. continues o facts) (sym is) ∙ h in
      (m, is, continues-Matches m facts same, ground arith)
]

-- The dispositions from which the facts step.
from_installed : (d p : String) → d ≡ "installed" → contains (steps_from d) p ≡ true → p ≡ "pending"
from_installed d p is h = ground (arith, eq_iff d "installed", eq_iff "pending" p)

from_accepted :
    (d p : String)
    → d ≡ "accepted"
    → contains (steps_from d) p ≡ true
    → (p ≡ "pending") ⊎ (p ≡ "installed")
from_accepted d p is h =
    ground (arith, eq_iff d "installed", eq_iff "pending" p, eq_iff "installed" p)

continued :
    (t : Task) (facts : MigrationFacts)
    → (is_in_place facts.workspace_disposition && not (continues t.migration facts)) ≡ false
    → is_in_place facts.workspace_disposition ≡ true
    → continues t.migration facts ≡ true
continued t facts h place = ground arith

only_the_user :
    (changes : List String) (by : Option String)
    → raise_if (is_nonempty changes && not (eq_option by (some "user"))) value_error ≡ ok tt
    → (changes ≡ []) ⊎ (by ≡ some "user")
only_the_user [] by h = inl refl
only_the_user (c ∷ cs) by h = inr ((eq_option_iff by (some "user")).0 (ground arith))

migration_guards_sound :
    (t : Task) (facts : MigrationFacts) → migration_guards t facts ≡ ok tt → IsMigration t facts
unfolding migration_guards
migration_guards_sound t facts h =
    let (_, h1) = raise_if->>-eq-ok (not (is_some t.provisioned_by)) _ _ h in
    let (source, h2) =
      raise_if->>-eq-ok (not (eq_option t.provisioned_by (some facts.source_runner))) _ _ h1 in
    let (other, h3) = raise_if->>-eq-ok (facts.destination_runner == facts.source_runner) _ _ h2 in
    let (_, h4) =
      raise_if->>-eq-ok
        (not (
          contains ("pending" ∷ "installed" ∷ "accepted" ∷ "failed" ∷ [])
            facts.workspace_disposition))
        _ _ h3 in
    let (_, h5) =
      raise_if->>-eq-ok (not (contains ("archive" ∷ "forge-first" ∷ []) facts.workspace_method)) _ _
        h4 in
    let (_, h6) =
      raise_if->>-eq-ok
        (not (
          contains ("requested" ∷ "accepted" ∷ "omitted" ∷ "failed" ∷ [])
            facts.session_history_disposition))
        _ _ h5 in
    let (step, h7) =
      raise_if->>-eq-ok
        (is_in_place facts.workspace_disposition && not (continues t.migration facts)) _ _ h6 in
    record {
      owned = (eq_option_iff t.provisioned_by (some facts.source_runner)).0 (ground arith);
      elsewhere = λ same. ground (arith, eq_iff facts.destination_runner facts.source_runner);
      installed = λ is.
          let (m, found, matches, from) = installs t facts (continued t facts step (rw is refl)) in
          (
            m,
            found,
            matches,
            from_installed facts.workspace_disposition m.workspace_disposition is from,
          );
      accepted = λ is.
          let (m, found, matches, from) = installs t facts (continued t facts step (rw is refl)) in
          (
            m,
            found,
            matches,
            from_accepted facts.workspace_disposition m.workspace_disposition is from,
          );
      discards = only_the_user facts.discarded_changes facts.discard_authorized_by h7;
    }

-- A migration that is recorded starts at the host that owns the task's workspace and leads to
-- another host. It is installed only after a pending record, and accepted only after a pending or
-- an installed record, of the same hosts and method; and it discards changes only if the user
-- authorized that.
pub record_migration-IsMigration :
    (s s' : Service) (task_id : String) (facts : MigrationFacts) (t' : Task)
    → record_migration task_id facts s ≡ (ok t', s')
    → (t : Task) × (lookup task_id s.db.tasks ≡ some t)
      × IsMigration t facts
      × (t'.migration ≡ some (migration_of t facts))
unfolding record_migration
record_migration-IsMigration s s' task_id facts t' h = elim (bind-eq-ok (get_task task_id) _ h) [
  | ran t s1 got h1 ↦
      elim (bind-eq-ok (lift (migration_guards t facts))
        (λ _. save_task (record t { migration = some (migration_of t facts) })) {before = s1} h1) [
          | ran _ s2 checked h2 ↦
              let (valid, _) = lift-eq-ok (migration_guards t facts) tt s1 s2 checked in
              (
                t,
                (get_task-eq-ok task_id t s s1 got).0,
                migration_guards_sound t facts valid,
                ap (λ (u : Task). u.migration)
                    (save_task-eq-ok (record t { migration = some (migration_of t facts) }) t' s2 s'
                      h2),
              )
        ]
]

-- The task that a report of a workspace saves.
abbrev reported : Task → String → String → String → Bool → Task
reported t branch clone runner_id verified = record t {
  branch = some branch;
  clone = some clone;
  provisioned_by = some runner_id;
  workspace_verified_by = if verified then some runner_id else none;
}

provisioning_guards_owned :
    (t : Task) (branch runner_id : String)
    → provisioning_guards t branch runner_id ≡ ok tt
    → t.claimed_by ≡ some runner_id
unfolding provisioning_guards
provisioning_guards_owned t branch runner_id h =
    let (_, h1) = raise_if->>-eq-ok (not (is_some t.slug)) _ _ h in
    let (owned, _) = raise_if->>-eq-ok (not (eq_option t.claimed_by (some runner_id))) _ _ h1 in
    (eq_option_iff t.claimed_by (some runner_id)).0 (ground arith)

-- A task with that migration is not on its way to another host.
abbrev pub HasArrived : Option MigrationRecord → Type 0
HasArrived migration =
    (migration ≡ none)
    ⊎ ((m : MigrationRecord) × (migration ≡ some m) × (m.workspace_disposition ≡ "accepted"))

migration_ready_iff : (o : Option MigrationRecord) → (migration_ready o ≡ true) ↔ HasArrived o
migration_ready_iff none = (λ h. inl refl, λ h. refl)
migration_ready_iff (some m) = (
  λ h. inr (m, refl, (eq_iff m.workspace_disposition "accepted").0 h),
  λ h. elim h [
    | inl e ↦ absurd cc
    | inr (n, e, is) ↦ ground (arith, eq_iff m.workspace_disposition "accepted")
  ],
)

module _ (migration : Option MigrationRecord) (branch clone runner_id : String)
    (verified : Bool) where
  -- What `provisioned` reads of a reported task.
  abbrev counts_as_provisioned : Bool
  counts_as_provisioned =
      migration_ready migration
      && is_given (some branch)
      && is_given (some clone)
      && is_given (some runner_id)
      && eq_option (some runner_id) (some runner_id)
      && eq_option (some runner_id) (if verified then some runner_id else none)

  counts_as_provisioned_iff : (counts_as_provisioned ≡ true) ↔ (
      HasArrived migration
      × (is_given (some branch) ≡ true)
      × (is_given (some clone) ≡ true)
      × (is_given (some runner_id) ≡ true)
      × (verified ≡ true))
  unfolding eq_option
  counts_as_provisioned_iff = (
    λ h. (
      (migration_ready_iff migration).0 (ground arith),
      ground arith,
      ground arith,
      ground arith,
      ground arith,
    ),
    λ (arrived, b, c, r, v).
        (let ready = (migration_ready_iff migration).1 arrived in
          rw (ready, b, c, r, v, if◌then◌else◌) (ground (arith, eq_refl runner_id))),
  )

-- After the report of a workspace that returned, the task counts as provisioned exactly if it has no
-- migration or an accepted one, the branch, the clone and the runner are not empty, and the workspace
-- was verified.
pub record_provisioning-provisioned :
    (s s' : Service) (task_id branch clone runner_id : String) (verified : Bool) (t t' : Task)
    → lookup task_id s.db.tasks ≡ some t
    → record_provisioning task_id branch clone runner_id verified s ≡ (ok t', s')
    → (provisioned t' ≡ true) ↔ (
        HasArrived t.migration
        × (is_given (some branch) ≡ true)
        × (is_given (some clone) ≡ true)
        × (is_given (some runner_id) ≡ true)
        × (verified ≡ true))
unfolding record_provisioning provisioned
record_provisioning-provisioned s s' task_id branch clone runner_id verified t t' row h =
    elim (bind-eq-ok (get_task task_id) _ h) [
      | ran u s1 got h1 ↦
          elim (bind-eq-ok (lift (provisioning_guards u branch runner_id))
            (λ _. save_task (reported u branch clone runner_id verified)) {before = s1} h1) [
              | ran _ s2 checked h2 ↦
                  let same : u ≡ t =
                    some-injective u t (sym (get_task-eq-ok task_id u s s1 got).0 ∙ row) in
                  let (valid, _) =
                    lift-eq-ok (provisioning_guards u branch runner_id) tt s1 s2 checked in
                  let owned = provisioning_guards_owned u branch runner_id valid in
                  let saved =
                    save_task-eq-ok (reported u branch clone runner_id verified) t' s2 s' h2 in
                  let kept : u.migration ≡ t.migration = ap (λ (v : Task). v.migration) same in
                  let counts : provisioned t'
                      ≡ counts_as_provisioned t.migration branch clone runner_id verified =
                    rw (saved, owned, kept) refl in
                  rw counts (counts_as_provisioned_iff t.migration branch clone runner_id verified)
            ]
    ]
