-- ===== src/Taskservice/Rows/Mapping/RoundTrips.antt =====
-- What is stored is read back (taskservice/store_sqlalchemy.py): `to_domain` after `from_domain`.
use panopticon_next.Base.{
  ℕ, suc, ◌≡◌, refl, ap, ◌∙◌, arith, Option, none, some, List, [], ◌∷◌, Result, ok,
}
use mathlib.Core.Option
use panopticon_next.Core.Models.{
  Actor, Status, WakeStatus, SessionInputStatus, SessionInput, Responsibility, HistoryEntry,
  MigrationRecord, Repo, Task,
}
use panopticon_next.Taskservice.Rows.Mapping.{
  actor_value, actor_of, status_value, status_of, wake_value, wake_of, input_value, input_of,
  repo_from_domain, repo_to_domain, responsibility_from_domain, responsibility_to_domain, each,
  enumerate, insert_by, order_by, history_from_domain, history_to_domain, migration_json,
  migration_of_json, optional_migration, task_from_domain, task_to_domain, input_from_domain,
  input_to_domain,
}

actor_of-actor_value : (a : Actor) → actor_of (actor_value a) ≡ ok a
actor_of-actor_value Actor.user = refl
actor_of-actor_value Actor.agent = refl

status_of-status_value : (s : Status) → status_of (status_value s) ≡ ok s
status_of-status_value Status.pending = refl
status_of-status_value Status.met = refl
status_of-status_value Status.failed = refl

wake_of-wake_value : (s : WakeStatus) → wake_of (wake_value s) ≡ ok s
wake_of-wake_value WakeStatus.pending = refl
wake_of-wake_value WakeStatus.delivered = refl
wake_of-wake_value WakeStatus.skipped = refl

input_of-input_value : (s : SessionInputStatus) → input_of (input_value s) ≡ ok s
input_of-input_value SessionInputStatus.pending = refl
input_of-input_value SessionInputStatus.delivered = refl
input_of-input_value SessionInputStatus.failed = refl

-- Rows that carry their position are read back in the order in which they were made.
module _ {ℓ κ} {A : Type ℓ} {B : Type κ} (to_row : A → ℕ → B) (column : B → ℕ)
    (at_column : (x : A) (i : ℕ) → column (to_row x i) ≡ i) where
  order_by-enumerate :
      (i : ℕ) (xs : List A) → order_by column (enumerate to_row i xs) ≡ enumerate to_row i xs
  unfolding order_by insert_by enumerate
  order_by-enumerate i [] = refl
  order_by-enumerate i (x ∷ []) = refl
  order_by-enumerate i (x ∷ y ∷ xs) =
      ap (insert_by column (to_row x i)) (order_by-enumerate (suc i) (y ∷ xs)) ∙ first
    where
      first :
          insert_by column (to_row x i) (enumerate to_row (suc i) (y ∷ xs))
          ≡ to_row x i ∷ enumerate to_row (suc i) (y ∷ xs)
      first = rw (at_column x i, at_column y (suc i)) (ground arith)

  each-enumerate :
      (of_row : B → Result A)
      → ((x : A) (i : ℕ) → of_row (to_row x i) ≡ ok x)
      → (i : ℕ) (xs : List A) → each of_row (enumerate to_row i xs) ≡ ok xs
  unfolding each enumerate
  each-enumerate of_row back i [] = refl
  each-enumerate of_row back i (x ∷ xs) =
      rw (back x i) (rw (each-enumerate of_row back (suc i) xs) refl)

  each-order_by :
      (of_row : B → Result A)
      → ((x : A) (i : ℕ) → of_row (to_row x i) ≡ ok x)
      → (xs : List A) → each of_row (order_by column (enumerate to_row 0 xs)) ≡ ok xs
  each-order_by of_row back xs =
      ap (each of_row) (order_by-enumerate 0 xs) ∙ each-enumerate of_row back 0 xs

responsibility_back :
    (r : Responsibility) (i : ℕ) → responsibility_to_domain (responsibility_from_domain r i) ≡ ok r
unfolding responsibility_to_domain
responsibility_back r i = rw (status_of-status_value r.status) refl

history_back : (e : HistoryEntry) (i : ℕ) → history_to_domain (history_from_domain e i) ≡ ok e
unfolding history_to_domain history_from_domain
history_back e i =
    rw
      (each-order_by responsibility_from_domain (λ r. r.idx) (λ r j. refl) responsibility_to_domain
        responsibility_back e.responsibilities)
      (rw (wake_of-wake_value e.wake_status) refl)

migration_back :
    (m : Option MigrationRecord) → optional_migration (Option.map migration_json m) ≡ ok m
unfolding optional_migration migration_of_json
migration_back none = refl
migration_back (some m) = refl

history_seq : (e : HistoryEntry) (i : ℕ) → (history_from_domain e i).seq ≡ i
unfolding history_from_domain
history_seq e i = refl

task_back : (t : Task) → task_to_domain (task_from_domain t) ≡ ok t
unfolding task_to_domain task_from_domain
task_back t = rw (actor_of-actor_value t.turn) (
    rw (migration_back t.migration) (
      rw
        (each-order_by history_from_domain (λ h. h.seq) history_seq history_to_domain history_back
          t.history)
        refl))

input_back : (i : SessionInput) → input_to_domain (input_from_domain i) ≡ ok i
unfolding input_to_domain
input_back i = rw (input_of-input_value i.status) refl

-- A repository, a task with its history and its promises, and a session input are read back as they
-- were stored.
pub to_domain-from_domain :
    (repo : Repo) (task : Task) (input : SessionInput)
    → (repo_to_domain (repo_from_domain repo) ≡ repo)
      × (task_to_domain (task_from_domain task) ≡ ok task)
      × (input_to_domain (input_from_domain input) ≡ ok input)
to_domain-from_domain repo task input = (refl, task_back task, input_back input)
