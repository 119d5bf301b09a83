-- ===== src/Taskservice/Rows/Usage.antt =====
-- The token usage of a task row (store_sqlalchemy.py): a running maximum.
use panopticon_next.Base.{
  ℕ, ◌≤◌, String, ◌≡◌, arith, inl, inr, Option, none, some, ok, Option-cases,
}
use panopticon_next.Base.Table.{lookup, lookup-put_self}
use panopticon_next.Core.Models.{Task}
use panopticon_next.Taskservice.Rows.{Store}
use panopticon_next.Taskservice.Rows.Tasks.{raised_tokens, set_tokens_used_max}

raised_tokens-le : (before : Option ℕ) (n : ℕ) → n ≤ raised_tokens before n
raised_tokens-le none n = omega arith
raised_tokens-le (some m) n = ground arith

le-raised_tokens : (m n : ℕ) → m ≤ raised_tokens (some m) n
le-raised_tokens m n = ground arith

-- A usage report leaves the row with a count that is at least the report and at least the count
-- before, so that a late report never lowers it.
pub set_tokens_used_max-le :
    (task_id : String) (tokens_used : ℕ) (updated_at : String) (db db' : Store) (t : Task)
    → set_tokens_used_max task_id tokens_used updated_at db ≡ ok (t, db')
    → (before : Task) × (n : ℕ) × (lookup task_id db.tasks ≡ some before)
      × (lookup task_id db'.tasks ≡ some t)
      × (t.tokens_used ≡ some n)
      × (tokens_used ≤ n)
      × ((m : ℕ) → before.tokens_used ≡ some m → m ≤ n)
unfolding set_tokens_used_max
set_tokens_used_max-le task_id tokens_used updated_at db db' t h =
    elim (Option-cases (lookup task_id db.tasks)) [
      | inl missing ↦ absurd (ground arith)
      | inr (before, found) ↦ (
        before,
        raised_tokens before.tokens_used tokens_used,
        found,
        ground (
          arith,
          lookup-put_self task_id
              (record before {
                tokens_used = some (raised_tokens before.tokens_used tokens_used);
                updated_at = some updated_at;
              })
              db.tasks,
        ),
        ground arith,
        raised_tokens-le before.tokens_used tokens_used,
        λ m was. rw was (le-raised_tokens m tokens_used),
      )
    ]
