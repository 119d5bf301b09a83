-- ===== src/Taskservice/Dependencies/Blocking.antt =====
-- The two ways in which the source asks whether dependencies block a task agree: the count of the
-- rows that are read from the store, and the look into a snapshot.
use panopticon_next.Base.{
  ◌≤◌, String, ◌≡◌, refl, arith, inl, inr, not, ◌||◌, List, [], ◌∷◌, any, length, eq_nat,
  Option-cases,
}
use panopticon_next.Base.Table.{Table, lookup}
use panopticon_next.Core.Models.{Task}
use panopticon_next.Core.Workflow.{Workflow}
use panopticon_next.Taskservice.Dependencies.{
  dependency_blocks, dependency_tasks, blocks_or_missing, dependencies_blocking,
  dependencies_blocking_in_snapshot,
}

module _ (workflows : Table Workflow) (tasks : Table Task) where
  length-dependency_tasks : (ids : List String) → length (dependency_tasks tasks ids) ≤ length ids
  unfolding dependency_tasks
  length-dependency_tasks [] = omega arith
  length-dependency_tasks (d ∷ ds) = ground (arith, length-dependency_tasks ds)

  blocking_ids :
      (ids : List String)
      → (not (eq_nat (length (dependency_tasks tasks ids)) (length ids))
          || any (λ d. dependency_blocks workflows d) (dependency_tasks tasks ids))
        ≡ any (λ d. blocks_or_missing workflows (lookup d tasks)) ids
  unfolding dependency_tasks
  blocking_ids [] = refl
  blocking_ids (d ∷ ds) = elim (Option-cases (lookup d tasks)) [
    | inl missing ↦ ground (arith, length-dependency_tasks ds)
    | inr (u, found) ↦ ground (arith, blocking_ids ds)
  ]

-- The readiness that is read row by row from the store is the one that is derived from a snapshot
-- of the same rows.
pub dependencies_blocking-eq_snapshot :
    (workflows : Table Workflow) (tasks : Table Task) (t : Task)
    → dependencies_blocking workflows tasks t ≡ dependencies_blocking_in_snapshot workflows t tasks
unfolding dependencies_blocking dependencies_blocking_in_snapshot
dependencies_blocking-eq_snapshot workflows tasks t =
    blocking_ids workflows tasks t.depends_on_task_ids
