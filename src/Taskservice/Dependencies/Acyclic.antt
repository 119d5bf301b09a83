-- ===== src/Taskservice/Dependencies/Acyclic.antt =====
-- A dependency list that passes the validation keeps the whole dependency graph without cycles.
use mathlib.Core.Path.{subst}
use panopticon_next.Base.{
  String, ◌≡◌, true, false, List, arith, ok, ◌==◌, eq_iff, contains, Bool-cases, inl, inr,
}
use panopticon_next.Base.Table.{assign, values, lookup-assign}
use panopticon_next.Taskservice.Rows.{Store}
use panopticon_next.Taskservice.Dependencies.{
  DependencyGraph, dependencies_of, stored_graph, validate_dependencies,
}
use panopticon_next.Taskservice.Dependencies.Search.{Settled, settled, dependency_cycle_decides}

module _ (g : DependencyGraph) (start : String) (ids : List String) where
  abbrev rewired : DependencyGraph
  rewired = assign start ids g

  dependencies_of-rewired :
      (x : String) → (start == x) ≡ false → dependencies_of rewired x ≡ dependencies_of g x
  unfolding dependencies_of
  dependencies_of-rewired x other = ground (arith, lookup-assign start x ids g)

  Settled-rewired : Settled rewired start → (x : String) → Settled g x → Settled rewired x
  Settled-rewired here x (settled _ below) = elim (Bool-cases (start == x)) [
    | inl same ↦ subst (Settled rewired) ((eq_iff start x).0 same) here
    | inr other ↦ settled x (λ d edge.
        Settled-rewired here d
          (below d (subst (λ ds. contains ds d ≡ true) (dependencies_of-rewired x other) edge)))
  ]

-- If every chain of dependencies among the stored tasks ends and a new dependency list for a task
-- passes the validation, then every chain ends with the new list in place too.
pub validate_dependencies-keeps_Settled :
    (task_id : String) (ids : List String) (db : Store)
    → ((x : String) → Settled (stored_graph (values db.tasks)) x)
    → validate_dependencies task_id ids db ≡ ok tt
    → (x : String) → Settled (assign task_id ids (stored_graph (values db.tasks))) x
unfolding validate_dependencies
validate_dependencies-keeps_Settled task_id ids db all valid x =
    let g = stored_graph (values db.tasks) in
    elim (dependency_cycle_decides (assign task_id ids g) task_id) [
      | inl (c, is, _) ↦ absurd (ground arith)
      | inr (v, is, here) ↦ Settled-rewired g task_id ids here x (all x)
    ]
