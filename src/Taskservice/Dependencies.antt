-- ===== src/Taskservice/Dependencies.antt =====
-- The dependency graph of the tasks (service.py): the cycle search, the validation of a new
-- dependency list, and what blocks a task.
pub mod Rounds
pub mod Search
pub mod Acyclic
pub mod Blocking
use panopticon_next.Base.{
  ℕ, zero, suc, ◌+◌, String, Bool, true, false, not, ◌||◌, Option, none, some, List, [], ◌∷◌, ◌++◌,
  Result, ok, err, ◌>>=◌, ◌>>◌, raise_if, ◌==◌, if◌then◌else◌, is_some, contains, any, length,
  eq_nat, not_found, value_error, recursion_error,
}
use panopticon_next.Base.Table.{Table, lookup, assign, values}
use panopticon_next.Core.Models.{Task, dropped_label}
use panopticon_next.Core.Workflow.{Workflow}
use panopticon_next.Taskservice.Rows.{Store}
use panopticon_next.Taskservice.Workflows.{task_is_terminal}

-- The dependency ids of each task.
abbrev pub DependencyGraph : Type 0
DependencyGraph = Table (List String)

-- `graph.get(task_id, [])`.
unfoldable pub dependencies_of : DependencyGraph → String → List String
dependencies_of g x = elim (lookup x g) [ none ↦ [] | some ds ↦ ds ]

-- How a search ends; `stuck` is fuel that ran out.
pub data Outcome : Type 0 where
  found : List String → Outcome
  clear : List String → Outcome
  stuck : Outcome

-- `path[positions[x]:]`: the path from `x` on. Ids stand on the path once, so that the position
-- of an id is where it stands.
abbrev pub from_position : String → List String → List String
from_position x [] = []
from_position x (y ∷ path) = let rest = from_position x path in if y == x then y ∷ path else rest

-- The loop over the dependencies of one task, threading the visited set.
unfoldable pub search_all : (String → List String → Outcome) → List String → List String → Outcome
search_all visit [] visited = clear visited
search_all visit (d ∷ ds) visited = elim (visit d visited) [
  | found cycle ↦ found cycle
  | clear visited' ↦ search_all visit ds visited'
  | stuck ↦ stuck
]

abbrev pub leave : String → Outcome → Outcome
leave x (found cycle) = found cycle
leave x (clear visited) = clear (x ∷ visited)
leave x stuck = stuck

-- The inner function `visit` of `_dependency_cycle`.
unfoldable pub visit : DependencyGraph → ℕ → List String → String → List String → Outcome
visit g zero path x visited = stuck
visit g (suc fuel) path x visited =
    let deeper =
      search_all (λ d v. visit g fuel (path ++ x ∷ []) d v) (dependencies_of g x) visited in
    if contains path x
    then found (from_position x path ++ x ∷ [])
    else if contains visited x
    then clear visited
    else leave x deeper

unfoldable pub dependency_cycle : DependencyGraph → String → Outcome
dependency_cycle g start = visit g (length g + 1) [] start []

abbrev missing : Store → List String → Bool
missing db ids = any (λ d. not (is_some (lookup d db.tasks))) ids

-- The graph of the stored rows.
unfoldable pub stored_graph : List Task → DependencyGraph
stored_graph [] = []
stored_graph (t ∷ ts) = (t.id, t.depends_on_task_ids) ∷ stored_graph ts

abbrev pub no_cycle : Outcome → Result (Unit {0})
no_cycle (found cycle) = err value_error
no_cycle (clear visited) = ok tt
no_cycle stuck = err recursion_error

-- `_validate_dependencies`.
unfoldable pub validate_dependencies : String → List String → Store → Result (Unit {0})
validate_dependencies task_id ids db = do
  raise_if (missing db ids) not_found
  no_cycle (dependency_cycle (assign task_id ids (stored_graph (values db.tasks))) task_id)

-- `dependency_blocks`.
unfoldable pub dependency_blocks : Table Workflow → Task → Bool
dependency_blocks workflows dependency =
    dependency.state == dropped_label || not (task_is_terminal workflows dependency)

-- `dependency_tasks`: the rows of those dependencies that exist.
unfoldable pub dependency_tasks : Table Task → List String → List Task
dependency_tasks tasks [] = []
dependency_tasks tasks (d ∷ ds) = elim (lookup d tasks) [
  | none ↦ dependency_tasks tasks ds
  | some dependency ↦ dependency ∷ dependency_tasks tasks ds
]

unfoldable pub dependencies_blocking : Table Workflow → Table Task → Task → Bool
unfolding dependency_blocks dependency_tasks
dependencies_blocking workflows tasks t =
    let dependencies = dependency_tasks tasks t.depends_on_task_ids in
    not (eq_nat (length dependencies) (length t.depends_on_task_ids))
    || any (λ d. dependency_blocks workflows d) dependencies

abbrev pub blocks_or_missing : Table Workflow → Option Task → Bool
blocks_or_missing workflows none = true
blocks_or_missing workflows (some d) = dependency_blocks workflows d

unfoldable pub dependencies_blocking_in_snapshot : Table Workflow → Task → Table Task → Bool
unfolding dependency_blocks
dependencies_blocking_in_snapshot workflows t tasks_by_id =
    any (λ d. blocks_or_missing workflows (lookup d tasks_by_id)) t.depends_on_task_ids
