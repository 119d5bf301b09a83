-- ===== src/Taskservice/Rows/Repos.antt =====
-- The repo rows, and the two launch-pause writes (store_sqlalchemy.py).
use panopticon_next.Base.{
  String, Bool, true, ◌&&◌, Option, none, some, List, [], ◌∷◌, Result, ok, ◌>>=◌, ◌>>◌, raise_if,
  or_raise, ◌==◌, if◌then◌else◌, is_some, contains, any, not_found, already_exists, integrity_error,
}
use panopticon_next.Base.Table.{Table, lookup, put, remove, values}
use panopticon_next.Core.Models.{Repo, Task}
use panopticon_next.Taskservice.Rows.{Store, bump}

unfoldable pub create_repo : Repo → Store → Result Store
create_repo repo db = do
  raise_if (is_some (lookup repo.id db.repos)) already_exists
  ok (record db { repos = put repo.id repo db.repos })

-- The row keeps its `launch_paused`, which only the pause write changes.
unfoldable pub update_repo : Repo → Store → Result Store
update_repo repo db = do
  row ← or_raise (lookup repo.id db.repos) not_found
  ok (record db {
    repos = put repo.id (record repo { launch_paused = row.launch_paused }) db.repos;
  })

unfoldable pub references : String → List Task → Bool
references repo_id tasks = any (λ t. t.repo_id == repo_id) tasks

unfoldable pub delete_repo : String → Store → Result Store
unfolding references
delete_repo repo_id db = do
  row ← or_raise (lookup repo_id db.repos) not_found
  raise_if (references repo_id (values db.tasks)) integrity_error
  ok (record db { repos = remove repo_id db.repos })

abbrev pub setup_reason : String
setup_reason = "Setup paused this task; retry it after setup."

-- The `UPDATE … WHERE repo_id = … AND id IN …` over the task rows.
unfoldable pub hold_tasks : String → List String → Table Task → Table Task
hold_tasks repo_id ids [] = []
hold_tasks repo_id ids ((id, t) ∷ rows) =
    let rest = hold_tasks repo_id ids rows in
    if t.repo_id == repo_id && contains ids id
    then (id, record t { launch_paused = true; launch_pause_reason = some setup_reason }) ∷ rest
    else (id, t) ∷ rest

unfoldable pub set_repo_launch_pause : String → Bool → List String → Store → Result Store
unfolding hold_tasks
set_repo_launch_pause repo_id paused ids db = do
  row ← or_raise (lookup repo_id db.repos) not_found
  ok (
      bump (record db {
        repos = put repo_id (record row { launch_paused = paused }) db.repos;
        tasks = hold_tasks repo_id ids db.tasks;
      }))

unfoldable pub set_task_launch_pause : String → Bool → Option String → Bool → Store → Result Store
set_task_launch_pause task_id paused reason release_claim db = do
  row ← or_raise (lookup task_id db.tasks) not_found
  let held = record row { launch_paused = paused; launch_pause_reason = reason }
  let row' = if release_claim then record held { claimed_by = none } else held
  ok (bump (record db { tasks = put task_id row' db.tasks }))
