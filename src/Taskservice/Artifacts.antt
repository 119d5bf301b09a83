-- ===== src/Taskservice/Artifacts.antt =====
-- The artifact store: `validate_segment` of src/panopticon/core/artifacts.py, the directories and
-- slug aliases of taskservice/artifacts_fs.py, and the artifact methods of service.py.
use panopticon_next.Base.{
  ℕ, ◌+◌, String, Bool, true, false, not, ◌&&◌, ◌||◌, Option, none, some, List, [], ◌∷◌, map,
  Result, ok, err, ◌==◌, if◌then◌else◌, is_some, eq_nat, codes, invalid_artifact_name,
}
use panopticon_next.Base
use panopticon_next.Base.Exec.{raise_if, lift, modify, ◌>>=◌, ◌>>◌}
use panopticon_next.Base.Table.{Table, lookup, put, remove}
use panopticon_next.Taskservice.State.{Method, get_task, notify_change}

abbrev has_code : ℕ → List ℕ → Bool
has_code n [] = false
has_code n (c ∷ cs) = eq_nat c n || has_code n cs

-- A path segment is not empty, holds no separator and is not a directory sentinel.
unfoldable pub is_segment : String → Bool
is_segment s =
    not (s == "")
    && not (has_code b'/' (codes s))
    && not (has_code 0x5c (codes s))
    && not (s == ".")
    && not (s == "..")

unfoldable pub validate_segment : String → Result (Unit {0})
unfolding is_segment
validate_segment s = Base.raise_if (not (is_segment s)) invalid_artifact_name

abbrev pub files_of : Option (Table String) → Table String
files_of none = []
files_of (some files) = files

-- `FsArtifactStore.put`.
unfoldable pub put_file : String → String → String → Method (Unit {0})
unfolding validate_segment
put_file task_id name content = do
  lift (validate_segment name)
  lift (validate_segment task_id)
  modify (λ s. record s {
    artifacts = put task_id (put name content (files_of (lookup task_id s.artifacts))) s.artifacts;
  })

unfoldable pub put_artifact : String → String → String → Method (Unit {0})
unfolding put_file
put_artifact task_id name content = do
  t ← get_task task_id
  put_file task_id name content
  notify_change

unfoldable pub get_artifact : String → String → Method (Option String)
unfolding validate_segment
get_artifact task_id name = do
  t ← get_task task_id
  lift (validate_segment name)
  lift (validate_segment task_id)
  λ s. (ok (lookup name (files_of (lookup task_id s.artifacts))), s)

unfoldable pub list_artifacts : String → Method (List String)
unfolding validate_segment
list_artifacts task_id = do
  t ← get_task task_id
  lift (validate_segment task_id)
  λ s. (ok (map (λ row. row.0) (files_of (lookup task_id s.artifacts))), s)

-- `_link_slug_sync`: an alias that is there must be this task's, and no directory is hidden.
unfoldable pub link_slug : String → String → Method (Unit {0})
unfolding validate_segment
link_slug task_id slug = do
  lift (validate_segment task_id)
  lift (validate_segment slug)
  λ s. elim (lookup slug s.aliases) [
    | some owner ↦ raise_if (not (owner == task_id)) invalid_artifact_name s
    | none ↦ elim (lookup slug s.artifacts) [
      | some files ↦ (err invalid_artifact_name, s)
      | none ↦ (
        ok tt,
        record s {
          artifacts = put task_id (files_of (lookup task_id s.artifacts)) s.artifacts;
          aliases = put slug task_id s.aliases;
        },
      )
    ]
  ]

unfoldable pub unlink_slug : String → Method (Unit {0})
unfolding validate_segment
unlink_slug slug = do
  lift (validate_segment slug)
  modify (λ s. record s { aliases = remove slug s.aliases })
