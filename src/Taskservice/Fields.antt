-- ===== src/Taskservice/Fields.antt =====
-- The recorded facts of a task (service.py): slug, url, snooze, tokens, turn, markers, governor
-- and dependencies.
use panopticon_next.Base.{
  ℕ, String, Bool, false, not, Option, none, some, List, ok, err, ◌==◌, if◌then◌else◌, eq_option,
}
use panopticon_next.Base.Exec.{pure, raise, lift, when, ◌>>=◌, ◌>>◌}
use panopticon_next.Core.Models.{Actor, Task, eq_actor}
use panopticon_next.Taskservice.Rows.Tasks.{set_tokens_used_max}
use panopticon_next.Taskservice.State.{Method, now, get_task, save_task}
use panopticon_next.Taskservice.Dependencies.{validate_dependencies}
use panopticon_next.Taskservice.Artifacts.{validate_segment, link_slug, unlink_slug}

-- `try: save  except: undo; raise`.
abbrev or_undo : Method Task → Method (Unit {0}) → Method Task
or_undo m undo s = let (r, s') = m s in elim r [ ok t ↦ (ok t, s') | err e ↦ (do undo; raise e) s' ]

abbrev drop_alias : Option String → String → Method (Unit {0})
drop_alias none slug = pure tt
drop_alias (some previous) slug = if previous == slug then pure tt else unlink_slug previous

-- The alias is made first, so that a recorded slug always has its alias.
unfoldable pub set_slug : String → String → Method Task
set_slug task_id slug = do
  t ← get_task task_id
  lift (validate_segment slug)
  link_slug task_id slug
  saved ←
      or_undo (save_task (record t { slug = some slug }))
        (when (not (eq_option t.slug (some slug))) (unlink_slug slug))
  drop_alias t.slug slug
  pure saved

unfoldable pub set_url : String → String → Method Task
set_url task_id url = do t ← get_task task_id; save_task (record t { url = some url })

unfoldable pub set_snooze : String → Option String → Method Task
set_snooze task_id until = do t ← get_task task_id; save_task (record t { snoozed_until = until })

-- Reports are monotonic; only the token count and the stamp are written.
unfoldable pub set_tokens_used : String → ℕ → Method Task
set_tokens_used task_id tokens_used = do
  at ← now
  λ s. elim (set_tokens_used_max task_id tokens_used at s.db) [
    | ok (t, db) ↦ (ok t, record s { db = db })
    | err e ↦ (err e, s)
  ]

unfoldable pub set_token_estimate : String → ℕ → Method Task
set_token_estimate task_id estimate = do
  t ← get_task task_id
  save_task (record t { token_estimate = some estimate })

-- A turn-to-agent write clears the markers; a turn-to-user write keeps them.
unfoldable pub set_turn : String → Actor → Method Task
set_turn task_id turn = do
  t ← get_task task_id
  save_task (
      if eq_actor turn Actor.agent
      then record t { turn = turn; blocked = false; attention = false }
      else record t { turn = turn })

unfoldable pub set_blocked : String → Bool → Method Task
set_blocked task_id blocked = do t ← get_task task_id; save_task (record t { blocked = blocked })

unfoldable pub set_attention : String → Bool → Method Task
set_attention task_id attention = do
  t ← get_task task_id
  save_task (record t { attention = attention })

abbrev governor_exists : Option String → Method (Unit {0})
governor_exists none = pure tt
governor_exists (some governor) = do g ← get_task governor; pure tt

unfoldable pub set_governor : String → Option String → Method Task
set_governor task_id governor = do
  t ← get_task task_id
  governor_exists governor
  save_task (record t { governor_task_id = governor })

unfoldable pub set_dependencies : String → List String → Method Task
set_dependencies task_id ids = do
  t ← get_task task_id
  λ s. (validate_dependencies task_id ids s.db, s)
  save_task (record t { depends_on_task_ids = ids })
