-- ===== src/Taskservice/Claims/Setup.antt =====
-- Which tasks the setup of a repository holds (service.py).
use panopticon_next.Base.{
  String, ◌≡◌, ◌⊎◌, inl, inr, refl, ap, sym, ◌∙◌, arith, eq_iff, Bool, true, false, Bool-cases,
  Option-cases, Option, none, some, contains, not, ◌&&◌, ◌||◌, List, [], ◌∷◌, map, Result, ok, err,
  ◌==◌, if◌then◌else◌, any, select, not_ready,
}
use mathlib.Core.Option
use panopticon_next.Base.Table.{Table, lookup, values, put, lookup-put_self}
use panopticon_next.Core.Models.{Repo, Task}
use panopticon_next.Taskservice.Rows.Repos.{hold_tasks, setup_reason, set_repo_launch_pause}
use panopticon_next.Taskservice.Rows.{bump}
use panopticon_next.Taskservice.State.{Service}
use panopticon_next.Taskservice.Workflows.{task_is_terminal}
use panopticon_next.Taskservice.Liveness.{is_registered}
use panopticon_next.Taskservice.Claims.{in_flight, prepend, pending_of, begin_repo_setup}

-- A task of the repository that is not terminal and has no session.
abbrev pub is_unsettled : Service → String → Task → Bool
is_unsettled s repo_id t =
    t.repo_id == repo_id && not (task_is_terminal s.workflows t) && not (is_registered s t.id)

add_task :
    (same terminal registered flight refused : Bool) (t : Task) (held : List Task)
    (rest : Result (List String))
    → rest ≡ (if refused then err not_ready else ok (map (λ t. t.id) held))
    → (if not same || terminal || registered
        then rest
        else if flight
        then err not_ready
        else prepend t.id rest)
      ≡ (if ((same && not terminal && not registered) && flight) || refused
          then err not_ready
          else ok
              (map (λ t. t.id) (if same && not terminal && not registered then t ∷ held else held)))
add_task same terminal registered flight refused t held rest h = ground arith

-- A setup is refused exactly when the launch of a live task of the repository that has no session
-- may be on its way; otherwise it holds all the live tasks of the repository without a session and
-- no other, in order.
pending_of_lem :
    (s : Service) (repo_id : String) (ts : List Task)
    → pending_of s repo_id ts ≡ (
        if any (λ t. is_unsettled s repo_id t && in_flight s t) ts
        then err not_ready
        else ok (map (λ t. t.id) (select (λ t. is_unsettled s repo_id t) ts)))
unfolding pending_of
pending_of_lem s repo_id [] = refl
pending_of_lem s repo_id (t ∷ ts) =
    add_task (t.repo_id == repo_id) (task_is_terminal s.workflows t) (is_registered s t.id)
      (in_flight s t) (any (λ t. is_unsettled s repo_id t && in_flight s t) ts) t
      (select (λ t. is_unsettled s repo_id t) ts) (pending_of s repo_id ts)
      (pending_of_lem s repo_id ts)

-- Each row stands under the id of its task, and no id has two rows.
abbrev pub IsKeyed : Table Task → Type 0
IsKeyed [] = Unit
IsKeyed ((k, t) ∷ rows) = (t.id ≡ k) × (lookup k rows ≡ none) × IsKeyed rows

abbrev holds_for : (Task → Bool) → Option Task → Bool
holds_for p none = false
holds_for p (some t) = p t

contains-select_first :
    (b : Bool) (t : Task) (ts : List Task) (id : String)
    → contains (map (λ t. t.id) (if b then t ∷ ts else ts)) id
      ≡ ((b && t.id == id) || contains (map (λ t. t.id) ts) id)
contains-select_first true t ts id = refl
contains-select_first false t ts id = refl

-- An id is selected exactly if the test holds of its row.
contains-select :
    (p : Task → Bool) (rows : Table Task) (id : String)
    → IsKeyed rows
    → contains (map (λ t. t.id) (select p (values rows))) id ≡ holds_for p (lookup id rows)
unfolding lookup values
contains-select p [] id keyed = refl
contains-select p ((k, t) ∷ rows) id (same, only, keyed) =
    let rest = contains-select p rows id keyed in
    contains-select_first (p t) t (select p (values rows)) id ∙ elim (Bool-cases (k == id)) [
      | inl here ↦
          let gone : lookup id rows ≡ none =
            ap (λ i. lookup i rows) (sym ((eq_iff k id).0 here)) ∙ only in
          rw (rest, gone, same, here, if◌then◌else◌) (ground arith)
      | inr there ↦ rw (rest, same, there, if◌then◌else◌) (ground arith)
    ]

-- A task whose launch is held by a setup.
abbrev pub held : Task → Task
held t = record t { launch_paused = true; launch_pause_reason = some setup_reason }

lookup-hold_tasks :
    (repo_id : String) (ids : List String) (rows : Table Task) (id : String)
    → lookup id (hold_tasks repo_id ids rows)
      ≡ Option.map
          (λ t. if t.repo_id == repo_id && contains ids id then held t else t)
          (lookup id rows)
unfolding lookup hold_tasks
lookup-hold_tasks repo_id ids [] id = refl
lookup-hold_tasks repo_id ids ((k, t) ∷ rows) id =
    ground (arith, eq_iff k id, lookup-hold_tasks repo_id ids rows id)

module _ (s : Service) (repo_id : String) where
  -- A launch of a live task of the repository that has no session may be on its way.
  abbrev pub launch_is_open : Bool
  launch_is_open = any (λ t. is_unsettled s repo_id t && in_flight s t) (values s.db.tasks)

  -- The ids that the setup holds.
  abbrev ids : List String
  ids = map (λ t. t.id) (select (λ t. is_unsettled s repo_id t) (values s.db.tasks))

  rows_held :
      (id : String)
      → IsKeyed s.db.tasks
      → lookup id (hold_tasks repo_id ids s.db.tasks)
        ≡ Option.map (λ t. if is_unsettled s repo_id t then held t else t) (lookup id s.db.tasks)
  rows_held id keyed =
      lookup-hold_tasks repo_id ids s.db.tasks id ∙ elim (Option-cases (lookup id s.db.tasks)) [
        | inl missing ↦ rw missing refl
        | inr (t, row) ↦
            let chosen : contains ids id ≡ is_unsettled s repo_id t =
              contains-select (λ t. is_unsettled s repo_id t) s.db.tasks id keyed
              ∙ ap (holds_for (λ t. is_unsettled s repo_id t)) row in
            rw (row, chosen) (ap (λ b. some (if b then held t else t)) (ground arith))
      ]

  -- The service once the setup holds them.
  abbrev after : Repo → Service
  after repo = record s {
    db = bump (record s.db {
      repos = put repo_id (record repo { launch_paused = true }) s.db.repos;
      tasks = hold_tasks repo_id ids s.db.tasks;
    });
  }

  -- If each task row stands under the id of its task and no id has two rows, then the setup of a
  -- stored repository is refused, with nothing changed, exactly when the launch of a live task of it
  -- that has no session may be on its way. Otherwise the repository is held, and the launches of its
  -- live tasks without a session are held, and no other task changes.
  pub begin_repo_setup-holds :
      (repo : Repo)
      → lookup repo_id s.db.repos ≡ some repo
      → IsKeyed s.db.tasks
      → ((launch_is_open ≡ true) × (begin_repo_setup repo_id s ≡ (err not_ready, s)))
        ⊎ ((launch_is_open ≡ false)
            × (s' : Service) × (begin_repo_setup repo_id s
                ≡ (ok (record repo { launch_paused = true }), s'))
            × ((id : String)
                → lookup id s'.db.tasks
                  ≡ Option.map
                      (λ t. if is_unsettled s repo_id t then held t else t)
                      (lookup id s.db.tasks)))
  unfolding begin_repo_setup set_repo_launch_pause lookup put
  begin_repo_setup-holds repo found keyed = elim (Bool-cases launch_is_open) [
    | inl busy ↦
        let refused =
          pending_of_lem s repo_id (values s.db.tasks)
          ∙ ap (λ b. if b then err not_ready else ok ids) busy in
        inl (busy, rw (found, refused) refl)
    | inr settled ↦
        let holds =
          pending_of_lem s repo_id (values s.db.tasks)
          ∙ ap (λ b. if b then err not_ready else ok ids) settled in
        inr (
          settled,
          after repo,
          rw (found, holds, if◌then◌else◌, found) (rw lookup-put_self refl),
          λ id. rows_held id keyed,
        )
  ]
