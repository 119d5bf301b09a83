-- ===== src/Taskservice/Repositories/Stored.antt =====
-- The repositories that taskservice/service.py stores stay valid, whatever a call answers.
use panopticon_next.Base.{
  String, ◌≡◌, inl, inr, refl, sym, ◌∙◌, Bool, Option, none, some, Result, ok, err, All,
  Result-cases, ok-injective, or_raise, >>=-eq-ok, raise_if->>-eq-ok, is_some, ◌==◌, if◌then◌else◌,
  Bool-cases, not_found,
}
use mathlib.Core.Option.{some-injective}
use mathlib.Core.Path.{subst}
use panopticon_next.Base.Exec
use panopticon_next.Base.Exec.{Exec, lift, pure, require}
use panopticon_next.Base.Table.{Table, lookup, put, lookup-put, All-lookup}
use panopticon_next.Core.Models.{Repo}
use panopticon_next.Taskservice.Rows.{Store}
use panopticon_next.Taskservice.Rows.Repos.{create_repo as create_row, update_repo as update_row}
use panopticon_next.Taskservice.State.{Service, Method, commit}
use panopticon_next.Taskservice.Repositories.{
  Secrets, RepoChanges, checked_repo, changed_repo, create_repo, update_repo,
}
use panopticon_next.Taskservice.Repositories.Rules.{
  IsValid, checked_repo-IsValid, changed_repo-IsValid,
}

-- Every stored repository is valid.
pub AreValid : Table Repo → Type 0
AreValid repos = (id : String) (repo : Repo) → lookup id repos ≡ some repo → IsValid repo

-- It is enough that every row is valid.
pub rows-AreValid : (repos : Table Repo) → All (λ row. IsValid row.1) repos → AreValid repos
unfolding AreValid
rows-AreValid repos rows id repo found =
    let (j, same, valid) = All-lookup (λ row. IsValid row.1) repos id rows found in valid

put-AreValid :
    (repos : Table Repo) (id : String) (repo : Repo)
    → AreValid repos
    → IsValid repo
    → AreValid (put id repo repos)
unfolding AreValid
put-AreValid repos id repo all valid j other found = elim (Bool-cases (id == j)) [
  | inl same ↦
      let at : (if id == j then some repo else lookup j repos) ≡ some other =
        sym (lookup-put id j repo repos) ∙ found in
      subst IsValid (some-injective repo other (rw (same, if◌then◌else◌) at at)) valid
  | inr differs ↦
      let at : (if id == j then some repo else lookup j repos) ≡ some other =
        sym (lookup-put id j repo repos) ∙ found in
      all j other (rw (differs, if◌then◌else◌) at at)
]

-- What holds of the rows before a call and after each of its writes holds after the call.
module _ (P : Store → Type 0) (s : Service) (before : P s.db) where
  after_lift :
      {A B : Type 0} (r : Result A) (next : A → Method B)
      → ((a : A) → r ≡ ok a → P (next a s).1.db)
      → P (Exec.◌>>=◌ (lift r) next s).1.db
  after_lift (err e) next later = before
  after_lift (ok a) next later = later a refl

  after_require :
      {A B : Type 0} (o : Option A) (next : A → Method B)
      → ((a : A) → o ≡ some a → P (next a s).1.db)
      → P (Exec.◌>>=◌ (require o not_found) next s).1.db
  after_require none next later = before
  after_require (some a) next later = later a refl

  after_commit :
      {B : Type 0} (write : Store → Result Store) (v : B)
      → ((db : Store) → write s.db ≡ ok db → P db)
      → P (Exec.◌>>◌ (commit write) (pure v) s).1.db
  after_commit write v later = elim (Result-cases (write s.db)) [
    | inl (db, wrote) ↦ rw (commit, wrote) (later db wrote)
    | inr (e, refused) ↦ rw (commit, refused) before
  ]

create_row-AreValid :
    (repo : Repo) (db db' : Store)
    → AreValid db.repos
    → IsValid repo
    → create_row repo db ≡ ok db'
    → AreValid db'.repos
unfolding create_row
create_row-AreValid repo db db' all valid h =
    let (fresh, h1) = raise_if->>-eq-ok (is_some (lookup repo.id db.repos)) _ _ h in
    subst (λ d. AreValid d.repos)
      (ok-injective (record db { repos = put repo.id repo db.repos }) db' h1)
      (put-AreValid db.repos repo.id repo all valid)

-- The pause of a repository is no part of its rules.
paused_alike :
    (repo : Repo) (paused : Bool) → IsValid repo → IsValid (record repo { launch_paused = paused })
paused_alike repo paused v = record {
  named = v.named;
  located = v.located;
  harness = v.harness;
  model = v.model;
  honesty = v.honesty;
  first = v.first;
  second = v.second;
}

update_row-AreValid :
    (repo : Repo) (db db' : Store)
    → AreValid db.repos
    → IsValid repo
    → update_row repo db ≡ ok db'
    → AreValid db'.repos
unfolding update_row
update_row-AreValid repo db db' all valid h =
    let (row, found, h1) = >>=-eq-ok (or_raise (lookup repo.id db.repos) _) _ h in
    let kept = record repo { launch_paused = row.launch_paused } in
    subst (λ d. AreValid d.repos)
      (ok-injective (record db { repos = put repo.id kept db.repos }) db' h1)
      (put-AreValid db.repos repo.id kept all (paused_alike repo row.launch_paused valid))

module _ (secrets : Secrets) (s : Service) where
  create_repo-AreValid :
      (repo : Repo) → AreValid s.db.repos → AreValid (create_repo secrets repo s).1.db.repos
  unfolding create_repo
  create_repo-AreValid repo all =
      after_lift (λ db. AreValid db.repos) s all (checked_repo secrets repo) _
        (λ stored checked.
          after_commit (λ db. AreValid db.repos) s all (create_row stored) stored
            (λ db wrote.
              create_row-AreValid stored s.db db all
                (checked_repo-IsValid secrets repo stored checked) wrote))

  update_repo-AreValid :
      (repo_id : String) (changes : RepoChanges)
      → AreValid s.db.repos
      → AreValid (update_repo secrets repo_id changes s).1.db.repos
  unfolding update_repo AreValid
  update_repo-AreValid repo_id changes all =
      after_require (λ db. AreValid db.repos) s all (lookup repo_id s.db.repos) _
        (λ existing found.
          after_lift (λ db. AreValid db.repos) s all (changed_repo secrets repo_id existing changes)
            _
            (λ updated checked.
              after_commit (λ db. AreValid db.repos) s all (update_row updated) updated
                (λ db wrote.
                  update_row-AreValid updated s.db db all
                    (changed_repo-IsValid secrets repo_id existing changes updated
                      (valid_at existing found all) checked)
                    wrote)))
    where
      valid_at :
          (existing : Repo)
          → lookup repo_id s.db.repos ≡ some existing
          → AreValid s.db.repos
          → IsValid existing
      valid_at existing found all = all repo_id existing found

  -- If every stored repository is valid, it stays so through a registration and through an update,
  -- whether the call returns or raises: it has a name and a URL, a known harness, no model without
  -- a harness, and reviewer pairs that parse.
  pub repos-AreValid :
      (repo : Repo) (repo_id : String) (changes : RepoChanges)
      → AreValid s.db.repos
      → AreValid (create_repo secrets repo s).1.db.repos
        × AreValid (update_repo secrets repo_id changes s).1.db.repos
  repos-AreValid repo repo_id changes all =
      (create_repo-AreValid repo all, update_repo-AreValid repo_id changes all)
