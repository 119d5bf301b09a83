-- ===== src/Taskservice/Repositories/Rules.antt =====
-- What the checks of taskservice/service.py keep true of every stored repository.
use panopticon_next.Base.{
  String, ◌≡◌, inl, inr, refl, arith, Bool, true, false, not, ◌&&◌, ◌||◌, Option, none, some, ok,
  or_else, raise_if, ok-injective, >>=-eq-ok, raise_if->>-eq-ok, if◌then◌else◌, is_some, is_blank,
  value_error, Bool-cases,
}
use mathlib.Core.Path.{subst}
use panopticon_next.Core.Models.{Repo}
use panopticon_next.Taskservice.Workflows.{validate_harness_name}
use panopticon_next.Taskservice.Repositories.{
  Secrets, RepoChanges, ReviewerConfig, parse_reviewer_config, normalize_reviewer_override, strip,
  checked_repo, changed_repo, validate_repo_required_fields, validate_required,
  validate_repo_harness_model, validate_env_file, validate_credential_dir, normalize_change, merged,
  with_reviewers, names_other, when_named,
}

-- A reviewer override is absent, or a pair that is accepted.
abbrev pub IsReviewer : Option String → Type 0
IsReviewer none = Unit
IsReviewer (some value) = (config : ReviewerConfig) × (parse_reviewer_config value ≡ ok config)

pub record IsValid (repo : Repo) : Type 0 where
  pub named : is_blank repo.name ≡ false
  pub located : is_blank repo.git_url ≡ false
  pub harness : validate_harness_name repo.default_harness ≡ ok tt
  pub model : (is_some repo.default_model && not (is_some repo.default_harness)) ≡ false
  pub honesty : IsReviewer repo.honesty_reviewer
  pub first : IsReviewer repo.reviewer_1
  pub second : IsReviewer repo.reviewer_2

normalize-IsReviewer :
    (o o' : Option String) → normalize_reviewer_override o ≡ ok o' → IsReviewer o'
unfolding normalize_reviewer_override
normalize-IsReviewer none o' h = subst IsReviewer (ok-injective none o' h) tt
normalize-IsReviewer (some value) o' h = elim (Bool-cases (is_blank value)) [
  | inl blank ↦ subst IsReviewer (ok-injective none o' (rw (blank, if◌then◌else◌) at h)) tt
  | inr given ↦
      let (config, parsed, h1) =
        >>=-eq-ok (parse_reviewer_config (strip value)) _ (rw (given, if◌then◌else◌) at h) in
      subst IsReviewer (ok-injective (some (strip value)) o' h1) (config, parsed)
]

change-IsReviewer :
    (o : Option (Option String)) (o' : Option (Option String)) (before : Option String)
    → IsReviewer before
    → normalize_change o ≡ ok o'
    → IsReviewer (or_else o' before)
change-IsReviewer none o' before valid h =
    subst (λ c. IsReviewer (or_else c before)) (ok-injective none o' h) valid
change-IsReviewer (some value) o' before valid h =
    let (v, normal, h1) = >>=-eq-ok (normalize_reviewer_override value) _ h in
    subst (λ c. IsReviewer (or_else c before)) (ok-injective (some v) o' h1)
      (normalize-IsReviewer value v normal)

required_text :
    (o : Option String) (before : String)
    → is_blank before ≡ false
    → validate_required o ≡ ok tt
    → is_blank (or_else o before) ≡ false
required_text none before valid h = valid
required_text (some value) before valid h = ground arith

changed_harness :
    (o : Option (Option String)) (before : Option String)
    → validate_harness_name before ≡ ok tt
    → when_named o (validate_harness_name (or_else o before)) ≡ ok tt
    → validate_harness_name (or_else o before) ≡ ok tt
changed_harness none before valid h = valid
changed_harness (some value) before valid h = h

raise_if-off : (bad : Bool) → raise_if bad value_error ≡ ok tt → bad ≡ false
raise_if-off false h = refl
raise_if-off true h = cc

changed_model :
    (harness model : Option (Option String)) (harness' model' : Option String)
    → (is_some model' && not (is_some harness')) ≡ false
    → (if is_some harness || is_some model
        then raise_if
            (is_some (or_else model model') && not (is_some (or_else harness harness')))
            value_error
        else ok tt)
      ≡ ok tt
    → (is_some (or_else model model') && not (is_some (or_else harness harness'))) ≡ false
changed_model none none harness' model' valid h = valid
changed_model none (some m) harness' model' valid h = raise_if-off _ h
changed_model (some x) none harness' model' valid h = raise_if-off _ h
changed_model (some x) (some m) harness' model' valid h = raise_if-off _ h

pub checked_repo-IsValid :
    (secrets : Secrets) (repo stored : Repo)
    → checked_repo secrets repo ≡ ok stored
    → IsValid stored
unfolding checked_repo
checked_repo-IsValid secrets repo stored h =
    let (u, required, h1) =
      >>=-eq-ok (validate_repo_required_fields (some repo.name) (some repo.git_url)) _ h in
    let (v, name_ok, url_ok) = >>=-eq-ok (validate_required (some repo.name)) _ required in
    let (honesty, n0, h2) = >>=-eq-ok (normalize_reviewer_override repo.honesty_reviewer) _ h1 in
    let (first, n1, h3) = >>=-eq-ok (normalize_reviewer_override repo.reviewer_1) _ h2 in
    let (second, n2, h4) = >>=-eq-ok (normalize_reviewer_override repo.reviewer_2) _ h3 in
    let (w, env_ok, h5) = >>=-eq-ok (validate_env_file secrets repo.env_file) _ h4 in
    let (x, harness_ok, h6) = >>=-eq-ok (validate_harness_name repo.default_harness) _ h5 in
    let (y, model_ok, h7) = >>=-eq-ok (validate_repo_harness_model repo) _ h6 in
    let (z, dir_ok, h8) = >>=-eq-ok (validate_credential_dir secrets repo.credential_dir) _ h7 in
    subst IsValid (ok-injective (with_reviewers repo honesty first second) stored h8) (record {
      named = raise_if-off (is_blank repo.name) name_ok;
      located = raise_if-off (is_blank repo.git_url) url_ok;
      harness = harness_ok;
      model = raise_if-off _ model_ok;
      honesty = normalize-IsReviewer repo.honesty_reviewer honesty n0;
      first = normalize-IsReviewer repo.reviewer_1 first n1;
      second = normalize-IsReviewer repo.reviewer_2 second n2;
    })

pub changed_repo-IsValid :
    (secrets : Secrets) (repo_id : String) (existing : Repo) (changes : RepoChanges) (stored : Repo)
    → IsValid existing
    → changed_repo secrets repo_id existing changes ≡ ok stored
    → IsValid stored
unfolding changed_repo
changed_repo-IsValid secrets repo_id existing changes stored valid h =
    let (same_id, h0) = raise_if->>-eq-ok (names_other changes.id repo_id) _ _ h in
    let (u, required, h1) =
      >>=-eq-ok (validate_repo_required_fields changes.name changes.git_url) _ h0 in
    let (v, name_ok, url_ok) = >>=-eq-ok (validate_required changes.name) _ required in
    let (honesty, n0, h2) = >>=-eq-ok (normalize_change changes.honesty_reviewer) _ h1 in
    let (first, n1, h3) = >>=-eq-ok (normalize_change changes.reviewer_1) _ h2 in
    let (second, n2, h4) = >>=-eq-ok (normalize_change changes.reviewer_2) _ h3 in
    let updated = merged existing changes honesty first second in
    let (w, env_ok, h5) =
      >>=-eq-ok (when_named changes.env_file (validate_env_file secrets updated.env_file)) _ h4 in
    let (x, harness_ok, h6) =
      >>=-eq-ok (when_named changes.default_harness (validate_harness_name updated.default_harness))
        _ h5 in
    let (y, model_ok, h7) =
      >>=-eq-ok
        (if is_some changes.default_harness || is_some changes.default_model
          then validate_repo_harness_model updated
          else ok tt)
        _ h6 in
    let (z, dir_ok, h8) =
      >>=-eq-ok
        (when_named changes.credential_dir (validate_credential_dir secrets updated.credential_dir))
        _ h7 in
    subst IsValid (ok-injective updated stored h8) (record {
      named = required_text changes.name existing.name valid.named name_ok;
      located = required_text changes.git_url existing.git_url valid.located url_ok;
      harness =
          changed_harness changes.default_harness existing.default_harness valid.harness harness_ok;
      model =
          changed_model changes.default_harness changes.default_model existing.default_harness
            existing.default_model valid.model model_ok;
      honesty =
          change-IsReviewer changes.honesty_reviewer honesty existing.honesty_reviewer valid.honesty
            n0;
      first = change-IsReviewer changes.reviewer_1 first existing.reviewer_1 valid.first n1;
      second = change-IsReviewer changes.reviewer_2 second existing.reviewer_2 valid.second n2;
    })
