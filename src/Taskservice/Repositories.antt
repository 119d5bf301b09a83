-- ===== src/Taskservice/Repositories.antt =====
-- The repositories of src/panopticon/taskservice/service.py: their registration, their partial update
-- and the rules for what is stored of them, with the reviewer pairs of harnesses/base.py. What the
-- host answers on the secrets dir is a parameter.
pub mod Rules
pub mod Stored
use panopticon_next.Base.{
  String, Bool, true, false, not, ◌&&◌, ◌||◌, Option, none, some, List, [], ◌∷◌, Result, ok, err,
  or_raise, or_else, ◌>>=◌, ◌>>◌, raise_if, ◌==◌, if◌then◌else◌, is_some, is_given, is_blank,
  is_space, contains, value_error, not_found,
}
use Prim.Native.Char.{Char, code}
use panopticon_next.Core.Models.{Repo}
use panopticon_next.Base.Table.{values}
use panopticon_next.Base.Exec.{lift, pure, gets}
use panopticon_next.Base.Exec
use panopticon_next.Taskservice.Rows.Repos.{
  create_repo as create_row, update_repo as update_row, delete_repo as delete_row,
}
use panopticon_next.Taskservice.State.{Method, commit, get_repo}
use panopticon_next.Taskservice.Workflows.{validate_harness_name}

-- `str.strip`.
abbrev lstrip : String → String
lstrip String.[] = String.[]
lstrip (String.◌∷◌ c s) = let rest = lstrip s in if is_space (code c) then rest else String.◌∷◌ c s

abbrev keep_or_end : Char → String → String
keep_or_end c String.[] = if is_space (code c) then String.[] else String.◌∷◌ c String.[]
keep_or_end c (String.◌∷◌ d s) = String.◌∷◌ c (String.◌∷◌ d s)

abbrev rstrip : String → String
rstrip String.[] = String.[]
rstrip (String.◌∷◌ c s) = keep_or_end c (rstrip s)

abbrev pub strip : String → String
strip s = rstrip (lstrip s)

-- `value.split(":", 1)`, none without a colon.
abbrev pub split_colon : String → Option (String × String)
split_colon String.[] = none
split_colon (String.◌∷◌ c s) =
    let rest = split_colon s in
    if String.◌∷◌ c String.[] == ":"
    then some (String.[], s)
    else elim rest [ none ↦ none | some parts ↦ some (String.◌∷◌ c parts.0, parts.1) ]

pub record ReviewerConfig : Type 0 where
  pub harness : String
  pub model : String

abbrev pub supported_reviewer_harnesses : List String
supported_reviewer_harnesses = "claude" ∷ "codex" ∷ []

-- `parse_reviewer_config`, whose `ReviewerDispatchError` the callers turn into `ValueError`.
abbrev reviewer_of : Option (String × String) → Result ReviewerConfig
reviewer_of none = err value_error
reviewer_of (some parts) =
    raise_if (is_blank parts.0) value_error
    >> (raise_if (is_blank parts.1) value_error
        >> (raise_if (not (contains supported_reviewer_harnesses parts.0)) value_error
            >> ok (record { harness = parts.0; model = parts.1 })))

unfoldable pub parse_reviewer_config : String → Result ReviewerConfig
parse_reviewer_config value = reviewer_of (split_colon value)

-- `_normalize_reviewer_override`.
unfoldable pub normalize_reviewer_override : Option String → Result (Option String)
unfolding parse_reviewer_config
normalize_reviewer_override none = ok none
normalize_reviewer_override (some value) =
    if is_blank value
    then ok none
    else parse_reviewer_config (strip value) >>= λ config. ok (some (strip value))

-- What the host answers on a name in its secrets dir: whether it escapes the dir, is the dir itself,
-- and leads to a file or a directory.
pub record Secrets : Type 0 where
  pub escapes : String → Bool
  pub is_root : String → Bool
  pub is_file : String → Bool
  pub is_dir : String → Bool

-- `_validate_env_file` and `_validate_credential_dir`; no name and the empty one are no reference.
abbrev pub validate_env_file : Secrets → Option String → Result (Unit {0})
validate_env_file secrets name =
    if is_given name
    then raise_if (secrets.escapes (or_else name "") || not (secrets.is_file (or_else name "")))
        value_error
    else ok tt

abbrev pub validate_credential_dir : Secrets → Option String → Result (Unit {0})
validate_credential_dir secrets name =
    if is_given name
    then raise_if
        (secrets.escapes (or_else name "")
          || secrets.is_root (or_else name "")
          || not (secrets.is_dir (or_else name "")))
        value_error
    else ok tt

-- `_validate_repo_harness_model`.
abbrev pub validate_repo_harness_model : Repo → Result (Unit {0})
validate_repo_harness_model repo =
    raise_if (is_some repo.default_model && not (is_some repo.default_harness)) value_error

-- `_validate_repo_required_fields`, on the fields that are given; a value that is no text is not
-- represented.
abbrev pub validate_required : Option String → Result (Unit {0})
validate_required none = ok tt
validate_required (some value) = raise_if (is_blank value) value_error

abbrev pub validate_repo_required_fields : Option String → Option String → Result (Unit {0})
validate_repo_required_fields name git_url = validate_required name >> validate_required git_url

abbrev pub with_reviewers : Repo → Option String → Option String → Option String → Repo
with_reviewers repo honesty first second = record repo {
  honesty_reviewer = honesty;
  reviewer_1 = first;
  reviewer_2 = second;
}

-- The checks of `create_repo`, and the repo that is stored.
unfoldable pub checked_repo : Secrets → Repo → Result Repo
checked_repo secrets repo =
    validate_repo_required_fields (some repo.name) (some repo.git_url)
    >> (normalize_reviewer_override repo.honesty_reviewer >>= λ honesty.
        normalize_reviewer_override repo.reviewer_1 >>= λ first.
        normalize_reviewer_override repo.reviewer_2 >>= λ second.
        validate_env_file secrets repo.env_file
        >> (validate_harness_name repo.default_harness
            >> (validate_repo_harness_model repo
                >> (validate_credential_dir secrets repo.credential_dir
                    >> ok (with_reviewers repo honesty first second)))))

-- The fields that an update names.
pub record RepoChanges : Type 0 where
  pub id : Option String
  pub name : Option String
  pub git_url : Option String
  pub default_base : Option String
  pub env_file : Option (Option String)
  pub image_layer_file : Option (Option String)
  pub capabilities : Option (List (String × String))
  pub hook_file : Option (Option String)
  pub enabled_workflows : Option (List String)
  pub disabled_workflows : Option (List String)
  pub credential_dir : Option (Option String)
  pub default_harness : Option (Option String)
  pub default_model : Option (Option String)
  pub honesty_reviewer : Option (Option String)
  pub reviewer_1 : Option (Option String)
  pub reviewer_2 : Option (Option String)
  pub launch_paused : Option Bool

-- The reviewer fields are normalized where they are named.
abbrev pub normalize_change : Option (Option String) → Result (Option (Option String))
normalize_change none = ok none
normalize_change (some value) = normalize_reviewer_override value >>= λ v. ok (some v)

-- `replace(existing, **normalized)`.
abbrev pub merged :
    Repo
    → RepoChanges
    → Option (Option String)
    → Option (Option String)
    → Option (Option String)
    → Repo
merged existing changes honesty first second = record {
  id = existing.id;
  name = or_else changes.name existing.name;
  git_url = or_else changes.git_url existing.git_url;
  default_base = or_else changes.default_base existing.default_base;
  env_file = or_else changes.env_file existing.env_file;
  image_layer_file = or_else changes.image_layer_file existing.image_layer_file;
  capabilities = or_else changes.capabilities existing.capabilities;
  hook_file = or_else changes.hook_file existing.hook_file;
  enabled_workflows = or_else changes.enabled_workflows existing.enabled_workflows;
  disabled_workflows = or_else changes.disabled_workflows existing.disabled_workflows;
  credential_dir = or_else changes.credential_dir existing.credential_dir;
  default_harness = or_else changes.default_harness existing.default_harness;
  default_model = or_else changes.default_model existing.default_model;
  honesty_reviewer = or_else honesty existing.honesty_reviewer;
  reviewer_1 = or_else first existing.reviewer_1;
  reviewer_2 = or_else second existing.reviewer_2;
  launch_paused = or_else changes.launch_paused existing.launch_paused;
}

abbrev pub when_named {ℓ} : {A : Type ℓ} → Option A → Result (Unit {0}) → Result (Unit {0})
when_named none check = ok tt
when_named (some _) check = check

abbrev pub names_other : Option String → String → Bool
names_other none id = false
names_other (some other) id = not (other == id)

-- The checks of `update_repo` on the stored repo and the changes, and the repo that is stored.
unfoldable pub changed_repo : Secrets → String → Repo → RepoChanges → Result Repo
changed_repo secrets repo_id existing changes =
    raise_if (names_other changes.id repo_id) value_error
    >> (validate_repo_required_fields changes.name changes.git_url
        >> (normalize_change changes.honesty_reviewer >>= λ honesty.
            normalize_change changes.reviewer_1 >>= λ first.
            normalize_change changes.reviewer_2 >>= λ second.
            let updated = merged existing changes honesty first second in
            when_named changes.env_file (validate_env_file secrets updated.env_file)
            >> (when_named changes.default_harness (validate_harness_name updated.default_harness)
                >> ((if is_some changes.default_harness || is_some changes.default_model
                      then validate_repo_harness_model updated
                      else ok tt)
                    >> (when_named changes.credential_dir
                          (validate_credential_dir secrets updated.credential_dir)
                        >> ok updated)))))

unfoldable pub create_repo : Secrets → Repo → Method Repo
unfolding checked_repo create_row
create_repo secrets repo =
    Exec.◌>>=◌ (lift (checked_repo secrets repo))
      λ stored. Exec.◌>>◌ (commit (create_row stored)) (pure stored)

unfoldable pub update_repo : Secrets → String → RepoChanges → Method Repo
unfolding changed_repo update_row
update_repo secrets repo_id changes = Exec.◌>>=◌ (get_repo repo_id) λ existing.
    Exec.◌>>=◌ (lift (changed_repo secrets repo_id existing changes))
      λ updated. Exec.◌>>◌ (commit (update_row updated)) (pure updated)

unfoldable pub delete_repo : String → Method (Unit {0})
unfolding delete_row
delete_repo repo_id = commit (delete_row repo_id)

unfoldable pub list_repos : Method (List Repo)
list_repos = gets (λ s. values s.db.repos)
