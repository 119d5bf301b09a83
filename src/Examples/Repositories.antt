-- ===== src/Examples/Repositories.antt =====
-- Tests of the registration and the update of repositories.
use panopticon_next.Base.{◌≡◌, refl, false, none, some, ok}
use panopticon_next.Taskservice.Workflows.{validate_harness_name, get_harness}
use panopticon_next.Taskservice.Repositories.{
  Secrets, RepoChanges, normalize_reviewer_override, parse_reviewer_config, create_repo,
  update_repo,
}
use panopticon_next.Taskservice.Repositories.Rules.{IsValid}
use panopticon_next.Taskservice.Repositories.Stored.{AreValid, rows-AreValid, repos-AreValid}
use panopticon_next.Examples.Data.{app, service}

abbrev no_files : Secrets
no_files = record {
  escapes = λ name. false;
  is_root = λ name. false;
  is_file = λ name. false;
  is_dir = λ name. false;
}

abbrev changes : RepoChanges
changes = record {
  id = none;
  name = none;
  git_url = none;
  default_base = none;
  image_layer_file = none;
  capabilities = none;
  hook_file = none;
  enabled_workflows = none;
  disabled_workflows = none;
  credential_dir = none;
  default_harness = none;
  honesty_reviewer = none;
  reviewer_2 = none;
  launch_paused = none;
  env_file = some none;
  default_model = some (some "small");
  reviewer_1 = some (some " codex:gpt ");
}

-- An override is stripped, a blank one is none, and one without a model is refused.
stripped : normalize_reviewer_override (some " codex:gpt ") ≡ ok (some "codex:gpt")
unfolding normalize_reviewer_override parse_reviewer_config
stripped = refl

blank_override : normalize_reviewer_override (some "  ") ≡ ok none
unfolding normalize_reviewer_override
blank_override = refl

app-IsValid : IsValid app
unfolding validate_harness_name get_harness
app-IsValid = record {
  named = refl;
  located = refl;
  harness = refl;
  model = refl;
  honesty = tt;
  first = tt;
  second = tt;
}

repos-AreValid_example :
    AreValid (create_repo no_files (record app { id = "lib"; name = "lib" }) service).1.db.repos
    × AreValid (update_repo no_files "app" changes service).1.db.repos
repos-AreValid_example =
    repos-AreValid no_files service (record app { id = "lib"; name = "lib" }) "app" changes
      (rows-AreValid service.db.repos (app-IsValid, tt))
