-- ===== src/Sessionservice/Provisioner.antt =====
-- src/panopticon/sessionservice/provisioner.py: `Provisioner.provision`, which puts a task's clone on
-- its branch and records that with the service. What git and the file system answer is a `Checkout`;
-- the commands and the requests are logged as `calls`.
use panopticon_next.Base.{
  String, ◌≡◌, Bool, true, false, not, ◌&&◌, ◌||◌, Option, none, some, List, [], ◌∷◌, ◌++◌, ok,
  Result, is_some, is_given, or_else, concat, eq_option, ◌==◌, if◌then◌else◌, runtime_error,
  get_last?,
}
use panopticon_next.Base.Exec.{Exec, raise_if, modify, lift, pure, ◌>>=◌, ◌>>◌}
use panopticon_next.Core.Models.{MigrationRecord}

-- The fields of a task's JSON that the provisioner reads; a migration is sent with all of its fields.
pub record ProvisionView : Type 0 where
  pub id : String
  pub slug : Option String
  pub branch : Option String
  pub provisioned_by : Option String
  pub provisioned : Bool
  pub claimed_by : Option String
  pub migration : Option MigrationRecord

pub data GitCall : Type 0 where
  checkout_remote_branch create_branch : String → String → GitCall
  -- the task, its branch, its clone, the runner, and that the workspace was verified
  record_provisioning : String → String → String → String → Bool → GitCall

-- What is answered: git may fail, and says which branch is checked out; the service may refuse
-- the record. A failure is a `runtime_error`, as the conflict of two branches is.
pub record Checkout : Type 0 where
  pub is_shell : Bool
  pub workspace_exists : Bool
  pub checkout_fails : Bool
  pub create_fails : Bool
  pub current_branch : Result String
  pub record_fails : Bool

-- `branch_name` of core/git.py.
abbrev pub branch_name : String → String
branch_name slug = concat "panopticon/" slug

module _ (clones_root : String) (runner_id : Option String) (h : Checkout) (t : ProvisionView) where
  abbrev pub clone_path : String
  clone_path = concat clones_root (concat "/" t.id)

  abbrev pub is_foreign : Bool
  is_foreign =
      is_some runner_id && is_some t.provisioned_by && not (eq_option t.provisioned_by runner_id)

  abbrev accepts_here : Option MigrationRecord → Bool
  accepts_here none = false
  accepts_here (some m) =
      eq_option (some m.destination_runner) runner_id
      && m.workspace_disposition == "accepted"
      && m.workspace_method == "forge-first"

  abbrev pub is_forge_first : Bool
  is_forge_first = is_foreign && accepts_here t.migration

  -- What makes the provisioner leave a task alone.
  abbrev pub is_skipped : Bool
  is_skipped =
      not (is_given t.slug)
      || h.is_shell
      || (t.provisioned && not is_foreign)
      || (is_foreign && not is_forge_first)
      || (is_forge_first && not h.workspace_exists)

  abbrev pub branch_of : String
  branch_of = if is_given t.branch then or_else t.branch "" else branch_name (or_else t.slug "")

  abbrev log : GitCall → Exec (List GitCall) (Unit {0})
  log call = modify (λ calls. calls ++ call ∷ [])

  -- The branch that is checked out, once the clone was put on its branch where that is needed.
  abbrev pub actual_branch : Bool → Bool → Exec (List GitCall) String
  actual_branch true recorded =
      log (GitCall.checkout_remote_branch clone_path branch_of)
      >> (raise_if h.checkout_fails runtime_error >> lift h.current_branch)
  actual_branch false true = lift h.current_branch
  actual_branch false false =
      log (GitCall.create_branch clone_path branch_of)
      >> (raise_if h.create_fails runtime_error >> pure branch_of)

  abbrev pub effective_runner : String
  effective_runner = if is_given runner_id then or_else runner_id "" else or_else t.claimed_by ""

  abbrev pub record_branch : Exec (List GitCall) (Option String)
  record_branch =
      if is_given (some effective_runner)
      then log (GitCall.record_provisioning t.id branch_of clone_path effective_runner true)
        >> (raise_if h.record_fails runtime_error >> pure (some branch_of))
      else pure none

  unfoldable pub provision : Exec (List GitCall) (Option String)
  provision =
      if is_skipped
      then pure none
      else actual_branch is_forge_first (is_given t.branch) >>= λ actual.
          raise_if (not (actual == branch_of)) runtime_error >> record_branch

  -- Why this host may put the workspace on a branch: it is not named, so that any workspace is taken;
  -- no host, or this one, is recorded for the workspace; or an accepted forge-first migration leads to
  -- this host, where the clone is.
  pub data IsTrusted : Type 0 where
    any_host : runner_id ≡ none → IsTrusted
    unowned : t.provisioned_by ≡ none → IsTrusted
    ours : t.provisioned_by ≡ runner_id → IsTrusted
    handed_over :
        (m : MigrationRecord)
        → t.migration ≡ some m
        → some m.destination_runner ≡ runner_id
        → m.workspace_disposition ≡ "accepted"
        → m.workspace_method ≡ "forge-first"
        → h.workspace_exists ≡ true
        → IsTrusted

  -- What the record of a branch rests on.
  pub record IsProvisioned (branch : String) (calls' : List GitCall) : Type 0 where
    pub named : is_given t.slug ≡ true
    pub container : h.is_shell ≡ false
    pub trusted : IsTrusted
    pub is_branch : branch ≡ branch_of
    pub checked_out : (is_forge_first || is_given t.branch) ≡ true → h.current_branch ≡ ok branch
    pub owned : is_given (some effective_runner) ≡ true
    pub recorded :
        get_last? calls'
        ≡ some (GitCall.record_provisioning t.id branch clone_path effective_runner true)
