-- ===== src/Taskservice/Rows/Mapping.antt =====
-- The ORM rows of taskservice/store_sqlalchemy.py and their translation: `to_domain` and
-- `from_domain` of each row class. An enumeration is stored as its value, a migration as a JSON
-- object; a list column that was never written is NULL.
pub mod RoundTrips
use panopticon_next.Base.{
  ℕ, ◌<◌, suc, String, Bool, true, false, not, Option, none, some, List, [], ◌∷◌, map, Result, ok,
  err, ◌>>=◌, or_raise, or_else, leb, is_some, ◌&&◌, ◌==◌, if◌then◌else◌, value_error, type_error,
}
use mathlib.Core.Option
use panopticon_next.Core.Models.{
  Actor, Status, WakeStatus, SessionInputStatus, SessionInput, Responsibility, HistoryEntry,
  MigrationRecord, Repo, Task,
}

-- The values of the enumerations (core/models.py), and the look-up of a member by its value.
abbrev pub actor_value : Actor → String
actor_value Actor.user = "user"
actor_value Actor.agent = "agent"

abbrev pub actor_of : String → Result Actor
actor_of s =
    if s == "user" then ok Actor.user else if s == "agent" then ok Actor.agent else err value_error

abbrev pub status_value : Status → String
status_value Status.pending = "pending"
status_value Status.met = "met"
status_value Status.failed = "failed"

abbrev pub status_of : String → Result Status
status_of s =
    if s == "pending"
    then ok Status.pending
    else if s == "met"
    then ok Status.met
    else if s == "failed"
    then ok Status.failed
    else err value_error

abbrev pub wake_value : WakeStatus → String
wake_value WakeStatus.pending = "pending"
wake_value WakeStatus.delivered = "delivered"
wake_value WakeStatus.skipped = "skipped"

abbrev pub wake_of : String → Result WakeStatus
wake_of s =
    if s == "pending"
    then ok WakeStatus.pending
    else if s == "delivered"
    then ok WakeStatus.delivered
    else if s == "skipped"
    then ok WakeStatus.skipped
    else err value_error

abbrev pub input_value : SessionInputStatus → String
input_value SessionInputStatus.pending = "pending"
input_value SessionInputStatus.delivered = "delivered"
input_value SessionInputStatus.failed = "failed"

abbrev pub input_of : String → Result SessionInputStatus
input_of s =
    if s == "pending"
    then ok SessionInputStatus.pending
    else if s == "delivered"
    then ok SessionInputStatus.delivered
    else if s == "failed"
    then ok SessionInputStatus.failed
    else err value_error

pub record RepoRow : Type 0 where
  pub id : String
  pub name : String
  pub git_url : String
  pub default_base : String
  pub launch_paused : Bool
  pub env_file : Option String
  pub image_layer_file : Option String
  pub hook_file : Option String
  pub default_harness : Option String
  pub default_model : Option String
  pub credential_dir : Option String
  pub honesty_reviewer : Option String
  pub reviewer_1 : Option String
  pub reviewer_2 : Option String
  pub capabilities : Option (List (String × String))
  pub enabled_workflows : Option (List String)
  pub disabled_workflows : Option (List String)

abbrev pub repo_from_domain : Repo → RepoRow
repo_from_domain repo = record {
  id = repo.id;
  name = repo.name;
  git_url = repo.git_url;
  default_base = repo.default_base;
  launch_paused = repo.launch_paused;
  env_file = repo.env_file;
  image_layer_file = repo.image_layer_file;
  hook_file = repo.hook_file;
  default_harness = repo.default_harness;
  default_model = repo.default_model;
  credential_dir = repo.credential_dir;
  honesty_reviewer = repo.honesty_reviewer;
  reviewer_1 = repo.reviewer_1;
  reviewer_2 = repo.reviewer_2;
  capabilities = some repo.capabilities;
  enabled_workflows = some repo.enabled_workflows;
  disabled_workflows = some repo.disabled_workflows;
}

abbrev pub repo_to_domain : RepoRow → Repo
repo_to_domain row = record {
  id = row.id;
  name = row.name;
  git_url = row.git_url;
  default_base = row.default_base;
  launch_paused = row.launch_paused;
  env_file = row.env_file;
  image_layer_file = row.image_layer_file;
  hook_file = row.hook_file;
  default_harness = row.default_harness;
  default_model = row.default_model;
  credential_dir = row.credential_dir;
  honesty_reviewer = row.honesty_reviewer;
  reviewer_1 = row.reviewer_1;
  reviewer_2 = row.reviewer_2;
  capabilities = or_else row.capabilities [];
  enabled_workflows = or_else row.enabled_workflows [];
  disabled_workflows = or_else row.disabled_workflows [];
}

pub record ResponsibilityRow : Type 0 where
  pub idx : ℕ
  pub key : String
  pub description : String
  pub status : String
  pub comment : Option String

abbrev pub responsibility_from_domain : Responsibility → ℕ → ResponsibilityRow
responsibility_from_domain r idx = record {
  idx = idx;
  key = r.key;
  description = r.description;
  status = status_value r.status;
  comment = r.comment;
}

unfoldable pub responsibility_to_domain : ResponsibilityRow → Result Responsibility
responsibility_to_domain row = do
  status ← status_of row.status
  ok (record {
    key = row.key;
    description = row.description;
    status = status;
    comment = row.comment;
  })

-- `[row.to_domain() for row in rows]`.
unfoldable pub each {ℓ κ} : {A : Type ℓ} {B : Type κ} → (A → Result B) → List A → Result (List B)
each f [] = ok []
each f (x ∷ xs) = do y ← f x; ys ← each f xs; ok (y ∷ ys)

-- `[from_domain(x, i) for i, x in enumerate(xs)]`.
unfoldable pub enumerate {ℓ κ} : {A : Type ℓ} {B : Type κ} → (A → ℕ → B) → ℕ → List A → List B
enumerate f i [] = []
enumerate f i (x ∷ xs) = f x i ∷ enumerate f (suc i) xs

-- A relationship is loaded in the order of a column.
module _ {ℓ} {A : Type ℓ} (column : A → ℕ) where
  unfoldable pub insert_by : A → List A → List A
  insert_by x [] = x ∷ []
  insert_by x (y ∷ ys) =
      let rest = insert_by x ys in if leb (column x) (column y) then x ∷ y ∷ ys else y ∷ rest

  unfoldable pub order_by : List A → List A
  unfolding insert_by
  order_by [] = []
  order_by (x ∷ xs) = insert_by x (order_by xs)

pub record HistoryRow : Type 0 where
  pub seq : ℕ
  pub at : String
  pub from_state : Option String
  pub to_state : String
  pub trigger : Option String
  pub note : Option String
  pub wake_status : String
  pub responsibilities : List ResponsibilityRow

unfoldable pub history_from_domain : HistoryEntry → ℕ → HistoryRow
unfolding enumerate
history_from_domain entry seq = record {
  seq = seq;
  at = entry.at;
  from_state = entry.from_state;
  to_state = entry.to_state;
  trigger = entry.trigger;
  note = entry.note;
  wake_status = wake_value entry.wake_status;
  responsibilities = enumerate responsibility_from_domain 0 entry.responsibilities;
}

unfoldable pub history_to_domain : HistoryRow → Result HistoryEntry
unfolding each order_by responsibility_to_domain
history_to_domain row = do
  responsibilities ← each responsibility_to_domain (order_by (λ r. r.idx) row.responsibilities)
  wake_status ← wake_of row.wake_status
  ok (record {
    at = row.at;
    from_state = row.from_state;
    to_state = row.to_state;
    trigger = row.trigger;
    note = row.note;
    responsibilities = responsibilities;
    wake_status = wake_status;
  })

-- The JSON object of a migration: a field is none when the object lacks the key. Keys that
-- `MigrationRecord` does not know, and values of other JSON types, are not represented.
pub record MigrationJson : Type 0 where
  pub source_runner : Option String
  pub destination_runner : Option String
  pub workspace_disposition : Option String
  pub session_history_disposition : Option String
  pub workspace_method : Option String
  pub discarded_changes : Option (List String)
  pub discard_authorized_by : Option (Option String)
  pub session_history_changed_by : Option (Option String)
  pub session_history_was_requested : Option Bool

abbrev pub migration_json : MigrationRecord → MigrationJson
migration_json m = record {
  source_runner = some m.source_runner;
  destination_runner = some m.destination_runner;
  workspace_disposition = some m.workspace_disposition;
  session_history_disposition = some m.session_history_disposition;
  workspace_method = some m.workspace_method;
  discarded_changes = some m.discarded_changes;
  discard_authorized_by = some m.discard_authorized_by;
  session_history_changed_by = some m.session_history_changed_by;
  session_history_was_requested = some m.session_history_was_requested;
}

-- `MigrationRecord(**self.migration)`: the first four keys have no default.
unfoldable pub migration_of_json : MigrationJson → Result MigrationRecord
migration_of_json j = do
  source_runner ← or_raise j.source_runner type_error
  destination_runner ← or_raise j.destination_runner type_error
  workspace_disposition ← or_raise j.workspace_disposition type_error
  session_history_disposition ← or_raise j.session_history_disposition type_error
  ok (record {
    source_runner = source_runner;
    destination_runner = destination_runner;
    workspace_disposition = workspace_disposition;
    session_history_disposition = session_history_disposition;
    workspace_method = or_else j.workspace_method "archive";
    discarded_changes = or_else j.discarded_changes [];
    discard_authorized_by = or_else j.discard_authorized_by none;
    session_history_changed_by = or_else j.session_history_changed_by none;
    session_history_was_requested = or_else j.session_history_was_requested false;
  })

-- The migration column: NULL, or the object that is not empty.
abbrev is_empty_json : MigrationJson → Bool
is_empty_json j =
    not (is_some j.source_runner)
    && not (is_some j.destination_runner)
    && not (is_some j.workspace_disposition)
    && not (is_some j.session_history_disposition)
    && not (is_some j.workspace_method)
    && not (is_some j.discarded_changes)
    && not (is_some j.discard_authorized_by)
    && not (is_some j.session_history_changed_by)
    && not (is_some j.session_history_was_requested)

unfoldable pub optional_migration : Option MigrationJson → Result (Option MigrationRecord)
unfolding migration_of_json
optional_migration none = ok none
optional_migration (some j) =
    if is_empty_json j then ok none else do m ← migration_of_json j; ok (some m)

pub record TaskRow : Type 0 where
  pub id : String
  pub repo_id : String
  pub workflow : String
  pub state : String
  pub blocked : Bool
  pub launch_paused : Bool
  pub launch_pause_reason : Option String
  pub attention : Bool
  pub memo : Option String
  pub initial_prompt : Option String
  pub slug : Option String
  pub url : Option String
  pub snoozed_until : Option String
  pub branch : Option String
  pub clone : Option String
  pub provisioned_by : Option String
  pub workspace_verified_by : Option String
  pub claimed_by : Option String
  pub tokens_used : Option ℕ
  pub token_estimate : Option ℕ
  pub starting_model : Option String
  pub harness : Option String
  pub governor_task_id : Option String
  pub created_at : Option String
  pub updated_at : Option String
  pub turn : String
  pub migration : Option MigrationJson
  pub depends_on_task_ids : Option (List String)
  pub history : List HistoryRow

unfoldable pub task_from_domain : Task → TaskRow
unfolding enumerate history_from_domain
task_from_domain task = record {
  id = task.id;
  repo_id = task.repo_id;
  workflow = task.workflow;
  state = task.state;
  blocked = task.blocked;
  launch_paused = task.launch_paused;
  launch_pause_reason = task.launch_pause_reason;
  attention = task.attention;
  memo = task.memo;
  initial_prompt = task.initial_prompt;
  slug = task.slug;
  url = task.url;
  snoozed_until = task.snoozed_until;
  branch = task.branch;
  clone = task.clone;
  provisioned_by = task.provisioned_by;
  workspace_verified_by = task.workspace_verified_by;
  claimed_by = task.claimed_by;
  tokens_used = task.tokens_used;
  token_estimate = task.token_estimate;
  starting_model = task.starting_model;
  harness = task.harness;
  governor_task_id = task.governor_task_id;
  created_at = task.created_at;
  updated_at = task.updated_at;
  turn = actor_value task.turn;
  migration = Option.map migration_json task.migration;
  depends_on_task_ids = some task.depends_on_task_ids;
  history = enumerate history_from_domain 0 task.history;
}

unfoldable pub task_to_domain : TaskRow → Result Task
unfolding each order_by history_to_domain optional_migration
task_to_domain row = do
  turn ← actor_of row.turn
  migration ← optional_migration row.migration
  history ← each history_to_domain (order_by (λ h. h.seq) row.history)
  ok (record {
    id = row.id;
    repo_id = row.repo_id;
    workflow = row.workflow;
    state = row.state;
    blocked = row.blocked;
    launch_paused = row.launch_paused;
    launch_pause_reason = row.launch_pause_reason;
    attention = row.attention;
    memo = row.memo;
    initial_prompt = row.initial_prompt;
    slug = row.slug;
    url = row.url;
    snoozed_until = row.snoozed_until;
    branch = row.branch;
    clone = row.clone;
    provisioned_by = row.provisioned_by;
    workspace_verified_by = row.workspace_verified_by;
    claimed_by = row.claimed_by;
    tokens_used = row.tokens_used;
    token_estimate = row.token_estimate;
    starting_model = row.starting_model;
    harness = row.harness;
    governor_task_id = row.governor_task_id;
    created_at = row.created_at;
    updated_at = row.updated_at;
    turn = turn;
    migration = migration;
    depends_on_task_ids = or_else row.depends_on_task_ids [];
    history = history;
  })

pub record SessionInputRow : Type 0 where
  pub id : String
  pub task_id : String
  pub idempotency_key : String
  pub text : String
  pub submit : Bool
  pub created_at : String
  pub settled_at : Option String
  pub failure_reason : Option String
  pub status : String

abbrev pub input_from_domain : SessionInput → SessionInputRow
input_from_domain value = record {
  id = value.id;
  task_id = value.task_id;
  idempotency_key = value.idempotency_key;
  text = value.text;
  submit = value.submit;
  created_at = value.created_at;
  settled_at = value.settled_at;
  failure_reason = value.failure_reason;
  status = input_value value.status;
}

unfoldable pub input_to_domain : SessionInputRow → Result SessionInput
input_to_domain row = do
  status ← input_of row.status
  ok (record {
    id = row.id;
    task_id = row.task_id;
    idempotency_key = row.idempotency_key;
    text = row.text;
    submit = row.submit;
    created_at = row.created_at;
    settled_at = row.settled_at;
    failure_reason = row.failure_reason;
    status = status;
  })
