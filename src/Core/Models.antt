-- ===== src/Core/Models.antt =====
-- src/panopticon/core/models.py and the state labels of core/state.py: the vocabulary of the
-- control plane, as plain data. Timestamps, ids and names are texts, as in the source.
pub mod Containers
pub mod Promises
use panopticon_next.Base.{ℕ, String, Bool, Option, List}

pub data Actor : Type 0 where
  user agent : Actor

-- The resolution of a single responsibility.
pub data Status : Type 0 where
  pending met failed : Status

-- The delivery of the stage briefing that belongs to one history entry.
pub data WakeStatus : Type 0 where
  pending delivered skipped : WakeStatus

pub data SessionInputStatus : Type 0 where
  pending delivered failed : SessionInputStatus

pub data LifecyclePhase : Type 0 where
  healing claiming preparing building starting awaiting failed : LifecyclePhase

pub data ContainerStatus : Type 0 where
  blank gated paused queued healing claiming preparing building starting awaiting : ContainerStatus
  live down failed disconnected : ContainerStatus

pub record SessionInput : Type 0 where
  pub id : String
  pub task_id : String
  pub idempotency_key : String
  pub text : String
  pub submit : Bool
  pub status : SessionInputStatus
  pub created_at : String
  pub settled_at : Option String
  pub failure_reason : Option String

pub record SessionTranscript : Type 0 where
  pub task_id : String
  pub runner_id : String
  pub text : String
  pub columns : ℕ
  pub rows : ℕ
  pub truncated : Bool
  pub received_at : String

pub record Responsibility : Type 0 where
  pub key : String
  pub description : String
  pub status : Status
  pub comment : Option String

-- `capabilities` is a map that the control plane only carries.
pub record Repo : Type 0 where
  pub id : String
  pub name : String
  pub git_url : String
  pub default_base : String
  pub env_file : Option String
  pub image_layer_file : Option String
  pub capabilities : List (String × String)
  pub hook_file : Option String
  pub enabled_workflows : List String
  pub disabled_workflows : List String
  pub credential_dir : Option String
  pub default_harness : Option String
  pub default_model : Option String
  pub honesty_reviewer : Option String
  pub reviewer_1 : Option String
  pub reviewer_2 : Option String
  pub launch_paused : Bool

pub record HistoryEntry : Type 0 where
  pub at : String
  pub from_state : Option String
  pub to_state : String
  pub trigger : Option String
  pub note : Option String
  pub responsibilities : List Responsibility
  pub wake_status : WakeStatus

pub record MigrationRecord : Type 0 where
  pub source_runner : String
  pub destination_runner : String
  pub workspace_disposition : String
  pub session_history_disposition : String
  pub workspace_method : String
  pub discarded_changes : List String
  pub discard_authorized_by : Option String
  pub session_history_changed_by : Option String
  pub session_history_was_requested : Bool

pub record Task : Type 0 where
  pub id : String
  pub repo_id : String
  pub workflow : String
  pub state : String
  pub turn : Actor
  pub blocked : Bool
  pub attention : Bool
  pub memo : Option String
  pub initial_prompt : Option String
  pub slug : Option String
  pub url : Option String
  pub snoozed_until : Option String
  pub branch : Option String
  pub clone : Option String
  pub provisioned_by : Option String
  pub workspace_verified_by : Option String
  pub migration : Option MigrationRecord
  pub claimed_by : Option String
  pub tokens_used : Option ℕ
  pub token_estimate : Option ℕ
  pub starting_model : Option String
  pub harness : Option String
  pub governor_task_id : Option String
  pub created_at : Option String
  pub updated_at : Option String
  pub depends_on_task_ids : List String
  pub history : List HistoryEntry
  pub launch_paused : Bool
  pub launch_pause_reason : Option String

-- `str, Enum` members compare by value.
abbrev pub eq_actor : Actor → Actor → Bool
eq_actor user user = Bool.true
eq_actor agent agent = Bool.true
eq_actor _ _ = Bool.false

abbrev pub is_pending : Status → Bool
is_pending pending = Bool.true
is_pending _ = Bool.false

abbrev pub eq_wake : WakeStatus → WakeStatus → Bool
eq_wake pending pending = Bool.true
eq_wake delivered delivered = Bool.true
eq_wake skipped skipped = Bool.true
eq_wake _ _ = Bool.false

-- `phase is LifecyclePhase.FAILED` on an optional phase.
abbrev pub is_failed : Option LifecyclePhase → Bool
is_failed (Option.some failed) = Bool.true
is_failed _ = Bool.false

-- The labels of the built-in terminal states (core/state.py).
abbrev pub complete_label : String
complete_label = "COMPLETE"

abbrev pub dropped_label : String
dropped_label = "DROPPED"
