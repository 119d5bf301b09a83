-- ===== src/Taskservice/Rows.antt =====
-- src/panopticon/taskservice/store_sqlalchemy.py under the façade of core/store.py: the persisted
-- rows and their transactions. A transaction that raises leaves the rows as they were.
pub mod Repos
pub mod Tasks
pub mod Sessions
pub mod Integrity
pub mod Usage
pub mod Mapping
use panopticon_next.Base.{ℕ, ◌+◌, String, Option, Result, ok, ◌>>=◌}
use panopticon_next.Base.Table.{Table}
use panopticon_next.Core.Models.{Repo, Task, SessionInput, SessionTranscript}

pub record Store : Type 0 where
  pub repos : Table Repo
  pub tasks : Table Task
  pub inputs : Table SessionInput
  pub transcripts : Table SessionTranscript
  pub version : ℕ

-- `_bump_version`; the listeners are wake-ups without state.
abbrev pub bump : Store → Store
bump db = record db { version = db.version + 1 }
