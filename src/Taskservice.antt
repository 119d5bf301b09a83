-- ===== src/Taskservice.antt =====
-- src/panopticon/taskservice: the store adapter, the task service and the authorization policy.
pub mod Rows
pub mod State
pub mod Workflows
pub mod Dependencies
pub mod Artifacts
pub mod Create
pub mod Transitions
pub mod Liveness
pub mod Claims
pub mod Fields
pub mod Sessions
pub mod Provisioning
pub mod Repositories
pub mod Scope
pub mod Auth
