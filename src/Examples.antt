-- ===== src/Examples.antt =====
-- Concrete workflows, tasks and services, and the tests on them.
pub mod Data
mod Graphs
mod Completions
mod Healing
mod Mappings
mod Moves
mod Records
mod Operations
mod Scopes
mod Setups
mod Provisions
mod Credentials
mod CredentialFiles
mod Repositories
mod Workspaces
