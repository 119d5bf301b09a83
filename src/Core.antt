-- ===== src/Core.antt =====
-- src/panopticon/core: the domain models, the workflow state machine and the store's integrity rules.
pub mod Models
pub mod Workflow
pub mod Store
