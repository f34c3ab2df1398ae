-- ===== src/Lifecycle.antt =====
-- Lifecycle transitions: a status write on a `workflow_lifecycles` row together with its
-- `activity_logs` entries (app/services/lifecycle_transition_service.py and what it calls).
pub mod Command
pub mod Store
pub mod Scope
pub mod Identity
pub mod Step
pub mod Sequence
pub mod FromState
pub mod Failure
mod Examples
mod PauseExamples
