-- ===== src/Domain.antt =====
-- agent_company_os/domain: the entities, their checks and their lifecycles.
pub mod Errors
pub mod Validation
pub mod Transitions
pub mod Events
pub mod Goal
pub mod Workspace
pub mod Task
pub mod TaskAttempt
pub mod Execution
pub mod Checks
pub mod Courses
pub mod Lifecycle
