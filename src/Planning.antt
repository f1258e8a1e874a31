-- ===== src/Planning.antt =====
-- agent_company_os/domain/orchestration.py and plan_validation.py: plans and their validation.
pub mod Policy
pub mod Plan
pub mod Search
pub mod Validate
pub mod Settling
pub mod Branches
pub mod Depths
pub mod Visits
pub mod Bounds
pub mod Checks
pub mod Tour
pub mod Accepted
pub mod Chains
pub mod Run
pub mod Budgets
mod Tests
mod RunTests
