-- ===== src/Governance.antt =====
-- agent_company_os/domain/governance.py and application/governance.py: approval of actions.
pub mod Tools
pub mod Policy
pub mod Action
pub mod Same
pub mod Decided
pub mod Records
pub mod Log
pub mod Review
pub mod Written
pub mod Granted
pub mod Claims
pub mod Consumption
pub mod Authority
pub mod History
pub mod Invocation
pub mod Finishing
pub mod Receipt
pub mod Receipts
mod Example
mod Tests
mod FinishingTests
