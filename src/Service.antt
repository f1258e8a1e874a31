-- ===== src/Service.antt =====
-- agent_company_os/application/service.py: `DomainService`, the commands on the domain entities.
pub mod Session
pub mod Common
pub mod Retry
pub mod Create
pub mod Guards
pub mod Changes
pub mod Effects
pub mod Atomic
pub mod Results
pub mod Rules
pub mod Runs
pub mod Stale
pub mod Progress
pub mod Accepted
pub mod Abstract
mod Tests
mod CompletionTests
mod ProgressTests
