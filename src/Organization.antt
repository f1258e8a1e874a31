-- ===== src/Organization.antt =====
-- The structure of an organisation (agent_company_os/domain/organization.py).
pub mod Data
pub mod Structure
pub mod Graph
pub mod Leads
pub mod Lines
pub mod Reporting
pub mod Hierarchy
pub mod Accepted
mod Tests
