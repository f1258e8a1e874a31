-- ===== src/Store.antt =====
-- agent_company_os/adapters/in_memory.py: the in-memory store of the domain entities.
pub mod Tables
pub mod Kinds
pub mod Ops
pub mod Writes
pub mod Steps
pub mod Audit
pub mod References
pub mod Attempts
pub mod Limits
pub mod Conflicts
mod Tests
