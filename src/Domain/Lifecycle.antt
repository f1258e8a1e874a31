-- ===== src/Domain/Lifecycle.antt =====
-- What the lifecycles of agent_company_os/domain have in common: operations that move an entity to
-- its next version and record a transition, or raise. The four entities with a lifecycle fill the
-- record `Lifecycle` in child modules, each with its law `Moved`.
pub mod Defs
pub mod History
pub mod Goals
pub mod Tasks
pub mod Attempts
pub mod Executions
mod Tests
