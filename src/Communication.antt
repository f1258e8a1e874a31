-- ===== src/Communication.antt =====
-- Messages and handoffs between agents (agent_company_os/domain/communication.py).
pub mod Data
pub mod Messages
pub mod Handoffs
pub mod MessageCourse
pub mod HandoffCourse
mod Tests
