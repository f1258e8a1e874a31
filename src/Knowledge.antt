-- ===== src/Knowledge.antt =====
-- Knowledge sources and their chunks (agent_company_os/domain/knowledge.py and domain/chunking.py).
pub mod Text
pub mod Data
pub mod Chunking
pub mod Pieces
pub mod Chunks
pub mod Content
mod Tests
