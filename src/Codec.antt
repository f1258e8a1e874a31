-- ===== src/Codec.antt =====
-- The records as JSON texts (agent_company_os/adapters/durable_codec.py).
pub mod Values
pub mod Encode
pub mod Decode
pub mod Records
pub mod Typed
pub mod Parts
pub mod Decoded
pub mod Encoded
pub mod Sorted
pub mod Ordered
pub mod RoundTrip
pub mod Made
pub mod Leaves
pub mod Sound
mod Tests
