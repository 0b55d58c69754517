-- ===== src/Protocol.antt =====
-- protocol/v1
pub mod Types
pub mod Fields
pub mod Accepts
pub mod Request
pub mod Report
pub mod Records
