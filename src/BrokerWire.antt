-- ===== src/BrokerWire.antt =====
-- internal/brokerwire: the response of the broker as a stream of frames.
pub mod Types
pub mod Writing
pub mod Write
pub mod Read
pub mod Chained
pub mod Taken
pub mod Carried
pub mod RoundTrip
pub mod Decoded
pub mod Whole
pub mod Committed
pub mod Enough
