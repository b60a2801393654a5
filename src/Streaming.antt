-- ===== src/Streaming.antt =====
-- The Storage Write API streams (src/bqemulator/streaming).
pub mod Stream
pub mod Strategies
pub mod Names
