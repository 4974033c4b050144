-- ===== src/Historian.antt =====
-- sparkplug-historian/sparkplug-sql: the Sparkplug to SQL historian and its write-ahead log.
pub mod Metric
pub mod Codec
pub mod Node
pub mod Insert
pub mod Track
pub mod Broker
pub mod Recovery
pub mod Crashes
pub mod Segment
pub mod Replay
mod Examples
