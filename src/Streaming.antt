-- ===== src/Streaming.antt =====
-- The market-data stream: the package streaming. The parts are in the modules below.
pub mod Queue
pub mod Subscriptions
pub mod Messages
pub mod Wire
pub mod Resubscribe
pub mod Connecting
pub mod Samples
