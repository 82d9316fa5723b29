-- ===== src/Transport.antt =====
-- Signed HTTP requests: internal/transport. The parts are in the modules below.
pub mod Url
pub mod Method
pub mod Retry
pub mod Http
pub mod Attempt
pub mod Doer
pub mod Samples
