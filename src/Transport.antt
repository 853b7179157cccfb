-- ===== src/Transport.antt =====
-- Transports: internal/transportutil.
pub mod CommandBuffer
pub mod ResponseBuffer
pub mod Retrier
pub mod Pending
pub mod Splits
pub mod Stream
pub mod Busy
pub mod Submits
pub mod Retries
mod Examples
