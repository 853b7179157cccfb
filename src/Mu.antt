-- ===== src/Mu.antt =====
-- The wire format: mu/mu.go.
pub mod Types
pub mod Kind
pub mod Bytes
pub mod Select
pub mod Marshal
pub mod Unmarshal
pub mod Fits
pub mod RoundTrip
pub mod Api
pub mod Errors
pub mod Copy
mod Examples
