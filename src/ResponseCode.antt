-- ===== src/ResponseCode.antt =====
-- Response codes: types_constants.go and errors.go.
pub mod Fields
pub mod Errors
mod Tables
pub mod Decode
mod Steps
pub mod RoundTrip
pub mod Success
pub mod Match
mod Examples
