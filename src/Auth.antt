-- ===== src/Auth.antt =====
-- The authorization of commands: auth.go and paramcrypt.go.
pub mod Contexts
pub mod Params
pub mod Indices
pub mod Hmac
pub mod Encrypt
pub mod Area
pub mod Responses
pub mod Decrypts
pub mod Nonces
pub mod CpHash
mod Examples
