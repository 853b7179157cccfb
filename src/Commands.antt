-- ===== src/Commands.antt =====
-- Commands that are executed more than once for one call: tpm.go, cmds_nv.go, cmds_hashhmac.go and
-- cmds_cap.go.
pub mod Multiple
pub mod Nv
pub mod Sequence
pub mod Runs
pub mod Splice
pub mod Written
pub mod ReadBack
pub mod Hashed
pub mod Capability
pub mod Ends
pub mod Properties
pub mod Lookup
pub mod Skips
mod Examples
mod Queries
