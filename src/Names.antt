-- ===== src/Names.antt =====
-- Names of TPM resources: types_structures.go, types_handles.go and types_interface.go.
pub mod Algorithm
pub mod Name
pub mod Parts
pub mod Qualified
pub mod Chains
pub mod Succeeds
mod Examples
