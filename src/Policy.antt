-- ===== src/Policy.antt =====
-- Policy digests and trees of OR assertions: policyutil/session.go, policyutil/or_tree.go and
-- util/policy.go.
pub mod Session
pub mod OrTree
pub mod Nodes
pub mod Branches
pub mod Assertions
pub mod Trial
pub mod Agreement
pub mod Refused
mod Examples
