-- ===== src/Packet.antt =====
-- Command and response packets: command.go.
pub mod Areas
pub mod Command
pub mod Response
pub mod Parts
pub mod RoundTrip
pub mod Replies
pub mod Truncated
pub mod Takes
pub mod Total
mod Examples
