-- ===== src/Engine.antt =====
-- desktop/src/engine: the orchestration of connections, pairing and transfers.
pub mod Transfer
pub mod Texts
pub mod State
pub mod Pairing
pub mod Incoming
pub mod Dispatch
pub mod Gate
pub mod Frame
pub mod Approval
pub mod Commands
pub mod Connection
pub mod Housekeeping
pub mod Listener
pub mod Queries
pub mod Paired
pub mod Lifecycle
pub mod Ending
pub mod Bounds
pub mod Sessions
pub mod Invariant
pub mod Kept
pub mod Steps
pub mod Granted
pub mod Owner
pub mod PairingUri
pub mod Sending
