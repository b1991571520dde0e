-- ===== src/Util.antt =====
-- desktop/src/util.rs: names and addresses that a peer controls.
pub mod Sanitize
pub mod Lan
pub mod Clamp
pub mod Unique
