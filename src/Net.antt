-- ===== src/Net.antt =====
-- desktop/src/net: discovery in the local network.
pub mod Discovery
pub mod RateLimit
pub mod Session
