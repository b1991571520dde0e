-- ===== src/Security.antt =====
-- desktop/src/security: keys, the codes that people compare, and the list of paired devices.
pub mod Fingerprint
pub mod Base64
pub mod PrivateFile
pub mod Keystore
pub mod Trust
