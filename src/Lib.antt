-- ===== src/Lib.antt =====
-- SyncMob desktop: sending texts and files between paired devices in a local network.
--
-- The program (desktop/src) is one engine with a front-end. A peer is found by a beacon
-- (net/discovery.rs), connected over a Noise channel (net/session.rs), and identified by the static
-- key that the handshake proves (security/fingerprint.rs). The engine (engine/mod.rs) keeps the
-- live connections, the peers in sight and the transfers under way. Everything that a peer says is
-- decoded (proto.rs) and goes through `on_message`; texts and files are taken only from a peer
-- whose connection is authorised: both users have approved the pairing, or the trust store
-- (security/trust.rs) knows its key. Files come in chunks into a quarantine file and are published
-- when they are whole and their hash is right (engine/transfer.rs, util.rs).
--
-- What models what:
-- - Prelude: tests, lists, maps, results over the native numbers; Text and Fs: strings as lists of
--   code points, paths as lists of names, a disk as a map from paths.
-- - Util: util.rs. Sanitize is `sanitize_filename` and `truncate_keeping_extension`, Unique is
--   `unique_path`, Lan is `is_lan_addr`, Clamp is `clamp_str`.
-- - Proto: proto.rs. Message has the types and `allowed_before_pairing`, Codec has `encode` and
--   `decode`; serde_json is the parameter `Serde`, of which RoundTrip assumes that it reads what it
--   has written.
-- - Security: Fingerprint is security/fingerprint.rs; Trust is the table of security/trust.rs and
--   Trust.Saved its sealed file; Keystore is security/keystore.rs, and PrivateFile its
--   `write_private_file`. BLAKE2s, Argon2, the ciphers, base64 (Base64) and serde_json are parameters;
--   of base64, the ciphers and serde_json is assumed that they read back what they wrote. The time is
--   an argument.
-- - Net: Session is net/session.rs, with the functions of snow as a parameter. Session has the
--   channel, Frames and Calls say what its calls do, Queue is the queue of messages that it promises
--   to be, InTransit and Refines relate the two, Handshake is Noise XX. Discovery is what a beacon
--   says and which are believed (net/discovery.rs), Discovery.Threads the rounds of its two threads;
--   RateLimit is `RateLimiter` there and `ConnGuard` of engine/mod.rs, over any type of addresses.
-- - Engine: Transfer is engine/transfer.rs, with `hash_file` in Transfer.Hashing, the rest
--   engine/mod.rs. State is `Inner`; Pairing, Incoming and Dispatch are `on_message` and what it
--   calls; Connection is `run_connection` before and after its loop; Listener is `admit`, `dial`,
--   `connect`, the thread of `spawn_housekeeping` and `shutdown`; Commands is what the front-end asks
--   for; Housekeeping is what beacons and the clock do; Steps is all of it as a relation between
--   states; PairingUri is `url_escape` and `url_unescape`, PairingUri.Target `pairing_uri` and
--   `parse_pairing_uri`, PairingUri.Dial `dial_pairing_uri`; Queries is what the front-end lists;
--   Sending is `send_file_blocking`, in the parts between which other threads may run.
-- - Config: config.rs, with the directories of the system as parameters.
-- - Front: the part of app.rs that takes the engine's events (`pump_events`), and Unlock, which makes
--   and opens a device.
--
-- How it is modelled. An operation takes the state and gives the next one; the mutexes are left
-- out, and an operation is taken as one step from its first lock to its end: what other threads do
-- comes before it or after it. A file is sent in many steps, one for each round of the loop. What
-- is handed to a channel is listed in `wire`, what the front-end hears in `events`, a queue of 4096
-- that drops what does not fit. What the operating system answers is an argument (`Env`): each
-- write may fail, also after some bytes. What a `BufWriter` has not handed on is a field of the
-- transfer. Times are numbers. Numbers of Rust are natural numbers, with the 64-bit limit of
-- `write_chunk` and the 32-bit counter of the limiters written out. Loops are recursion on lists or
-- numbers: `first_free` counts the 9999 names that `unique_path` tries.
--
-- Fuel: `hash_loop` has one round for each read and `sleep_interruptible` one for each step of 200 ms;
-- what is enough is proved. A channel fails after 2^48 messages, as the code has it.
--
-- Not modelled: sockets, threads and their timeouts beyond what a call on them answers, the binding
-- of the ports when the engine starts, the cryptography of the crates, the hex form of identifiers
-- (`DeviceId::parse`, the serde of `TransferId`), the mode of the files that are made, a read of
-- `hash_file` that fails, the functions that only format for the user (`human_bytes`, `progress`),
-- the widgets of the front-end and the QR code (app.rs, qr.rs), and the Android application
-- (mobile), a second implementation in Kotlin.
pub mod Prelude
pub mod Text
pub mod Fs
pub mod Util
pub mod Proto
pub mod Security
pub mod Engine
pub mod Net
pub mod Config
pub mod Front
pub mod Tests
