-- ===== src/Net/Session.antt =====
-- desktop/src/net/session.rs: the framed encrypted channel. The crate snow is the parameter `snow`. The
-- two ends of a socket are byte lists: what the peer wrote and is not yet read, and what was
-- written here. `noise` and `writer` are locked together, so that each call is one step.
pub mod Frames
pub mod Calls
pub mod Queue
pub mod InTransit
pub mod Refines
pub mod Received
pub mod Handshake
use antarloka.Prelude.{
  ℕ, ◌+◌, ◌%◌, Bool, true, false, not, ◌&&◌, [], ◌++◌, Option, none, some, ltb, leb, if◌then◌else◌,
  Result, ok, err, length, take, drop,
}
use antarloka.Text.{Bytes}
use antarloka.Proto.Bytes.{to_be_bytes, from_be_bytes}
use antarloka.Proto.Message.{Message, max_frame, max_plaintext}
use antarloka.Proto.Codec.{ProtoError, Serde, encode, decode}

abbrev pub max_messages : ℕ
max_messages = 281_474_976_710_656

abbrev pub u64_values : ℕ
u64_values = 18_446_744_073_709_551_616

abbrev pub u32_values : ℕ
u32_values = 4_294_967_296

pub data SessionError : Type 0 where
  io noise no_remote_static exhausted closed params : SessionError
  proto : ProtoError → SessionError
  frame_too_large : ℕ → SessionError

-- `snow::TransportState`: each call returns its bytes, or nothing on an error, and the next state.
pub record Transport (T : Type 0) : Type 0 where
  pub write_message : T → Bytes → Option Bytes × T
  pub read_message : T → Bytes → Option Bytes × T

-- `Shared` with the two halves of its socket.
pub record Channel (T : Type 0) : Type 0 where
  pub cipher : T
  pub is_shut : Bool
  pub sent : ℕ
  pub recvd : ℕ
  pub inbound : Bytes
  pub outbound : Bytes

-- The channel that `finish` makes.
abbrev pub new_channel : {T : Type 0} → T → Channel T
new_channel transport = record {
  cipher = transport;
  is_shut = false;
  sent = 0;
  recvd = 0;
  inbound = [];
  outbound = [];
}

-- `fetch_add(1)` on an `AtomicU64`
abbrev pub bump : ℕ → ℕ
bump n = (n + 1) % u64_values

-- A length prefix and the bytes it counts.
abbrev pub frame : Bytes → Bytes
frame ct = to_be_bytes 4 (length ct % u32_values) ++ ct

-- `read_exact`: the bytes asked for and the rest, or nothing when the stream ends before.
unfoldable pub read_exact : ℕ → Bytes → Option (Bytes × Bytes)
read_exact n bs = if leb n (length bs) then some (take n bs, drop n bs) else none

-- The reads of a length prefix and of what it counts, for the lengths that `fits` lets through.
-- With an error comes what is left of the stream.
unfoldable pub read_frame : (ℕ → Bool) → Bytes → Result (Bytes × Bytes) (SessionError × Bytes)
read_frame fits bs = elim (read_exact 4 bs) [
  | none ↦ err (io, [])
  | some (prefix, rest) ↦
      let len : ℕ = from_be_bytes 0 prefix in
      if not (fits len)
      then err (frame_too_large len, rest)
      else elim (read_exact len rest) [ none ↦ err (io, []) | some (ct, left) ↦ ok (ct, left) ]
]

-- `(16..=MAX_FRAME).contains(&len)`
abbrev pub is_frame_length : ℕ → Bool
is_frame_length len = leb 16 len && leb len max_frame

-- What `write_all` puts on the wire: all, or the first bytes when the socket then fails.
unfoldable pub write_all : Option ℕ → Bytes → Bytes × Bool
write_all none bs = (bs, true)
write_all (some n) bs = (take n bs, false)

module _ {T : Type 0} (snow : Transport T) (serde : Serde) where
  -- `recv` once a frame is read.
  unfoldable pub open_frame : Channel T → Bytes → Result Message SessionError × Channel T
  open_frame c ct =
      let counted : Channel T = record c { recvd = bump c.recvd } in
      if ltb max_messages c.recvd
      then (err exhausted, counted)
      else let (pt, next) = snow.read_message c.cipher ct in
        let after : Channel T = record counted { cipher = next } in
        elim pt [
          | none ↦ (err noise, after)
          | some bs ↦ elim (decode serde bs) [
            | ok m ↦ (ok m, after)
            | err e ↦ (err (proto e), after)
          ]
        ]

  unfoldable pub recv : Channel T → Result Message SessionError × Channel T
  recv c = elim (read_frame is_frame_length c.inbound) [
    | err (e, rest) ↦ (err e, record c { inbound = rest })
    | ok (ct, rest) ↦ open_frame (record c { inbound = rest }) ct
  ]

  -- `send` once the message is encoded. `taken` is what the socket takes before it fails, if it does.
  unfoldable pub seal : Option ℕ → Channel T → Bytes → Result (Unit {0}) SessionError × Channel T
  seal taken c pt =
      let counted : Channel T = record c { sent = bump c.sent } in
      if ltb max_messages c.sent
      then (err exhausted, counted)
      else let (ct, next) = snow.write_message c.cipher pt in
        elim ct [
          | none ↦ (err noise, record counted { cipher = next })
          | some out ↦
              let (written, whole) = write_all taken (frame out) in
              let after : Channel T = record counted {
                cipher = next;
                outbound = c.outbound ++ written;
              } in
              (if whole then ok tt else err io, after)
        ]

  unfoldable pub send_message :
      Option ℕ → Channel T → Message → Result (Unit {0}) SessionError × Channel T
  send_message taken c m = if c.is_shut then (err closed, c) else elim (encode serde m) [
    | err e ↦ (err (proto e), c)
    | ok pt ↦
        if ltb max_plaintext (length pt)
        then (err (frame_too_large (length pt)), c)
        else seal taken c pt
  ]

-- `close`; the shutdown of the socket is the caller's I/O.
unfoldable pub shut : {T : Type 0} → Channel T → Channel T
shut c = record c { is_shut = true }
