-- ===== src/Net/Session/Handshake.antt =====
-- desktop/src/net/session.rs: the Noise XX handshake of the two sides. snow's builder and
-- handshake state are the parameter `snow`.
pub mod Agreement
use antarloka.Prelude.{
  ℕ, Bool, true, false, not, ◌&&◌, ◌++◌, [], Option, none, some, ◌==◌, nat_eq, leb, ltb,
  if◌then◌else◌, is_some, Result, ok, err, ok_or,
}
use antarloka.Text.{Str, Bytes, codes}
use antarloka.Security.Keystore.{Identity}
use antarloka.Engine.State.{SocketAddr}
use antarloka.Net.Session.{
  SessionError, io, noise, no_remote_static, params, Channel, new_channel, frame, read_frame,
  write_all,
}

abbrev pub max_handshake_msg : ℕ
max_handshake_msg = 1024

unfoldable pub noise_params : Str
noise_params = codes "Noise_XX_25519_ChaChaPoly_BLAKE2s"

unfoldable pub protocol_id : Bytes
protocol_id = codes "SyncMob/1"

-- `snow::Builder` and `snow::HandshakeState`. The builder takes the parsed parameters, the private
-- key, the prologue, and whether this side connects.
pub record Handshakes (P H T : Type 0) : Type 0 where
  pub parse : Str → Option P
  pub builder : P → Bytes → Bytes → Bool → Option H
  pub write_message : H → Option Bytes × H
  pub read_message : H → Bytes → Option Bytes × H
  pub get_remote_static : H → Option Bytes
  pub get_handshake_hash : H → Bytes
  pub into_transport_mode : H → Option T

pub record CompletedHandshake (T : Type 0) : Type 0 where
  pub channel : Channel T
  pub remote_static : Bytes
  pub handshake_hash : Bytes
  pub peer_addr : SocketAddr
  pub is_initiator : Bool

-- The stream: what the peer wrote and is not yet read, and what was written here.
pub record Stream : Type 0 where
  pub inbound : Bytes
  pub outbound : Bytes

-- What the calls on the socket answer: its address, whether its options are set, before and after
-- the handshake, and where a write fails.
pub record SocketIo : Type 0 where
  pub peer_addr : Option SocketAddr
  pub configured : Bool
  pub reconfigured : Bool
  pub first_write : Option ℕ
  pub second_write : Option ℕ

-- A call that reads and writes the stream and may fail.
abbrev pub Call : Type 0 → Type 0
Call A = Stream → Result A SessionError × Stream

infixl 5 ◌>>=◌
abbrev pub ◌>>=◌ : {A B : Type 0} → Call A → (A → Call B) → Call B
(m >>= f) w = let (r, v) = m w in elim r [ ok a ↦ f a v | err e ↦ (err e, v) ]

abbrev pub lift : {A : Type 0} → Result A SessionError → Call A
lift r w = (r, w)

-- A call on the socket that gives nothing but whether it succeeded.
abbrev pub must : Bool → Call (Unit {0})
must true w = (ok tt, w)
must false w = (err io, w)

abbrev pub is_handshake_length : ℕ → Bool
is_handshake_length len = leb len max_handshake_msg && not (len == 0)

module _ {P H T : Type 0} (snow : Handshakes P H T) where
  -- `build`, and the builder's last call.
  unfoldable pub build : Identity → Bool → Result H SessionError
  build me is_initiator = elim (snow.parse noise_params) [
    | none ↦ err params
    | some p ↦ ok_or (snow.builder p me.secret protocol_id is_initiator) noise
  ]

  unfoldable pub write_hs : Option ℕ → H → Call H
  write_hs taken hs w =
      let (msg, next) = snow.write_message hs in
      elim msg [
        | none ↦ (err noise, w)
        | some bs ↦
            let (written, whole) = write_all taken (frame bs) in
            (if whole then ok next else err io, record w { outbound = w.outbound ++ written })
      ]

  unfoldable pub read_hs : H → Call H
  read_hs hs w = elim (read_frame is_handshake_length w.inbound) [
    | err (e, rest) ↦ (err e, record w { inbound = rest })
    | ok (msg, rest) ↦
        let (payload, next) = snow.read_message hs msg in
        (if is_some payload then ok next else err noise, record w { inbound = rest })
  ]

  -- The channel goes on reading the stream where the handshake stopped.
  unfoldable pub finish_handshake : SocketIo → H → SocketAddr → Bool → Call (CompletedHandshake T)
  finish_handshake os hs peer_addr is_initiator w = elim (snow.get_remote_static hs) [
    | none ↦ (err no_remote_static, w)
    | some remote ↦ elim (snow.into_transport_mode hs) [
      | none ↦ (err noise, w)
      | some transport ↦ if not os.reconfigured then (err io, w) else (
        ok (record {
          channel = record (new_channel transport) { inbound = w.inbound };
          remote_static = remote;
          handshake_hash = snow.get_handshake_hash hs;
          peer_addr = peer_addr;
          is_initiator = is_initiator;
        }),
        w,
      )
    ]
  ]

  unfoldable pub handshake_initiator : SocketIo → Identity → Call (CompletedHandshake T)
  handshake_initiator os me = do
    peer_addr ← lift (ok_or os.peer_addr io)
    _ ← must os.configured
    hs0 ← lift (build me true)
    hs1 ← write_hs os.first_write hs0
    hs2 ← read_hs hs1
    hs3 ← write_hs os.second_write hs2
    finish_handshake os hs3 peer_addr true

  unfoldable pub handshake_responder : SocketIo → Identity → Call (CompletedHandshake T)
  handshake_responder os me = do
    peer_addr ← lift (ok_or os.peer_addr io)
    _ ← must os.configured
    hs0 ← lift (build me false)
    hs1 ← read_hs hs0
    hs2 ← write_hs os.first_write hs1
    hs3 ← read_hs hs2
    finish_handshake os hs3 peer_addr false
