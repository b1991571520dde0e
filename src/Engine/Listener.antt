-- ===== src/Engine/Listener.antt =====
-- desktop/src/engine/mod.rs: whom the listener lets in, the dialler, the housekeeping thread and the
-- shutdown. What the sockets answer is an argument.
pub mod Settled
pub mod Admitted
use antarloka.Prelude.{
  ℕ, ◌-◌, ◌+◌, Bool, true, false, not, ◌&&◌, List, [], ◌∷◌, Option, none, some, leb, if◌then◌else◌,
  length, list_eq, nat_eq, Eq,
}
use antarloka.Prelude.Map.{Map, lookup}
use antarloka.Text.{Str, Bytes}
use antarloka.Util.Lan.{IpAddr, is_lan_addr}
use antarloka.Security.Fingerprint.{DeviceId}
use antarloka.Net.RateLimit.{guard_allow}
use antarloka.Engine.State.{
  Inner, Params, Env, Conn, SocketAddr, EngineEvent, emit, close, max_connections,
}
use antarloka.Engine.Texts.{
  outside_lan, too_many_connections, handshake_failed, not_reachable, not_in_sight,
}
use antarloka.Engine.Connection.{Handshaked, open_connection}
use antarloka.Engine.Housekeeping.{expire_peers, expire_pairings, ping_all}

-- In seconds.
abbrev pub keepalive : ℕ
keepalive = 30

module _ ⦃e : Eq IpAddr⦄ where
  -- Whether an inbound connection is let in, and the limiter after it. None for the address is an
  -- error of the socket.
  unfoldable pub admit :
      Map IpAddr (ℕ × ℕ) → ℕ → Option SocketAddr → Inner → Bool × Map IpAddr (ℕ × ℕ)
  admit guard now_ms addr s = elim addr [
    | none ↦ (false, guard)
    | some a ↦
        if not s.config.accept_incoming
        then (false, guard)
        else if s.config.lan_only && not (is_lan_addr a.ip)
        then (false, guard)
        else if leb max_connections (length s.conns)
        then (false, guard)
        else guard_allow guard now_ms a.ip
  ]

-- What comes of connecting to an address: no connection, no handshake, or a handshake that is
-- complete, with the key that the peer proved, the transcript and the channel.
pub data Dialled : Type 0 where
  unreachable : Str → Dialled
  no_handshake : Str → Dialled
  complete_handshake : Bytes → Bytes → ℕ → Dialled

-- Whether the connection gets a reader, and the state then. `network` is what comes of each address;
-- the peer of a socket that was connected to an address is that address.
unfoldable pub dial :
    Params → Env → (SocketAddr → Dialled) → SocketAddr → Option Bytes → Inner → Bool × Inner
dial px env network addr expect_key s =
    if s.config.lan_only && not (is_lan_addr addr.ip)
    then (false, emit s (EngineEvent.error (outside_lan (px.show_addr addr))))
    else if leb max_connections (length s.conns)
    then (false, emit s (EngineEvent.error too_many_connections))
    else elim (network addr) [
      | unreachable why ↦
          (false, emit s (EngineEvent.error (not_reachable (px.show_addr addr) why)))
      | no_handshake why ↦
          (false, emit s (EngineEvent.error (handshake_failed (px.show_addr addr) why)))
      | complete_handshake key transcript channel ↦
          open_connection px env s
            (record {
              remote_static = key;
              handshake_hash = transcript;
              peer_addr = addr;
              channel = channel;
            })
            true expect_key
    ]

unfoldable pub connect : Params → Env → (SocketAddr → Dialled) → DeviceId → Inner → Bool × Inner
connect px env network device s = elim (lookup device s.peers) [
  | some p ↦ dial px env network p.info.addr (some p.info.public_key) s
  | none ↦ (false, emit s (EngineEvent.error not_in_sight))
]

-- One round of the housekeeping thread, with the time of the last ping.
unfoldable pub tick : Params → Env → ℕ → Inner → ℕ × Inner
tick px env last_ping s =
    let s1 = expire_pairings px env (expire_peers env s) in
    if leb keepalive (env.now - last_ping) then (env.now, ping_all s1) else (last_ping, s1)

-- The thread, over what each of its rounds finds.
unfoldable pub housekeeping : Params → List Env → ℕ → Inner → Inner
housekeeping px [] last_ping s = s
housekeeping px (env ∷ envs) last_ping s =
    let (pinged, next) = tick px env last_ping s in housekeeping px envs pinged next

close_conns : Map DeviceId Conn → Inner → Inner
close_conns [] s = s
close_conns ((_, c) ∷ m) s = close_conns m (close s c.sender)

-- `shutdown`, but for the flags that the threads read.
unfoldable pub shutdown : Inner → Inner
unfolding close_conns
shutdown s = close_conns s.conns s
