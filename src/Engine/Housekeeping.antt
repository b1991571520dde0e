-- ===== src/Engine/Housekeeping.antt =====
-- desktop/src/engine/mod.rs: beacons, what expires, and keep-alive.
use antarloka.Prelude.{
  ℕ, ◌-◌, Bool, false, not, ◌&&◌, List, [], ◌∷◌, none, some, ltb, leb, if◌then◌else◌, list_eq,
  nat_eq, length,
}
use antarloka.Prelude.Map.{Map, insert, retain, contains}
use antarloka.Proto.Message.{Message}
use antarloka.Security.Fingerprint.{DeviceId}
use antarloka.Security.Trust.{is_authorised}
use antarloka.Net.Discovery.{DiscoveredPeer}
use antarloka.Engine.State.{
  Inner, Params, Env, Conn, PeerEntry, PeerInfo, EngineEvent, emit, send, close, max_peers,
}
use antarloka.Engine.Texts.{pairing_timed_out}

-- In seconds.
abbrev pub peer_ttl : ℕ
peer_ttl = 15

abbrev pub pairing_timeout : ℕ
pairing_timeout = 180

unfoldable pub peer_info : Params → Inner → DiscoveredPeer → PeerInfo
peer_info px s p = record {
  device = p.device_id;
  name = p.name;
  platform = p.platform;
  addr = p.addr;
  public_key = p.public_key;
  paired = is_authorised px.b64 s.trust p.public_key;
}

unfoldable pub on_beacon : Params → Env → Inner → DiscoveredPeer → Inner
on_beacon px env s p =
    let info = peer_info px s p in
    let known = contains info.device s.peers in
    if leb max_peers (length s.peers) && not known
    then s
    else let s1 = record s {
      peers = insert info.device (record { info = info; last_seen = env.now }) s.peers;
    } in
      if not known then emit s1 (EngineEvent.peer_discovered info) else s1

abbrev pub is_alive : ℕ → PeerEntry → Bool
is_alive now e = ltb (now - e.last_seen) peer_ttl

unfoldable pub expired : ℕ → Map DeviceId PeerEntry → List DeviceId
expired now [] = []
expired now ((id, e) ∷ m) = if is_alive now e then expired now m else id ∷ expired now m

unfoldable pub report_lost : List DeviceId → Inner → Inner
report_lost [] s = s
report_lost (id ∷ ids) s = report_lost ids (emit s (EngineEvent.peer_lost id))

unfoldable pub expire_peers : Env → Inner → Inner
expire_peers env s =
    report_lost (expired env.now s.peers)
      (record s { peers = retain (λ id e. is_alive env.now e) s.peers })

unfoldable pub waits_too_long : ℕ → Conn → Bool
waits_too_long now c =
    not c.authorised && elim c.prompted_at [ none ↦ false | some t ↦ ltb pairing_timeout (now - t) ]

unfoldable pub overdue : ℕ → Map DeviceId Conn → List (DeviceId × ℕ)
overdue now [] = []
overdue now ((id, c) ∷ m) =
    if waits_too_long now c then (id, c.sender) ∷ overdue now m else overdue now m

unfoldable pub close_overdue : Params → List (DeviceId × ℕ) → Inner → Inner
close_overdue px [] s = s
close_overdue px ((id, channel) ∷ rest) s =
    close_overdue px rest
      (emit (close s channel) (EngineEvent.notice (pairing_timed_out (px.show_id id))))

unfoldable pub expire_pairings : Params → Env → Inner → Inner
expire_pairings px env s = close_overdue px (overdue env.now s.conns) s

unfoldable pub ping_conns : Map DeviceId Conn → Inner → Inner
ping_conns [] s = s
ping_conns ((_, c) ∷ m) s = ping_conns m (send s c.sender Message.ping)

unfoldable pub ping_all : Inner → Inner
ping_all s = ping_conns s.conns s
