-- ===== src/Engine/Kept.antt =====
-- desktop/src/engine/mod.rs: the operations besides `on_message` keep the invariant of the engine.
use antarloka.Prelude.{
  ℕ, ◌≡◌, refl, Bool, List, [], ◌∷◌, Option, arith, list_eq, nat_eq, Option-cases, inl, inr,
}
use antarloka.Prelude.Map.{
  Map, retain, lookup, remove, length-insert, length-remove-le, length-retain-le,
}
use antarloka.Text.{Str, Bytes}
use antarloka.Proto.Message.{Message, TransferId}
use antarloka.Security.Fingerprint.{DeviceId, device_id}
use antarloka.Security.Trust.Valid.{
  IsLossless, remove_key-IsValid, set_auto_accept-IsValid, set_blocked-IsValid,
}
use antarloka.Net.Discovery.{DiscoveredPeer}
use antarloka.Engine.State.{
  Inner, Params, Env, Conn, PeerEntry, EngineEvent, emit, send, send_raw, send_to, close,
}
use antarloka.Engine.Pairing.{save_trust}
use antarloka.Engine.Incoming.{abort_incoming}
use antarloka.Engine.Connection.{
  Handshaked, standing, new_conn, greet, open_connection, abort_all, transfers_from,
  fail_transfers_for, end_connection,
}
use antarloka.Engine.Commands.{
  key_for, disconnect, send_text, forget, set_device_auto_accept, set_device_blocked,
  cancel_incoming, cancel_transfer,
}
use antarloka.Engine.Housekeeping.{
  peer_info, on_beacon, is_alive, expired, report_lost, expire_peers, overdue, close_overdue,
  expire_pairings, ping_conns, ping_all,
}
use antarloka.Engine.Texts.{
  pairing_timed_out, cancelled_reason, cancelled_by_receiver, connection_closed,
}
use antarloka.Engine.Bounds.{same_table, abort_incoming-TransfersOk}
use antarloka.Engine.Frame.{abort_incoming-SameSessions}
use antarloka.Engine.Sessions.{kept}
use antarloka.Engine.Invariant.{IsWellFormed}

-- Neither a table nor the trust store changes.
pub record SameTables (s t : Inner) : Type 0 where
  pub conns : t.conns ≡ s.conns
  pub peers : t.peers ≡ s.peers
  pub trust : t.trust ≡ s.trust
  pub incoming : t.incoming ≡ s.incoming

pub SameTables-IsWellFormed : (s t : Inner) → SameTables s t → IsWellFormed s → IsWellFormed t
SameTables-IsWellFormed s t e w = record {
  sessions = record {
    conns = rw e.conns w.sessions.conns;
    peers = rw e.peers w.sessions.peers;
    trust = rw e.trust w.sessions.trust;
  };
  transfers = same_table s t e.incoming w.transfers;
}

pub report_lost-SameTables : (ids : List DeviceId) (s : Inner) → SameTables s (report_lost ids s)
unfolding report_lost emit
report_lost-SameTables [] s = record { conns = refl; peers = refl; trust = refl; incoming = refl }
report_lost-SameTables (id ∷ ids) s =
    ground (arith, report_lost-SameTables ids (emit s (EngineEvent.peer_lost id)))

pub ping_conns-SameTables : (m : Map DeviceId Conn) (s : Inner) → SameTables s (ping_conns m s)
unfolding ping_conns send
ping_conns-SameTables [] s = record { conns = refl; peers = refl; trust = refl; incoming = refl }
ping_conns-SameTables ((id, c) ∷ m) s =
    ground (arith, ping_conns-SameTables m (send s c.sender Message.ping))

abort_incoming-IsWellFormed :
    (env : Env) (s : Inner) (id : TransferId) (reason : Str)
    → IsWellFormed s
    → IsWellFormed (abort_incoming env s id reason)
abort_incoming-IsWellFormed env s id reason w = record {
  sessions =
      kept s (abort_incoming env s id reason) (abort_incoming-SameSessions env s id reason)
        w.sessions;
  transfers = abort_incoming-TransfersOk env s id reason w.transfers;
}

abort_all-IsWellFormed :
    (env : Env) (reason : Str) (ids : List TransferId) (s : Inner)
    → IsWellFormed s
    → IsWellFormed (abort_all env reason ids s)
unfolding abort_all
abort_all-IsWellFormed env reason [] s w = w
abort_all-IsWellFormed env reason (id ∷ ids) s w =
    abort_all-IsWellFormed env reason ids (abort_incoming env s id reason)
      (abort_incoming-IsWellFormed env s id reason w)

pub ping_all-IsWellFormed : (s : Inner) → IsWellFormed s → IsWellFormed (ping_all s)
unfolding ping_all
ping_all-IsWellFormed s w =
    SameTables-IsWellFormed s (ping_conns s.conns s) (ping_conns-SameTables s.conns s) w

pub expire_peers-IsWellFormed :
    (env : Env) (s : Inner) → IsWellFormed s → IsWellFormed (expire_peers env s)
unfolding expire_peers
expire_peers-IsWellFormed env s w =
    let s1 = record s { peers = retain (λ id e. is_alive env.now e) s.peers } in
    let w1 : IsWellFormed s1 =
      ground (arith, length-retain-le (λ (id : DeviceId) e. is_alive env.now e) s.peers) in
    SameTables-IsWellFormed s1 (report_lost (expired env.now s.peers) s1)
      (report_lost-SameTables (expired env.now s.peers) s1) w1

pub end_connection-IsWellFormed :
    (env : Env) (s : Inner) (d : DeviceId) (channel : ℕ) (reason : Str)
    → IsWellFormed s
    → IsWellFormed (end_connection env s d channel reason)
unfolding end_connection fail_transfers_for emit close
end_connection-IsWellFormed env s d channel reason w =
    let s1 = record (close s channel) { conns = remove d s.conns } in
    let w1 : IsWellFormed s1 = ground (arith, length-remove-le d s.conns) in
    ground (arith, abort_all-IsWellFormed env connection_closed (transfers_from d s.incoming) s1 w1)

module _ (px : Params) (env : Env) where
  pub close_overdue-SameTables :
      (late : List (DeviceId × ℕ)) (s : Inner) → SameTables s (close_overdue px late s)
  unfolding close_overdue emit close
  close_overdue-SameTables [] s = record {
    conns = refl;
    peers = refl;
    trust = refl;
    incoming = refl;
  }
  close_overdue-SameTables ((id, channel) ∷ late) s = ground (
    arith,
    close_overdue-SameTables late
        (emit (close s channel) (EngineEvent.notice (pairing_timed_out (px.show_id id)))),
  )

  pub open_connection-IsWellFormed :
      (s : Inner) (hs : Handshaked) (we_dialed : Bool) (expected : Option Bytes)
      → IsWellFormed s
      → IsWellFormed (open_connection px env s hs we_dialed expected).1
  unfolding open_connection greet emit send close
  open_connection-IsWellFormed s hs we_dialed expected w =
      let device = device_id px.blake2s hs.remote_static in
      let c : Conn = new_conn px env hs (standing px s hs.remote_static) in
      ground (arith, length-insert device c s.conns)

  pub on_beacon-IsWellFormed :
      (s : Inner) (p : DiscoveredPeer) → IsWellFormed s → IsWellFormed (on_beacon px env s p)
  unfolding on_beacon emit peer_info
  on_beacon-IsWellFormed s p w =
      let entry : PeerEntry = record { info = peer_info px s p; last_seen = env.now } in
      ground (arith, length-insert p.device_id entry s.peers)

  pub expire_pairings-IsWellFormed :
      (s : Inner) → IsWellFormed s → IsWellFormed (expire_pairings px env s)
  unfolding expire_pairings
  expire_pairings-IsWellFormed s w =
      SameTables-IsWellFormed s (close_overdue px (overdue env.now s.conns) s)
        (close_overdue-SameTables (overdue env.now s.conns) s) w

  pub send_text-IsWellFormed :
      (s : Inner) (d : DeviceId) (id : TransferId) (text : Str)
      → IsWellFormed s
      → IsWellFormed (send_text px env s d id text)
  unfolding send_text send_to send emit
  send_text-IsWellFormed s d id text w = ground arith

  pub cancel_transfer-IsWellFormed :
      (s : Inner) (id : TransferId) → IsWellFormed s → IsWellFormed (cancel_transfer px env s id)
  unfolding cancel_transfer cancel_incoming send_to send send_raw
  cancel_transfer-IsWellFormed s id w = elim (Option-cases (lookup id s.incoming)) [
    | inl e ↦ ground arith
    | inr (t, e) ↦
        let s1 =
          send_raw s t.from
            (Message.file_cancel (record { id = id; reason = cancelled_by_receiver })) in
        ground (arith, abort_incoming-IsWellFormed env s1 id cancelled_reason)
  ]

  module _ (lossless : IsLossless px.b64) where
    pub forget-IsWellFormed :
        (s : Inner) (d : DeviceId) → IsWellFormed s → IsWellFormed (forget px env s d)
    unfolding forget disconnect save_trust emit close
    forget-IsWellFormed s d w = elim (Option-cases (key_for px s d)) [
      | inl e ↦ ground arith
      | inr (key, e) ↦
          ground (arith, remove_key-IsValid px.b64 lossless s.trust key w.sessions.trust)
    ]

    pub set_device_auto_accept-IsWellFormed :
        (s : Inner) (d : DeviceId) (on : Bool)
        → IsWellFormed s
        → IsWellFormed (set_device_auto_accept px env s d on)
    unfolding set_device_auto_accept save_trust emit
    set_device_auto_accept-IsWellFormed s d on w = elim (Option-cases (key_for px s d)) [
      | inl e ↦ ground arith
      | inr (key, e) ↦
          ground (arith, set_auto_accept-IsValid px.b64 lossless s.trust key on w.sessions.trust)
    ]

    pub set_device_blocked-IsWellFormed :
        (s : Inner) (d : DeviceId) (b : Bool)
        → IsWellFormed s
        → IsWellFormed (set_device_blocked px env s d b)
    unfolding set_device_blocked disconnect save_trust emit close
    set_device_blocked-IsWellFormed s d b w = elim (Option-cases (key_for px s d)) [
      | inl e ↦ ground arith
      | inr (key, e) ↦
          ground (arith, set_blocked-IsValid px.b64 lossless s.trust key b w.sessions.trust)
    ]
