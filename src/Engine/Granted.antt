-- ===== src/Engine/Granted.antt =====
-- desktop/src/engine/mod.rs: every way in which a connection comes to be authorised.
use antarloka.Prelude.{
  ℕ, ◌≡◌, ◌⊎◌, inl, inr, refl, Bool, true, Option, some, arith, list_eq, nat_eq, ◌==◌, Bool-cases,
  list_beq_iff,
}
use antarloka.Prelude.Map.{retain, lookup, remove, lookup-remove}
use antarloka.Text.{Str, Bytes}
use antarloka.Proto.Message.{Message, TransferId}
use antarloka.Security.Fingerprint.{DeviceId, device_id}
use antarloka.Security.Trust.{is_authorised}
use antarloka.Net.Discovery.{DiscoveredPeer}
use antarloka.Engine.State.{Inner, Params, Env, Conn, emit, send, send_raw, send_to, close}
use antarloka.Engine.Pairing.{save_trust}
use antarloka.Engine.Incoming.{abort_incoming, respond_offer}
use antarloka.Engine.Dispatch.{conn_authorised}
use antarloka.Engine.Connection.{
  Handshaked, open_connection, end_connection, fail_transfers_for, transfers_from,
}
use antarloka.Engine.Commands.{
  disconnect, send_text, forget, set_device_auto_accept, set_device_blocked, update_config,
  cancel_incoming, cancel_transfer,
}
use antarloka.Engine.Housekeeping.{
  on_beacon, is_alive, expired, expire_peers, overdue, expire_pairings, ping_all,
}
use antarloka.Engine.Texts.{connection_closed}
use antarloka.Engine.Approval.{
  Approves, same_conns, on_message-authorised, respond_pairing-authorised,
}
use antarloka.Engine.Ending.{abort_all-conns}
use antarloka.Engine.Lifecycle.{open_connection-Opened}
use antarloka.Engine.Frame.{respond_offer-SameSessions}
use antarloka.Engine.Sending.{offer_file, take_answer, send_round, end_send}
use antarloka.Engine.Sending.Kept.{
  offer_file-SameTables, take_answer-SameTables, send_round-SameTables, end_send-SameTables,
}
use antarloka.Engine.Kept.{report_lost-SameTables, ping_conns-SameTables, close_overdue-SameTables}
use antarloka.Engine.Steps.{
  offered, answered, sent_round, sent_all, Step, message, opened, ended, pairing_answer,
  offer_answer, text, cancelled, forgotten, auto_accept, blocked, configured, beacon, peers_expired,
  pairings_expired, pinged,
}

-- What a step must be for it to authorise the connection of `d`: the peer's approval after the
-- user's, the user's after the peer's, or a handshake with a key that the trust store authorises.
abbrev pub Grants : {px : Params} {s t : Inner} → Step px s t → DeviceId → Type 0
Grants {px} (message env s device key msg) d = (msg ≡ Message.pair_accept) × Approves s device d
Grants {px} (pairing_answer env s device answer) d =
    (answer ≡ true)
    × ((d ≡ device) × ((c : Conn) × (lookup device s.conns ≡ some c) × (c.remote_ok ≡ true)))
Grants {px} (opened env s hs we_dialed expected) d =
    (d ≡ device_id px.blake2s hs.remote_static)
    × (is_authorised px.b64 s.trust hs.remote_static ≡ true)
Grants {px} (ended env s device channel reason) d = ⊥
Grants {px} (offer_answer env s id answer) d = ⊥
Grants {px} (text env s device id t) d = ⊥
Grants {px} (cancelled env s id) d = ⊥
Grants {px} (forgotten env s device) d = ⊥
Grants {px} (auto_accept env s device on) d = ⊥
Grants {px} (blocked env s device b) d = ⊥
Grants {px} (configured s c) d = ⊥
Grants {px} (beacon env s p) d = ⊥
Grants {px} (peers_expired env s) d = ⊥
Grants {px} (pairings_expired env s) d = ⊥
Grants {px} (pinged s) d = ⊥
Grants {px} (offered env s to id name path hashed) d = ⊥
Grants {px} (answered s x file) d = ⊥
Grants {px} (sent_round env s x read) d = ⊥
Grants {px} (sent_all env s x) d = ⊥

end_connection-authorised :
    (env : Env) (s : Inner) (device d : DeviceId) (channel : ℕ) (reason : Str)
    → conn_authorised (end_connection env s device channel reason) d ≡ true
    → conn_authorised s d ≡ true
unfolding end_connection fail_transfers_for emit close conn_authorised
end_connection-authorised env s device d channel reason h =
    let s2 = record (close s channel) { conns = remove device s.conns } in
    ground (
      arith,
      abort_all-conns env connection_closed (transfers_from device s.incoming) s2,
      lookup-remove device d s.conns,
    )

module _ (px : Params) (env : Env) where
  open_connection-authorised :
      (s : Inner) (hs : Handshaked) (w : Bool) (expected : Option Bytes) (d : DeviceId)
      → conn_authorised (open_connection px env s hs w expected).1 d ≡ true
      → (conn_authorised s d ≡ true)
        ⊎ ((d ≡ device_id px.blake2s hs.remote_static)
            × (is_authorised px.b64 s.trust hs.remote_static ≡ true))
  unfolding conn_authorised
  open_connection-authorised s hs w expected d h =
      let device = device_id px.blake2s hs.remote_static in
      elim (open_connection-Opened px env s hs w expected) [
        | inl (closed, same) ↦
            inl (same_conns s (open_connection px env s hs w expected).1 d same h)
        | inr (live, o) ↦ elim (Bool-cases (device == d)) [
          | inl e ↦ inr (ground (arith, list_beq_iff nat_eq device d, o.authorised))
          | inr n ↦ inl (ground (arith, o.others d n))
        ]
      ]

  send_text-conns :
      (s : Inner) (d : DeviceId) (id : TransferId) (t : Str)
      → (send_text px env s d id t).conns ≡ s.conns
  unfolding send_text send_to send emit
  send_text-conns s d id t = ground arith

  cancel_transfer-conns :
      (s : Inner) (id : TransferId) → (cancel_transfer px env s id).conns ≡ s.conns
  unfolding cancel_transfer cancel_incoming abort_incoming send_to send send_raw emit
  cancel_transfer-conns s id = ground arith

  forget-conns : (s : Inner) (d : DeviceId) → (forget px env s d).conns ≡ s.conns
  unfolding forget disconnect save_trust emit close
  forget-conns s d = ground arith

  set_device_auto_accept-conns :
      (s : Inner) (d : DeviceId) (on : Bool)
      → (set_device_auto_accept px env s d on).conns ≡ s.conns
  unfolding set_device_auto_accept save_trust emit
  set_device_auto_accept-conns s d on = ground arith

  set_device_blocked-conns :
      (s : Inner) (d : DeviceId) (b : Bool) → (set_device_blocked px env s d b).conns ≡ s.conns
  unfolding set_device_blocked disconnect save_trust emit close
  set_device_blocked-conns s d b = ground arith

  on_beacon-conns : (s : Inner) (p : DiscoveredPeer) → (on_beacon px env s p).conns ≡ s.conns
  unfolding on_beacon emit
  on_beacon-conns s p = ground arith

  expire_pairings-conns : (s : Inner) → (expire_pairings px env s).conns ≡ s.conns
  unfolding expire_pairings
  expire_pairings-conns s = (close_overdue-SameTables px env (overdue env.now s.conns) s).conns

-- Whatever happens, a connection that is authorised after a step was so before it, or the step is
-- one of the three that `Grants` allows.
pub step-authorised :
    {px : Params} {s t : Inner} (step : Step px s t) (d : DeviceId)
    → conn_authorised t d ≡ true
    → (conn_authorised s d ≡ true) ⊎ Grants step d
unfolding ping_all expire_peers update_config
step-authorised {px} (message env s device key msg) d h =
    on_message-authorised px env s device d key msg h
step-authorised {px} (pairing_answer env s device answer) d h =
    respond_pairing-authorised px env s device d answer h
step-authorised {px} (opened env s hs w expected) d h =
    open_connection-authorised px env s hs w expected d h
step-authorised {px} (ended env s device channel reason) d h =
    inl (end_connection-authorised env s device d channel reason h)
step-authorised {px} (offer_answer env s id answer) d h = inl (
    same_conns s (respond_offer px env s id answer) d
      (respond_offer-SameSessions px env s id answer).conns h)
step-authorised {px} (text env s device id t) d h =
    inl (same_conns s (send_text px env s device id t) d (send_text-conns px env s device id t) h)
step-authorised {px} (cancelled env s id) d h =
    inl (same_conns s (cancel_transfer px env s id) d (cancel_transfer-conns px env s id) h)
step-authorised {px} (forgotten env s device) d h =
    inl (same_conns s (forget px env s device) d (forget-conns px env s device) h)
step-authorised {px} (auto_accept env s device on) d h = inl (
    same_conns s (set_device_auto_accept px env s device on) d
      (set_device_auto_accept-conns px env s device on) h)
step-authorised {px} (blocked env s device b) d h = inl (
    same_conns s (set_device_blocked px env s device b) d
      (set_device_blocked-conns px env s device b) h)
step-authorised {px} (configured s c) d h = inl (same_conns s (update_config s c) d refl h)
step-authorised {px} (beacon env s p) d h =
    inl (same_conns s (on_beacon px env s p) d (on_beacon-conns px env s p) h)
step-authorised {px} (peers_expired env s) d h = inl (
    same_conns s (expire_peers env s) d
      (report_lost-SameTables (expired env.now s.peers)
        (record s { peers = retain (λ id e. is_alive env.now e) s.peers })).conns
      h)
step-authorised {px} (pairings_expired env s) d h =
    inl (same_conns s (expire_pairings px env s) d (expire_pairings-conns px env s) h)
step-authorised {px} (pinged s) d h =
    inl (same_conns s (ping_all s) d (ping_conns-SameTables s.conns s).conns h)
step-authorised {px} (offered env s to id name path hashed) d h = inl (
    same_conns s (offer_file px env s to id name path hashed).1 d
      (offer_file-SameTables px env s to id name path hashed).conns h)
step-authorised {px} (answered s x file) d h =
    inl (same_conns s (take_answer s x file).1 d (take_answer-SameTables s x file).conns h)
step-authorised {px} (sent_round env s x read) d h =
    inl (
      same_conns s (send_round px env s x read).1 d (send_round-SameTables px env s x read).conns h)
step-authorised {px} (sent_all env s x) d h =
    inl (same_conns s (end_send px env s x) d (end_send-SameTables px env s x).conns h)
