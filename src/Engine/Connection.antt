-- ===== src/Engine/Connection.antt =====
-- desktop/src/engine/mod.rs: `run_connection` before and after its loop over `on_message`, and
-- `fail_transfers_for`.
use antarloka.Prelude.{
  ℕ, Bool, true, false, not, ◌&&◌, List, [], ◌∷◌, Option, none, some, leb, if◌then◌else◌, ◌==◌,
  list_eq, nat_eq, length,
}
use antarloka.Prelude.Map.{Map, insert, remove, contains}
use antarloka.Text.{Str, Bytes, codes}
use antarloka.Proto.Message.{Message, TransferId}
use antarloka.Security.Fingerprint.{DeviceId, device_id, keys_equal, sas_code, fingerprint}
use antarloka.Security.Trust.{get}
use antarloka.Engine.Transfer.{IncomingTransfer}
use antarloka.Engine.State.{
  Inner, Params, Env, Conn, Outgoing, SocketAddr, EngineEvent, emit, send, close, conn_info,
  max_connections,
}
use antarloka.Engine.Incoming.{abort_incoming}
use antarloka.Engine.Texts.{wrong_key, pairing_forbidden, connection_closed}

-- What the handshake leaves: the key that the peer proved, the transcript and the channel.
pub record Handshaked : Type 0 where
  pub remote_static : Bytes
  pub handshake_hash : Bytes
  pub peer_addr : SocketAddr
  pub channel : ℕ

-- `PLATFORM`, where the target is not Windows.
unfoldable pub platform_name : Str
platform_name = codes "desktop"

pub record Standing : Type 0 where
  pub authorised : Bool
  pub blocked : Bool
  pub stored_name : Str

unfoldable pub standing : Params → Inner → Bytes → Standing
standing px s key = elim (get px.b64 s.trust key) [
  | some d ↦ record { authorised = not d.blocked; blocked = d.blocked; stored_name = d.name }
  | none ↦ record { authorised = false; blocked = false; stored_name = [] }
]

unfoldable pub is_unexpected : Option Bytes → Bytes → Bool
is_unexpected none key = false
is_unexpected (some expected) key = not (keys_equal expected key)

unfoldable pub new_conn : Params → Env → Handshaked → Standing → Conn
new_conn px env hs st = record {
  sender = hs.channel;
  key = hs.remote_static;
  name = st.stored_name;
  addr = hs.peer_addr;
  fingerprint = fingerprint px.blake2s hs.remote_static;
  sas = sas_code px.blake2s hs.handshake_hash;
  authorised = st.authorised;
  local_ok = false;
  remote_ok = false;
  prompted_at = if st.authorised then none else some env.now;
}

-- `Hello`, and what the front-end hears.
unfoldable pub greet : Params → Inner → Handshaked → DeviceId → Bool → Bool → Inner
greet px s hs device authorised we_dialed =
    let name = s.config.device_name in
    let s1 =
      send s hs.channel
        (Message.hello (record { name = name; version = 1; platform = platform_name })) in
    if authorised
    then emit s1 (EngineEvent.connected (conn_info s1 device))
    else let s2 =
        if we_dialed
        then send s1 hs.channel
            (Message.pair_request (record { name = name; platform = platform_name }))
        else s1 in
      emit s2 (
        EngineEvent.pairing_required device [] (fingerprint px.blake2s hs.remote_static)
          (sas_code px.blake2s hs.handshake_hash) hs.peer_addr (not we_dialed))

-- Whether the connection gets a reader, and the state then.
unfoldable pub open_connection :
    Params → Env → Inner → Handshaked → Bool → Option Bytes → Bool × Inner
open_connection px env s hs we_dialed expect_key =
    let key = hs.remote_static in
    let device = device_id px.blake2s key in
    let st = standing px s key in
    if is_unexpected expect_key key
    then (false, emit s (EngineEvent.error (wrong_key (px.show_addr hs.peer_addr))))
    else if st.blocked
    then (false, s)
    else if not st.authorised && not s.config.allow_new_pairings
    then (false, emit s (EngineEvent.notice (pairing_forbidden (px.show_id device))))
    else if contains device s.conns
    then (false, close s hs.channel)
    else if leb max_connections (length s.conns)
    then (false, close s hs.channel)
    else let s1 = record s { conns = insert device (new_conn px env hs st) s.conns } in
      (true, greet px s1 hs device st.authorised we_dialed)

unfoldable pub transfers_from : DeviceId → Map TransferId IncomingTransfer → List TransferId
transfers_from device [] = []
transfers_from device ((id, t) ∷ m) =
    if t.from == device then id ∷ transfers_from device m else transfers_from device m

unfoldable pub abort_all : Env → Str → List TransferId → Inner → Inner
abort_all env reason [] s = s
abort_all env reason (id ∷ ids) s = abort_all env reason ids (abort_incoming env s id reason)

unfoldable pub cancel_to : DeviceId → Map TransferId Outgoing → Map TransferId Outgoing
cancel_to device [] = []
cancel_to device ((id, o) ∷ m) =
    (id, if o.to == device then record o { cancelled = true } else o) ∷ cancel_to device m

unfoldable pub fail_transfers_for : Env → Inner → DeviceId → Str → Inner
fail_transfers_for env s device reason =
    let s1 = abort_all env reason (transfers_from device s.incoming) s in
    record s1 { outgoing = cancel_to device s1.outgoing }

-- What follows the loop.
unfoldable pub end_connection : Env → Inner → DeviceId → ℕ → Str → Inner
end_connection env s device channel reason =
    let s1 = close s channel in
    let s2 = record s1 { conns = remove device s1.conns } in
    emit (fail_transfers_for env s2 device connection_closed)
      (EngineEvent.disconnected device reason)
