-- ===== src/Engine/State.antt =====
-- The state of `Inner` in desktop/src/engine/mod.rs, and its smallest operations. The mutexes are
-- left out: each operation is taken as one step, from its first lock to its end.
use antarloka.Prelude.{
  ℕ, Bool, false, not, List, [], ◌∷◌, ◌++◌, Option, none, some, ltb, if◌then◌else◌, Result, ok, err,
  length, list_eq, nat_eq,
}
use antarloka.Prelude.Map.{Map, lookup}
use antarloka.Text.{Str, Bytes}
use antarloka.Fs.{FilePath, Disk}
use antarloka.Util.Lan.{IpAddr, v4}
use antarloka.Proto.Message.{Message, TransferId}
use antarloka.Security.Fingerprint.{DeviceId}
use antarloka.Security.Trust.{TrustStore, TrustError}
use antarloka.Security.Base64.{Base64}
use antarloka.Engine.Transfer.{
  IncomingTransfer, Digests, AcceptIo, WriteIo, FinishIo, TransferError,
}
use antarloka.Engine.Texts.{no_connection_to_device, not_yet_paired, send_error}

abbrev pub max_connections : ℕ
max_connections = 16

abbrev pub max_incoming_transfers : ℕ
max_incoming_transfers = 16

abbrev pub max_peers : ℕ
max_peers = 128

abbrev pub event_queue : ℕ
event_queue = 4096

pub record SocketAddr : Type 0 where
  pub ip : IpAddr
  pub port : ℕ

pub record PeerInfo : Type 0 where
  pub device : DeviceId
  pub name : Str
  pub platform : Str
  pub addr : SocketAddr
  pub public_key : Bytes
  pub paired : Bool

pub record ConnInfo : Type 0 where
  pub device : DeviceId
  pub name : Str
  pub addr : SocketAddr
  pub fingerprint : Str
  pub sas : Str
  pub paired : Bool

pub data EngineEvent : Type 0 where
  peer_discovered : PeerInfo → EngineEvent
  peer_lost : DeviceId → EngineEvent
  connected : ConnInfo → EngineEvent
  disconnected : DeviceId → Str → EngineEvent
  -- device, name, fingerprint, code, address, whether the peer asked
  pairing_required : DeviceId → Str → Str → Str → SocketAddr → Bool → EngineEvent
  pairing_finished : DeviceId → Bool → EngineEvent
  text_received text_sent : DeviceId → Str → ℕ → EngineEvent
  offer_received : DeviceId → TransferId → Str → ℕ → EngineEvent
  -- transfer, done, total, whether it is incoming
  transfer_progress : TransferId → ℕ → ℕ → Bool → EngineEvent
  transfer_finished : TransferId → Bool → Str → Option FilePath → Option Str → EngineEvent
  trust_changed : EngineEvent
  notice error : Str → EngineEvent

pub data OutSignal : Type 0 where
  accepted : OutSignal
  rejected : Str → OutSignal
  cancel : OutSignal

-- `sender` stands for the channel that the connection's `ChannelSender` shares.
pub record Conn : Type 0 where
  pub sender : ℕ
  pub key : Bytes
  pub name : Str
  pub addr : SocketAddr
  pub fingerprint : Str
  pub sas : Str
  pub authorised : Bool
  pub local_ok : Bool
  pub remote_ok : Bool
  pub prompted_at : Option ℕ

-- `signals` is what the channel of `signal` holds, oldest first.
pub record Outgoing : Type 0 where
  pub to : DeviceId
  pub name : Str
  pub size : ℕ
  pub signals : List OutSignal
  pub cancelled : Bool

pub record PeerEntry : Type 0 where
  pub info : PeerInfo
  pub last_seen : ℕ

pub record Config : Type 0 where
  pub device_name : Str
  pub tcp_port : ℕ
  pub discovery_enabled : Bool
  pub accept_incoming : Bool
  pub download_dir : FilePath
  pub max_file_size : ℕ
  pub lan_only : Bool
  pub allow_new_pairings : Bool

-- What the engine hands to a channel.
pub data Effect : Type 0 where
  sent : ℕ → Message → Effect
  closed : ℕ → Effect

pub record Inner : Type 0 where
  pub config : Config
  pub trust : TrustStore
  pub conns : Map DeviceId Conn
  pub peers : Map DeviceId PeerEntry
  pub incoming : Map TransferId IncomingTransfer
  pub outgoing : Map TransferId Outgoing
  -- the queue to the front-end, oldest first
  pub events : List EngineEvent
  -- what was handed to the channels, newest first
  pub wire : List Effect
  -- the trust store as last written to disk
  pub saved : Option TrustStore
  pub disk : Disk

-- What the engine uses and does not implement: base64, BLAKE2s, SHA-256, and `Display`.
pub record Params : Type 0 where
  pub b64 : Base64
  pub blake2s : Bytes → Bytes
  pub digests : Digests
  pub incoming_dir : FilePath
  pub show_addr : SocketAddr → Str
  pub show_id : DeviceId → Str
  pub show_error : TransferError → Str
  pub show_trust_error : TrustError → Str
  pub io_error : Str

-- What one call of the engine finds outside: the clocks and the outcome of each system call.
pub record Env : Type 0 where
  pub now : ℕ
  pub now_ms : ℕ
  pub pid : ℕ
  pub trust_written : Bool
  pub sent_ok : Bool
  pub accept_io : AcceptIo
  pub write_io : WriteIo
  pub finish_io : FinishIo
  pub abort_flush : WriteIo
  pub abort_removed : Bool

-- `try_send`: an event is dropped when the queue is full.
unfoldable pub push_event : List EngineEvent → EngineEvent → List EngineEvent
push_event q e = if ltb (length q) event_queue then q ++ e ∷ [] else q

unfoldable pub emit : Inner → EngineEvent → Inner
emit s e = record s { events = push_event s.events e }

unfoldable pub send : Inner → ℕ → Message → Inner
send s channel msg = record s { wire = sent channel msg ∷ s.wire }

unfoldable pub close : Inner → ℕ → Inner
close s channel = record s { wire = closed channel ∷ s.wire }

-- `send_raw`, whose result no caller reads.
unfoldable pub send_raw : Inner → DeviceId → Message → Inner
send_raw s device msg = elim (lookup device s.conns) [ none ↦ s | some c ↦ send s c.sender msg ]

unfoldable pub send_to : Params → Env → Inner → DeviceId → Message → Result (Unit {0}) Str × Inner
send_to px env s device msg = elim (lookup device s.conns) [
  | none ↦ (err no_connection_to_device, s)
  | some c ↦
      if not c.authorised
      then (err not_yet_paired, s)
      else (if env.sent_ok then ok tt else err (send_error px.io_error), send s c.sender msg)
]

unfoldable pub conn_info : Inner → DeviceId → ConnInfo
conn_info s device = elim (lookup device s.conns) [
  | some c ↦ record {
    device = device;
    name = c.name;
    addr = c.addr;
    fingerprint = c.fingerprint;
    sas = c.sas;
    paired = c.authorised;
  }
  | none ↦ record {
    device = device;
    name = [];
    addr = record { ip = v4 0 0 0 0; port = 0 };
    fingerprint = [];
    sas = [];
    paired = false;
  }
]
