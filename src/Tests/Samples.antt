-- ===== src/Tests/Samples.antt =====
-- Concrete values for the runs: a node with one paired device, and simple stand-ins for the crates.
use antarloka.Prelude.{
  refl, Bool, true, [], ◌∷◌, ◌++◌, none, some, replicate, take, drop, length, take-append,
  drop-append, arith,
}
use antarloka.Text.{Bytes, codes}
use antarloka.Util.Lan.{v4}
use antarloka.Fs.{FilePath, regular}
use antarloka.Proto.Message.{FileDone, TransferId}
use antarloka.Proto.Codec.{Json, Serde}
use antarloka.Proto.RoundTrip.{Faithful, IsFaithful}
use antarloka.Security.Fingerprint.{DeviceId}
use antarloka.Security.Trust.{TrustStore}
use antarloka.Security.Base64.{Base64}
use antarloka.Security.Trust.Valid.{IsLossless}
use antarloka.Engine.Transfer.{Digests, IncomingTransfer, written}
use antarloka.Engine.State.{Params, Env, Inner, Config, Conn, SocketAddr}
use antarloka.Engine.Connection.{Handshaked}

-- The stand-ins: base64 and hex that leave the bytes alone, a hash that drops the prefix.
abbrev pub plain64 : Base64
plain64 = record { to_text = λ b. b; from_text = λ s. some s }

pub plain64-IsLossless : IsLossless plain64
plain64-IsLossless b = refl

abbrev pub drop_prefix : Bytes → Bytes
drop_prefix b = drop 19 b

abbrev pub plain_digests : Digests
plain_digests = record { sha256 = λ b. b; hex_encode = λ b. b }

abbrev pub silent : {A : Type 0} → Json A
silent = record { to_writer = λ a. none; from_slice = λ b. none }

-- A writer that puts the length of the identifier first.
abbrev pub dones : Json FileDone
dones = record {
  to_writer = λ d. some (length d.id ∷ d.id ++ d.sha256);
  from_slice = λ b. elim b [
    | [] ↦ none
    | n ∷ rest ↦ some (record { id = take n rest; sha256 = drop n rest })
  ];
}

abbrev pub small_serde : Serde
small_serde = record {
  hellos = silent;
  pair_requests = silent;
  reasons = record { to_writer = λ a. some a; from_slice = λ b. some b };
  texts = silent;
  ids = record { to_writer = λ a. some a; from_slice = λ b. some b };
  file_offers = silent;
  id_reasons = silent;
  file_dones = dones;
}

pub silent-Faithful : {A : Type 0} → Faithful {A = A} silent
silent-Faithful a b h = ground arith

dones-Faithful : Faithful dones
dones-Faithful d b h = ground (arith, take-append d.id d.sha256, drop-append d.id d.sha256)

pub small_serde-IsFaithful : IsFaithful small_serde
small_serde-IsFaithful = record {
  hellos = silent-Faithful;
  pair_requests = silent-Faithful;
  reasons = λ a b h. ground arith;
  texts = silent-Faithful;
  ids = λ a b h. ground arith;
  file_offers = silent-Faithful;
  id_reasons = silent-Faithful;
  file_dones = dones-Faithful;
}

abbrev pub downloads : FilePath
downloads = codes "home" ∷ codes "downloads" ∷ []

abbrev pub quarantine : FilePath
quarantine = codes "home" ∷ codes "incoming" ∷ []

-- Keys of 32 bytes.
abbrev pub key_a : Bytes
key_a = replicate 32 7

abbrev pub key_b : Bytes
key_b = replicate 32 9

abbrev pub device_a : DeviceId
device_a = replicate 8 7

abbrev pub transfer_id : TransferId
transfer_id = replicate 16 1

abbrev pub address_a : SocketAddr
address_a = record { ip = v4 192 168 1 50; port = 45821 }

abbrev pub params : Params
params = record {
  b64 = plain64;
  blake2s = drop_prefix;
  digests = plain_digests;
  incoming_dir = quarantine;
  show_addr = λ a. [];
  show_id = λ d. d;
  show_error = λ e. [];
  show_trust_error = λ e. [];
  io_error = [];
}

abbrev pub good_env : Env
good_env = record {
  now = 100;
  now_ms = 100_000;
  pid = 1;
  trust_written = true;
  sent_ok = true;
  accept_io = record { dir_made = true; file_made = true };
  write_io = written;
  finish_io = record {
    flushed = written;
    synced = true;
    dir_made = true;
    renamed = true;
    copied = written;
    removed = true;
  };
  abort_flush = written;
  abort_removed = true;
}

abbrev pub config : Config
config = record {
  device_name = codes "desk";
  tcp_port = 45821;
  discovery_enabled = true;
  accept_incoming = true;
  download_dir = downloads;
  max_file_size = 0;
  lan_only = true;
  allow_new_pairings = true;
}

abbrev pub empty_store : TrustStore
empty_store = record { devices = [] }

-- The connection of `key_a`, before pairing, approved as the arguments say.
abbrev pub conn_a : Bool → Bool → Bool → Conn
conn_a authorised local_ok remote_ok = record {
  sender = 1;
  key = key_a;
  name = codes "phone";
  addr = address_a;
  fingerprint = [];
  sas = [];
  authorised = authorised;
  local_ok = local_ok;
  remote_ok = remote_ok;
  prompted_at = some 90;
}

-- Three bytes were offered, and none has come.
abbrev pub transfer_a : IncomingTransfer
transfer_a = record {
  id = transfer_id;
  from = device_a;
  from_key = key_a;
  name = codes "a.txt";
  size = 3;
  expected_sha = 1 ∷ 2 ∷ 3 ∷ [];
  received = 0;
  accepted = true;
  started = 90;
  part_path = codes "home" ∷ codes "incoming" ∷ codes "part" ∷ [];
  file = some (codes "home" ∷ codes "incoming" ∷ codes "part" ∷ []);
  buffered = [];
  hasher = [];
}

abbrev pub state_with : Conn → Inner
state_with c = record {
  config = config;
  trust = empty_store;
  conns = (device_a, c) ∷ [];
  peers = [];
  incoming = (transfer_id, transfer_a) ∷ [];
  outgoing = [];
  events = [];
  wire = [];
  saved = none;
  disk = (codes "home" ∷ codes "incoming" ∷ codes "part" ∷ [], regular []) ∷ [];
}

abbrev pub handshake_a : Handshaked
handshake_a = record {
  remote_static = key_a;
  handshake_hash = [];
  peer_addr = address_a;
  channel = 2;
}
