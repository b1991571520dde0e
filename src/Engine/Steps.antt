-- ===== src/Engine/Steps.antt =====
-- desktop/src/engine/mod.rs as a system of steps: the threads of the engine interleave
-- between the operations below, each of which is taken as one step.
use antarloka.Prelude.{Result, ℕ, refl, Bool, Option, none, [], arith}
use antarloka.Prelude.Map.{distinct}
use antarloka.Text.{Str, Bytes}
use antarloka.Fs.{FilePath, Disk}
use antarloka.Proto.Message.{Message, TransferId}
use antarloka.Security.Fingerprint.{DeviceId}
use antarloka.Security.Trust.{TrustStore}
use antarloka.Security.Trust.Valid.{IsLossless, IsValid}
use antarloka.Net.Discovery.{DiscoveredPeer}
use antarloka.Engine.State.{Inner, Params, Env, Config}
use antarloka.Engine.Pairing.{respond_pairing}
use antarloka.Engine.Incoming.{respond_offer}
use antarloka.Engine.Dispatch.{on_message}
use antarloka.Engine.Connection.{Handshaked, open_connection, end_connection}
use antarloka.Engine.Commands.{
  send_text, forget, set_device_auto_accept, set_device_blocked, update_config, cancel_transfer,
}
use antarloka.Engine.Housekeeping.{on_beacon, expire_peers, expire_pairings, ping_all}
use antarloka.Engine.Invariant.{
  IsWellFormed, on_message-IsWellFormed, respond_pairing-IsWellFormed, respond_offer-IsWellFormed,
}
use antarloka.Engine.Sending.{Sender, ReadIo, offer_file, take_answer, send_round, end_send}
use antarloka.Engine.Sending.Kept.{
  offer_file-SameTables, take_answer-SameTables, send_round-SameTables, end_send-SameTables,
}
use antarloka.Engine.Kept.{
  SameTables-IsWellFormed, open_connection-IsWellFormed, end_connection-IsWellFormed,
  on_beacon-IsWellFormed, expire_peers-IsWellFormed, expire_pairings-IsWellFormed,
  ping_all-IsWellFormed, send_text-IsWellFormed, cancel_transfer-IsWellFormed, forget-IsWellFormed,
  set_device_auto_accept-IsWellFormed, set_device_blocked-IsWellFormed,
}

-- `Engine::start`, with the store that was loaded.
unfoldable pub start : Config → TrustStore → Disk → Inner
start config trust disk = record {
  config = config;
  trust = trust;
  conns = [];
  peers = [];
  incoming = [];
  outgoing = [];
  events = [];
  wire = [];
  saved = none;
  disk = disk;
}

pub data Step (px : Params) : Inner → Inner → Type 0 where
  message :
      (env : Env) (s : Inner) (d : DeviceId) (key : Bytes) (msg : Message)
      → Step px s (on_message px env s d key msg).1
  opened :
      (env : Env) (s : Inner) (hs : Handshaked) (we_dialed : Bool) (expected : Option Bytes)
      → Step px s (open_connection px env s hs we_dialed expected).1
  ended :
      (env : Env) (s : Inner) (d : DeviceId) (channel : ℕ) (reason : Str)
      → Step px s (end_connection env s d channel reason)
  pairing_answer :
      (env : Env) (s : Inner) (d : DeviceId) (answer : Bool)
      → Step px s (respond_pairing px env s d answer)
  offer_answer :
      (env : Env) (s : Inner) (id : TransferId) (answer : Bool)
      → Step px s (respond_offer px env s id answer)
  text :
      (env : Env) (s : Inner) (d : DeviceId) (id : TransferId) (t : Str)
      → Step px s (send_text px env s d id t)
  cancelled : (env : Env) (s : Inner) (id : TransferId) → Step px s (cancel_transfer px env s id)
  forgotten : (env : Env) (s : Inner) (d : DeviceId) → Step px s (forget px env s d)
  auto_accept :
      (env : Env) (s : Inner) (d : DeviceId) (on : Bool)
      → Step px s (set_device_auto_accept px env s d on)
  blocked :
      (env : Env) (s : Inner) (d : DeviceId) (b : Bool)
      → Step px s (set_device_blocked px env s d b)
  configured : (s : Inner) (c : Config) → Step px s (update_config s c)
  beacon : (env : Env) (s : Inner) (p : DiscoveredPeer) → Step px s (on_beacon px env s p)
  peers_expired : (env : Env) (s : Inner) → Step px s (expire_peers env s)
  pairings_expired : (env : Env) (s : Inner) → Step px s (expire_pairings px env s)
  pinged : (s : Inner) → Step px s (ping_all s)
  offered :
      (env : Env) (s : Inner) (to : DeviceId) (id : TransferId) (name : Str) (path : FilePath)
      (hashed : Option (Str × ℕ))
      → Step px s (offer_file px env s to id name path hashed).1
  answered :
      (s : Inner) (x : Sender) (file : Result (Unit {0}) Str) → Step px s (take_answer s x file).1
  sent_round :
      (env : Env) (s : Inner) (x : Sender) (read : ReadIo)
      → Step px s (send_round px env s x read).1
  sent_all : (env : Env) (s : Inner) (x : Sender) → Step px s (end_send px env s x)

pub data Reachable (px : Params) (first : Inner) : Inner → Type 0 where
  at_start : Reachable px first first
  then_step : {s t : Inner} → Reachable px first s → Step px s t → Reachable px first t

update_config-IsWellFormed :
    (s : Inner) (c : Config) → IsWellFormed s → IsWellFormed (update_config s c)
unfolding update_config
update_config-IsWellFormed s c w = ground arith

start-IsWellFormed :
    (config : Config) (trust : TrustStore) (disk : Disk)
    → IsValid trust
    → IsWellFormed (start config trust disk)
unfolding start distinct
start-IsWellFormed config trust disk v = record {
  sessions = record { conns = omega arith; peers = omega arith; trust = v };
  transfers = record { bounded = omega arith; keys = refl };
}

module _ (px : Params) (lossless : IsLossless px.b64) where
  step-IsWellFormed : {s t : Inner} → Step px s t → IsWellFormed s → IsWellFormed t
  step-IsWellFormed (message env s d key msg) w =
      on_message-IsWellFormed px env lossless s d key msg w
  step-IsWellFormed (opened env s hs we_dialed expected) w =
      open_connection-IsWellFormed px env s hs we_dialed expected w
  step-IsWellFormed (ended env s d channel reason) w =
      end_connection-IsWellFormed env s d channel reason w
  step-IsWellFormed (pairing_answer env s d answer) w =
      respond_pairing-IsWellFormed px env lossless s d answer w
  step-IsWellFormed (offer_answer env s id answer) w =
      respond_offer-IsWellFormed px env s id answer w
  step-IsWellFormed (text env s d id t) w = send_text-IsWellFormed px env s d id t w
  step-IsWellFormed (cancelled env s id) w = cancel_transfer-IsWellFormed px env s id w
  step-IsWellFormed (forgotten env s d) w = forget-IsWellFormed px env lossless s d w
  step-IsWellFormed (auto_accept env s d on) w =
      set_device_auto_accept-IsWellFormed px env lossless s d on w
  step-IsWellFormed (blocked env s d b) w = set_device_blocked-IsWellFormed px env lossless s d b w
  step-IsWellFormed (configured s c) w = update_config-IsWellFormed s c w
  step-IsWellFormed (beacon env s p) w = on_beacon-IsWellFormed px env s p w
  step-IsWellFormed (peers_expired env s) w = expire_peers-IsWellFormed env s w
  step-IsWellFormed (pairings_expired env s) w = expire_pairings-IsWellFormed px env s w
  step-IsWellFormed (pinged s) w = ping_all-IsWellFormed s w
  step-IsWellFormed (offered env s to id name path hashed) w =
      SameTables-IsWellFormed s (offer_file px env s to id name path hashed).1
        (offer_file-SameTables px env s to id name path hashed) w
  step-IsWellFormed (answered s x file) w =
      SameTables-IsWellFormed s (take_answer s x file).1 (take_answer-SameTables s x file) w
  step-IsWellFormed (sent_round env s x read) w =
      SameTables-IsWellFormed s (send_round px env s x read).1
        (send_round-SameTables px env s x read) w
  step-IsWellFormed (sent_all env s x) w =
      SameTables-IsWellFormed s (end_send px env s x) (end_send-SameTables px env s x) w

  -- From the start with a valid trust store, every sequence of steps leads to a state in which no
  -- table exceeds its limit, no transfer is filed twice and the trust store is valid.
  pub Reachable-IsWellFormed :
      (config : Config) (trust : TrustStore) (disk : Disk) (s : Inner)
      → IsValid trust
      → Reachable px (start config trust disk) s
      → IsWellFormed s
  Reachable-IsWellFormed config trust disk s v at_start = start-IsWellFormed config trust disk v
  Reachable-IsWellFormed config trust disk s v (then_step r step) =
      step-IsWellFormed step (Reachable-IsWellFormed config trust disk _ v r)
