-- ===== src/Net/Discovery.antt =====
-- desktop/src/net/discovery.rs: what a beacon says and which beacons are believed. `serde_json`
-- is the parameter `json`.
pub mod Checked
pub mod Threads
use antarloka.Prelude.{
  ℕ, ◌≡◌, Bool, true, false, not, ◌&&◌, ◌||◌, [], Option, none, some, leb, ltb, if◌then◌else◌, ◌==◌,
  list_eq, nat_eq, length,
}
use antarloka.Text.{Str, Bytes, codes}
use antarloka.Util.Clamp.{clamp_str}
use antarloka.Util.Lan.{is_lan_addr}
use antarloka.Proto.Codec.{Json}
use antarloka.Security.Fingerprint.{DeviceId, device_id}
use antarloka.Security.Trust.{bind_option, when}
use antarloka.Security.Base64.{Base64}
use antarloka.Engine.State.{SocketAddr}

abbrev pub max_beacon_bytes : ℕ
max_beacon_bytes = 512

abbrev pub beacon_magic : Str
beacon_magic = codes "SYNCMOB"

pub record Beacon : Type 0 where
  pub m : Str
  pub v : ℕ
  pub pk : Str
  pub name : Str
  pub port : ℕ
  pub platform : Str

pub record DiscoveredPeer : Type 0 where
  pub device_id : DeviceId
  pub public_key : Bytes
  pub name : Str
  pub platform : Str
  pub addr : SocketAddr

pub record BeaconInfo : Type 0 where
  pub public_key : Bytes
  pub name : Str
  pub port : ℕ
  pub platform : Str
  pub announce : Bool

module _ (b64 : Base64) (json : Json Beacon) where
  abbrev pub beacon_of : BeaconInfo → Beacon
  beacon_of info = record {
    m = beacon_magic;
    v = 1;
    pk = b64.to_text info.public_key;
    name = clamp_str info.name 32;
    port = info.port;
    platform = info.platform;
  }

  unfoldable pub encode_beacon : BeaconInfo → Option Bytes
  encode_beacon info =
      bind_option (json.to_writer (beacon_of info))
        (λ raw. when (leb (length raw) max_beacon_bytes) raw)

  module _ (blake2s : Bytes → Bytes) where
    -- The checks that follow the parser.
    unfoldable pub check_beacon : SocketAddr → Bytes → Beacon → Option DiscoveredPeer
    check_beacon src own_pk b =
        if not (b.m == beacon_magic) || not (b.v == 1) || b.port == 0
        then none
        else bind_option (b64.from_text b.pk) λ pk.
          if not (length pk == 32)
          then none
          else if pk == own_pk
          then none
          else some (record {
            device_id = device_id blake2s pk;
            public_key = pk;
            name = clamp_str b.name 32;
            platform = clamp_str b.platform 16;
            addr = record { ip = src.ip; port = b.port };
          })

    unfoldable pub validate_beacon : Bytes → SocketAddr → Bytes → Option DiscoveredPeer
    validate_beacon raw src own_pk =
        if ltb max_beacon_bytes (length raw)
        then none
        else if not (is_lan_addr src.ip)
        then none
        else bind_option (json.from_slice raw) (check_beacon src own_pk)
