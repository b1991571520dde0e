-- ===== src/Net/Discovery/Checked.antt =====
-- desktop/src/net/discovery.rs: what is known of a peer whose beacon was believed.
use antarloka.Prelude.{
  ◌≡◌, ◌≢◌, ◌≤◌, true, some, arith, list_eq, nat_eq, length, Option-cases, inl, inr, list_beq_iff,
  beq_refl, all,
}
use antarloka.Text.{Bytes}
use antarloka.Util.Clamp.{clamp_str, clamp_str_bounds, is_one_line}
use antarloka.Util.Lan.{is_lan_addr}
use antarloka.Proto.Codec.{Json}
use antarloka.Security.Fingerprint.{device_id}
use antarloka.Security.Base64.{Base64}
use antarloka.Security.Trust.Valid.{IsLossless}
use antarloka.Engine.State.{SocketAddr}
use antarloka.Net.Discovery.{
  Beacon, BeaconInfo, DiscoveredPeer, beacon_of, check_beacon, encode_beacon, validate_beacon,
  max_beacon_bytes, beacon_magic,
}

-- A peer in the local network, at the address the beacon came from, with a key that is not ours.
pub record IsChecked (blake2s : Bytes → Bytes) (src : SocketAddr) (own_pk : Bytes)
    (p : DiscoveredPeer) : Type 0 where
  pub in_lan : is_lan_addr p.addr.ip ≡ true
  pub from_source : p.addr.ip ≡ src.ip
  pub port : p.addr.port ≢ 0
  pub key : length p.public_key ≡ 32
  pub foreign : p.public_key ≢ own_pk
  pub named : p.device_id ≡ device_id blake2s p.public_key
  pub short : length p.name ≤ 33
  pub one_line : all is_one_line p.name ≡ true
  pub platform : length p.platform ≤ 17

module _ (b64 : Base64) (json : Json Beacon) (blake2s : Bytes → Bytes) where
  check_beacon-IsChecked :
      (src : SocketAddr) (own_pk : Bytes) (b : Beacon) (p : DiscoveredPeer)
      → is_lan_addr src.ip ≡ true
      → check_beacon b64 json blake2s src own_pk b ≡ some p
      → IsChecked blake2s src own_pk p
  unfolding check_beacon
  check_beacon-IsChecked src own_pk b p lan h = elim (Option-cases (b64.from_text b.pk)) [
    | inl e ↦ ground arith
    | inr (pk, e) ↦ ground (
      arith,
      clamp_str_bounds b.name 32,
      clamp_str_bounds b.platform 16,
      list_beq_iff nat_eq pk own_pk,
    )
  ]

  -- A beacon that is believed is of a peer for which all of `IsChecked` holds, and was no longer
  -- than a beacon may be.
  pub validate_beacon-IsChecked :
      (raw : Bytes) (src : SocketAddr) (own_pk : Bytes) (p : DiscoveredPeer)
      → validate_beacon b64 json blake2s raw src own_pk ≡ some p
      → IsChecked blake2s src own_pk p × (length raw ≤ max_beacon_bytes)
  unfolding validate_beacon
  validate_beacon-IsChecked raw src own_pk p h = elim (Option-cases (json.from_slice raw)) [
    | inl e ↦ ground arith
    | inr (b, e) ↦ ground (arith, check_beacon-IsChecked src own_pk b p)
  ]

  -- What this node announces is believed by another in the same network: with a key of 32 bytes
  -- that is not the other's, a port, and a parser that reads what the writer wrote.
  pub validate_beacon-encode_beacon :
      (info : BeaconInfo) (raw : Bytes) (src : SocketAddr) (own_pk : Bytes)
      → IsLossless b64
      → json.from_slice raw ≡ some (beacon_of b64 json info)
      → encode_beacon b64 json info ≡ some raw
      → is_lan_addr src.ip ≡ true
      → length info.public_key ≡ 32
      → info.public_key ≢ own_pk
      → info.port ≢ 0
      → validate_beacon b64 json blake2s raw src own_pk
        ≡ some (record {
          device_id = device_id blake2s info.public_key;
          public_key = info.public_key;
          name = clamp_str (clamp_str info.name 32) 32;
          platform = clamp_str info.platform 16;
          addr = record { ip = src.ip; port = info.port };
        })
  unfolding validate_beacon encode_beacon check_beacon
  validate_beacon-encode_beacon info raw src own_pk lossless parsed h lan k foreign port =
      elim (Option-cases (json.to_writer (beacon_of b64 json info))) [
        | inl e ↦ ground arith
        | inr (w, e) ↦ ground (
          arith,
          lossless info.public_key,
          list_beq_iff nat_eq info.public_key own_pk,
          beq_refl beacon_magic,
        )
      ]
