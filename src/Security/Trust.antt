-- ===== src/Security/Trust.antt =====
-- desktop/src/security/trust.rs: the devices that this node is paired with. Base64 and the clock
-- are parameters; `BTreeMap` is a list in the order of the keys.
pub mod Valid
pub mod Authorised
pub mod Order
pub mod Saved
use antarloka.Prelude.{
  ℕ, zero, suc, ◌+◌, ◌≤◌, ◌<◌, ◌≡◌, refl, Bool, true, false, not, ◌&&◌, ◌||◌, List, [], ◌∷◌, map,
  Option, none, some, ltb, leb, ◌==◌, nat_eq, list_eq, if◌then◌else◌, is_some, Result, ok, err,
  ◌>>=◌, ◌>>◌, ensure, length,
}
use antarloka.Prelude.Map.{Map, lookup, remove, adjust, insert_sorted, contains}
use antarloka.Text.{Str, Bytes}
use antarloka.Util.Clamp.{clamp_str}
use antarloka.Security.Fingerprint.{DeviceId, device_id, keys_equal}
use antarloka.Security.Base64.{Base64}
use antarloka.Security.Keystore.{KeystoreError}

abbrev pub max_trusted_devices : ℕ
max_trusted_devices = 256

pub data TrustError : Type 0 where
  tampered full bad_key io : TrustError
  keystore : KeystoreError → TrustError

pub record TrustedDevice : Type 0 where
  pub public_key : Str
  pub name : Str
  pub added_at_ms : ℕ
  pub last_seen_ms : ℕ
  pub auto_accept_files : Bool
  pub blocked : Bool

pub record TrustStore : Type 0 where
  pub devices : Map Str TrustedDevice

abbrev pub fresh : TrustStore
fresh = record { devices = [] }

-- The order of `String`.
unfoldable pub str_lt : Str → Str → Bool
str_lt s [] = false
str_lt [] (d ∷ t) = true
str_lt (c ∷ s) (d ∷ t) = ltb c d || (c == d && str_lt s t)

abbrev pub bind_option {ℓ κ} : {A : Type ℓ} {B : Type κ} → Option A → (A → Option B) → Option B
bind_option none f = none
bind_option (some a) f = f a

abbrev pub when {ℓ} : {A : Type ℓ} → Bool → A → Option A
when true a = some a
when false a = none

-- What pairing again does to an entry, and what a connection does.
unfoldable pub renew : Str → ℕ → TrustedDevice → TrustedDevice
renew name now d = record d { name = clamp_str name 64; last_seen_ms = now; blocked = false }

unfoldable pub seen : ℕ → Str → TrustedDevice → TrustedDevice
seen now name d =
    if name == []
    then record d { last_seen_ms = now }
    else record d { last_seen_ms = now; name = clamp_str name 64 }

abbrev pub new_device : Str → Str → ℕ → TrustedDevice
new_device key name now = record {
  public_key = key;
  name = clamp_str name 64;
  added_at_ms = now;
  last_seen_ms = now;
  auto_accept_files = false;
  blocked = false;
}

module _ (b64 : Base64) where
  unfoldable pub key_bytes : TrustedDevice → Option Bytes
  key_bytes d = bind_option (b64.from_text d.public_key) (λ raw. when (length raw == 32) raw)

  unfoldable pub get : TrustStore → Bytes → Option TrustedDevice
  get s public_key =
      bind_option (lookup (b64.to_text public_key) s.devices)
        λ d. bind_option (key_bytes d) (λ stored. when (keys_equal stored public_key) d)

  unfoldable pub is_authorised : TrustStore → Bytes → Bool
  is_authorised s public_key = elim (get s public_key) [ none ↦ false | some d ↦ not d.blocked ]

  -- `self.devices.values().find(|d| d.device_id() == Some(id))`
  unfoldable pub find_device :
      (Bytes → Bytes) → DeviceId → Map Str TrustedDevice → Option TrustedDevice
  find_device blake2s id [] = none
  find_device blake2s id ((_, d) ∷ ds) = elim (key_bytes d) [
    | none ↦ find_device blake2s id ds
    | some k ↦ if device_id blake2s k == id then some d else find_device blake2s id ds
  ]

  unfoldable pub by_device_id : (Bytes → Bytes) → TrustStore → DeviceId → Option TrustedDevice
  by_device_id blake2s s id = find_device blake2s id s.devices

  unfoldable pub add : TrustStore → Bytes → Str → ℕ → Result TrustStore TrustError
  add s public_key name now = do
    ensure (length public_key == 32) bad_key
    let key = b64.to_text public_key
    if contains key s.devices
        then ok (record { devices = adjust (renew name now) key s.devices })
        else if leb max_trusted_devices (length s.devices)
        then err full
        else ok (record { devices = insert_sorted str_lt key (new_device key name now) s.devices })

  unfoldable pub remove_key : TrustStore → Bytes → TrustStore × Bool
  remove_key s public_key =
      let key = b64.to_text public_key in
      (record { devices = remove key s.devices }, contains key s.devices)

  unfoldable pub set_auto_accept : TrustStore → Bytes → Bool → TrustStore
  set_auto_accept s public_key on = record {
    devices = adjust (λ d. record d { auto_accept_files = on }) (b64.to_text public_key) s.devices;
  }

  unfoldable pub set_blocked : TrustStore → Bytes → Bool → TrustStore
  set_blocked s public_key b = record {
    devices = adjust (λ d. record d { blocked = b }) (b64.to_text public_key) s.devices;
  }

  unfoldable pub touch : TrustStore → Bytes → Str → ℕ → TrustStore
  touch s public_key name now = record {
    devices = adjust (seen now name) (b64.to_text public_key) s.devices;
  }
