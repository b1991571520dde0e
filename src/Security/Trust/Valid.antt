-- ===== src/Security/Trust/Valid.antt =====
-- The invariant of the trust store: each entry under its own key, and no more than 256 of them.
use antarloka.Prelude.{
  ℕ, ◌≤◌, ◌≡◌, refl, Bool, true, false, some, arith, nat_eq, list_eq, list_beq_iff, ok, length, inl,
  inr, ◌⊎◌, ◌<◌, Option-cases, Bool-cases,
}
use antarloka.Prelude.Map.{
  lookup, insert_sorted, contains, lookup-insert_sorted, lookup-remove, lookup-adjust, Map, remove,
  adjust, length-adjust, length-insert_sorted-le, length-remove-le,
}
use antarloka.Text.{Str, Bytes}
use antarloka.Security.Fingerprint.{keys_equal_iff}
use antarloka.Security.Trust.{
  TrustStore, TrustedDevice, max_trusted_devices, str_lt, key_bytes, get, renew, new_device, add,
  remove_key, set_blocked, set_auto_accept, touch, seen,
}
use antarloka.Security.Base64.{Base64}

-- Decoding undoes encoding.
abbrev pub IsLossless : Base64 → Type 0
IsLossless b64 = (b : Bytes) → b64.from_text (b64.to_text b) ≡ some b

-- Each entry is filed under its own key, and there are no more than 256.
pub record IsValid (s : TrustStore) : Type 0 where
  pub filed : (k : Str) (d : TrustedDevice) → lookup k s.devices ≡ some d → d.public_key ≡ k
  pub bounded : length s.devices ≤ max_trusted_devices

abbrev IsFiled : Map Str TrustedDevice → Type 0
IsFiled m = (k : Str) (d : TrustedDevice) → lookup k m ≡ some d → d.public_key ≡ k

adjust-IsFiled :
    (f : TrustedDevice → TrustedDevice) (key : Str) (m : Map Str TrustedDevice)
    → ((d : TrustedDevice) → (f d).public_key ≡ d.public_key)
    → IsFiled m
    → IsFiled (adjust f key m)
adjust-IsFiled f key m same filed k d e = elim (Option-cases (lookup k m)) [
  | inl absent ↦ ground (arith, lookup-adjust f key k m)
  | inr (d', present) ↦ ground (arith, lookup-adjust f key k m, same d', filed k d' present)
]

insert-IsFiled :
    (key name : Str) (now : ℕ) (m : Map Str TrustedDevice)
    → IsFiled m
    → IsFiled (insert_sorted str_lt key (new_device key name now) m)
insert-IsFiled key name now m filed k d e = ground (
  arith,
  lookup-insert_sorted str_lt key k (new_device key name now) m,
  list_beq_iff nat_eq key k,
  filed k d,
)

remove-IsFiled : (key : Str) (m : Map Str TrustedDevice) → IsFiled m → IsFiled (remove key m)
remove-IsFiled key m filed k d e = ground (arith, lookup-remove key k m, filed k d)

module _ (b64 : Base64) (lossless : IsLossless b64) where
  pub to_text-injective : (a b : Bytes) → b64.to_text a ≡ b64.to_text b → a ≡ b
  to_text-injective a b e = ground (arith, lossless a, lossless b)

  -- In a valid store `get` is a lookup.
  pub get-eq-lookup :
      (s : TrustStore) (key : Bytes)
      → IsValid s
      → length key ≡ 32
      → get b64 s key ≡ lookup (b64.to_text key) s.devices
  unfolding get key_bytes
  get-eq-lookup s key v h = elim (Option-cases (lookup (b64.to_text key) s.devices)) [
    | inl e ↦ ground arith
    | inr (d, e) ↦
        ground (arith, v.filed (b64.to_text key) d e, lossless key, keys_equal_iff key key)
  ]

  -- The two ways in which `add` succeeds.
  abbrev pub Added : TrustStore → Bytes → Str → ℕ → TrustStore → Type 0
  Added s key name now t =
      ((contains (b64.to_text key) s.devices ≡ true)
        × (t.devices ≡ adjust (renew name now) (b64.to_text key) s.devices))
      ⊎ ((contains (b64.to_text key) s.devices ≡ false)
          × (length s.devices < max_trusted_devices)
          × (t.devices
              ≡ insert_sorted str_lt (b64.to_text key) (new_device (b64.to_text key) name now)
                  s.devices))

  pub add-Added :
      (s t : TrustStore) (key : Bytes) (name : Str) (now : ℕ)
      → add b64 s key name now ≡ ok t
      → (length key ≡ 32) × Added s key name now t
  unfolding add
  add-Added s t key name now h = elim (Bool-cases (contains (b64.to_text key) s.devices)) [
    | inl old ↦ (ground arith, inl (old, ground arith))
    | inr new ↦ (ground arith, inr (new, ground arith, ground arith))
  ]

  pub add-IsValid :
      (s t : TrustStore) (key : Bytes) (name : Str) (now : ℕ)
      → IsValid s
      → add b64 s key name now ≡ ok t
      → IsValid t
  unfolding renew
  add-IsValid s t key name now v h = elim ((add-Added s t key name now h).1) [
    | inl (old, e) ↦ record {
      filed =
          rw e (adjust-IsFiled (renew name now) (b64.to_text key) s.devices (λ d. refl) v.filed);
      bounded =
          rw e
            (omega (arith, length-adjust (renew name now) (b64.to_text key) s.devices, v.bounded));
    }
    | inr (new, room, e) ↦ record {
      filed = rw e (insert-IsFiled (b64.to_text key) name now s.devices v.filed);
      bounded = rw e (
          omega (
            arith,
            length-insert_sorted-le str_lt (b64.to_text key) (new_device (b64.to_text key) name now)
                s.devices,
          ));
    }
  ]

  pub remove_key-IsValid :
      (s : TrustStore) (key : Bytes) → IsValid s → IsValid (remove_key b64 s key).0
  unfolding remove_key
  remove_key-IsValid s key v = record {
    filed = remove-IsFiled (b64.to_text key) s.devices v.filed;
    bounded = omega (arith, length-remove-le (b64.to_text key) s.devices, v.bounded);
  }

  adjusted-IsValid :
      (f : TrustedDevice → TrustedDevice) (s : TrustStore) (key : Str)
      → ((d : TrustedDevice) → (f d).public_key ≡ d.public_key)
      → IsValid s
      → IsValid (record { devices = adjust f key s.devices })
  adjusted-IsValid f s key same v = record {
    filed = adjust-IsFiled f key s.devices same v.filed;
    bounded = omega (arith, length-adjust f key s.devices, v.bounded);
  }

  pub set_auto_accept-IsValid :
      (s : TrustStore) (key : Bytes) (on : Bool)
      → IsValid s
      → IsValid (set_auto_accept b64 s key on)
  unfolding set_auto_accept
  set_auto_accept-IsValid s key on v = adjusted-IsValid _ s (b64.to_text key) (λ d. refl) v

  pub set_blocked-IsValid :
      (s : TrustStore) (key : Bytes) (b : Bool) → IsValid s → IsValid (set_blocked b64 s key b)
  unfolding set_blocked
  set_blocked-IsValid s key b v = adjusted-IsValid _ s (b64.to_text key) (λ d. refl) v

  pub touch-IsValid :
      (s : TrustStore) (key : Bytes) (name : Str) (now : ℕ)
      → IsValid s
      → IsValid (touch b64 s key name now)
  unfolding touch seen
  touch-IsValid s key name now v =
      adjusted-IsValid (seen now name) s (b64.to_text key) (λ d. ground arith) v
