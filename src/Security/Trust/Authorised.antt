-- ===== src/Security/Trust/Authorised.antt =====
-- Who is authorised after each operation of the trust store.
use antarloka.Prelude.{
  ℕ, ◌≡◌, Bool, true, false, not, ◌&&◌, ◌||◌, Option, none, some, arith, ◌==◌, nat_eq, list_eq,
  list_beq_iff, if◌then◌else◌, is_some, ok, length, inl, inr, Option-cases,
}
use antarloka.Prelude.Map.{lookup, lookup-insert_sorted, lookup-remove, lookup-adjust}
use antarloka.Text.{Str, Bytes}
use antarloka.Security.Fingerprint.{keys_equal_iff}
use antarloka.Security.Trust.{
  TrustStore, TrustedDevice, str_lt, key_bytes, get, is_authorised, renew, new_device, add,
  remove_key, set_blocked, touch, seen,
}
use antarloka.Security.Base64.{Base64}
use antarloka.Security.Trust.Valid.{
  IsLossless, IsValid, to_text-injective, get-eq-lookup, add-Added, add-IsValid, remove_key-IsValid,
  set_blocked-IsValid, touch-IsValid,
}

-- Only a key of 32 bytes can be authorised, whatever the store holds.
pub is_authorised-length :
    (b64 : Base64) (s : TrustStore) (key : Bytes) → is_authorised b64 s key ≡ true → length key ≡ 32
unfolding is_authorised get key_bytes
is_authorised-length b64 s key h = elim (Option-cases (lookup (b64.to_text key) s.devices)) [
  | inl e ↦ ground arith
  | inr (d, e) ↦ elim (Option-cases (b64.from_text d.public_key)) [
    | inl f ↦ ground arith
    | inr (raw, f) ↦ ground (arith, keys_equal_iff raw key)
  ]
]

abbrev admits : Option TrustedDevice → Bool
admits none = false
admits (some d) = not d.blocked

module _ (b64 : Base64) (lossless : IsLossless b64) where
  authorised_by_lookup :
      (s : TrustStore) (key : Bytes)
      → IsValid s
      → length key ≡ 32
      → is_authorised b64 s key ≡ admits (lookup (b64.to_text key) s.devices)
  unfolding is_authorised
  authorised_by_lookup s key v h = ground (arith, get-eq-lookup b64 lossless s key v h)

  to_text_beq : (a b : Bytes) → (b64.to_text a == b64.to_text b) ≡ (a == b)
  to_text_beq a b = ground (
    arith,
    list_beq_iff nat_eq a b,
    list_beq_iff nat_eq (b64.to_text a) (b64.to_text b),
    to_text-injective b64 lossless a b,
  )

  -- On a valid store, with a base64 that decodes what it encodes, pairing that succeeds authorises
  -- the new key, and changes no other key of 32 bytes.
  pub is_authorised-add :
      (s t : TrustStore) (key other : Bytes) (name : Str) (now : ℕ)
      → IsValid s
      → add b64 s key name now ≡ ok t
      → length other ≡ 32
      → is_authorised b64 t other ≡ (key == other || is_authorised b64 s other)
  unfolding renew
  is_authorised-add s t key other name now v h size =
      let (_, added) = add-Added b64 lossless s t key name now h in
      let k : Str = b64.to_text key in
      let j : Str = b64.to_text other in
      elim added [
        | inl (old, e) ↦ ground (
          arith,
          authorised_by_lookup s other v size,
          authorised_by_lookup t other (add-IsValid b64 lossless s t key name now v h) size,
          to_text_beq key other,
          list_beq_iff nat_eq k j,
          lookup-adjust (renew name now) k j s.devices,
        )
        | inr (new, room, e) ↦ ground (
          arith,
          authorised_by_lookup s other v size,
          authorised_by_lookup t other (add-IsValid b64 lossless s t key name now v h) size,
          to_text_beq key other,
          lookup-insert_sorted str_lt k j (new_device k name now) s.devices,
        )
      ]

  -- On a valid store, with such a base64, forgetting a device withdraws its authorisation, and that
  -- of no other key of 32 bytes.
  pub is_authorised-remove_key :
      (s : TrustStore) (key other : Bytes)
      → IsValid s
      → length other ≡ 32
      → is_authorised b64 (remove_key b64 s key).0 other
        ≡ (not (key == other) && is_authorised b64 s other)
  unfolding remove_key
  is_authorised-remove_key s key other v size = ground (
    arith,
    authorised_by_lookup s other v size,
    authorised_by_lookup (remove_key b64 s key).0 other (remove_key-IsValid b64 lossless s key v)
        size,
    to_text_beq key other,
    lookup-remove (b64.to_text key) (b64.to_text other) s.devices,
  )

  -- On a valid store, with such a base64, a blocked device is not authorised, unblocking restores a
  -- device on record, and other keys of 32 bytes are untouched.
  pub is_authorised-set_blocked :
      (s : TrustStore) (key other : Bytes) (b : Bool)
      → IsValid s
      → length other ≡ 32
      → is_authorised b64 (set_blocked b64 s key b) other
        ≡ (if key == other then not b && is_some (get b64 s other) else is_authorised b64 s other)
  unfolding set_blocked
  is_authorised-set_blocked s key other b v size = ground (
    arith,
    authorised_by_lookup s other v size,
    get-eq-lookup b64 lossless s other v size,
    authorised_by_lookup (set_blocked b64 s key b) other
        (set_blocked-IsValid b64 lossless s key b v) size,
    to_text_beq key other,
    lookup-adjust (λ (d : TrustedDevice). record d { blocked = b }) (b64.to_text key)
        (b64.to_text other) s.devices,
  )

  -- On a valid store, with such a base64, what a connection refreshes in an entry changes the
  -- authorisation of no key of 32 bytes.
  pub is_authorised-touch :
      (s : TrustStore) (key other : Bytes) (name : Str) (now : ℕ)
      → IsValid s
      → length other ≡ 32
      → is_authorised b64 (touch b64 s key name now) other ≡ is_authorised b64 s other
  unfolding touch seen
  is_authorised-touch s key other name now v size = ground (
    arith,
    authorised_by_lookup s other v size,
    authorised_by_lookup (touch b64 s key name now) other
        (touch-IsValid b64 lossless s key name now v) size,
    lookup-adjust (seen now name) (b64.to_text key) (b64.to_text other) s.devices,
  )
