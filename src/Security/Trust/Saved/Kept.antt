-- ===== src/Security/Trust/Saved/Kept.antt =====
-- Every operation leaves a trust store that `save` and `load` take over as it is.
use antarloka.Prelude.{
  ℕ, ◌≡◌, refl, Bool, true, [], ◌∷◌, nat_eq, list_eq, arith, is_some, ok, inl, inr, subst, List,
  Bool-cases, Option-cases, Result-cases,
}
use antarloka.Prelude.Map.{Map, insert_sorted, remove, adjust}
use antarloka.Text.{Str, Bytes}
use antarloka.Security.Base64.{Base64}
use antarloka.Security.Trust.{
  TrustStore, TrustedDevice, str_lt, key_bytes, fresh, add, remove_key, set_blocked,
  set_auto_accept, touch, renew, seen, new_device,
}
use antarloka.Security.Trust.Valid.{IsLossless, add-Added}
use antarloka.Security.Trust.Order.{insert_sorted-IsSorted, remove-IsSorted, adjust-IsSorted}
use antarloka.Fs.{FilePath, Disk}
use antarloka.Proto.Codec.{Json}
use antarloka.Security.Keystore.{Identity, Vault, read_file, absent, unreadable}
use antarloka.Security.Trust.Saved.{
  Envelope, Contents, collect, open_envelope, load_store, store_key, store_aad,
}
use antarloka.Security.Trust.Saved.Restored.{IsStorable, IsKept}

-- A change of an entry that leaves its key.
abbrev KeepsKey : (TrustedDevice → TrustedDevice) → Type 0
KeepsKey f = (d : TrustedDevice) → (f d).public_key ≡ d.public_key

module _ (b64 : Base64) where
  remove-IsStorable :
      (k : Str) (m : Map Str TrustedDevice) → IsStorable b64 m → IsStorable b64 (remove k m)
  unfolding remove
  remove-IsStorable k [] o = tt
  remove-IsStorable k ((j, e) ∷ m) (own, good, o) =
      ground (arith, remove-IsStorable k m o, own, good)

  adjust-IsStorable :
      (f : TrustedDevice → TrustedDevice) (k : Str) (m : Map Str TrustedDevice)
      → KeepsKey f
      → IsStorable b64 m
      → IsStorable b64 (adjust f k m)
  unfolding adjust key_bytes
  adjust-IsStorable f k [] keeps o = tt
  adjust-IsStorable f k ((j, e) ∷ m) keeps (own, good, o) =
      ground (arith, adjust-IsStorable f k m keeps o, own, good, keeps e)

  insert_sorted-IsStorable :
      (k : Str) (d : TrustedDevice) (m : Map Str TrustedDevice)
      → d.public_key ≡ k
      → is_some (key_bytes b64 d) ≡ true
      → IsStorable b64 m
      → IsStorable b64 (insert_sorted str_lt k d m)
  unfolding insert_sorted
  insert_sorted-IsStorable k d [] own good o = (own, good, tt)
  insert_sorted-IsStorable k d ((j, e) ∷ m) own good (own_e, good_e, o) =
      ground (arith, insert_sorted-IsStorable k d m own good o, own, good, own_e, good_e, o)

  adjust-IsKept :
      (f : TrustedDevice → TrustedDevice) (k : Str) (s : TrustStore)
      → KeepsKey f
      → IsKept b64 s
      → IsKept b64 (record { devices = adjust f k s.devices })
  adjust-IsKept f k s keeps h = record {
    sorted = adjust-IsSorted f k s.devices h.sorted;
    storable = adjust-IsStorable f k s.devices keeps h.storable;
  }

  -- The changes that a trust store goes through.
  pub data Changed : TrustStore → TrustStore → Type 0 where
    added :
        (s t : TrustStore) (key : Bytes) (name : Str) (now : ℕ)
        → add b64 s key name now ≡ ok t
        → Changed s t
    removed : (s : TrustStore) (key : Bytes) → Changed s (remove_key b64 s key).0
    blocked : (s : TrustStore) (key : Bytes) (b : Bool) → Changed s (set_blocked b64 s key b)
    accepting :
        (s : TrustStore) (key : Bytes) (on : Bool) → Changed s (set_auto_accept b64 s key on)
    touched :
        (s : TrustStore) (key : Bytes) (name : Str) (now : ℕ) → Changed s (touch b64 s key name now)

  module _ (lossless : IsLossless b64) where
    add-IsKept :
        (s t : TrustStore) (key : Bytes) (name : Str) (now : ℕ)
        → add b64 s key name now ≡ ok t
        → IsKept b64 s
        → IsKept b64 t
    unfolding renew key_bytes
    add-IsKept s t key name now e h =
        let (size, how) = add-Added b64 lossless s t key name now e in
        elim how [
          | inl (_, same) ↦
              rw same (adjust-IsKept (renew name now) (b64.to_text key) s (λ d. refl) h)
          | inr (_, _, same) ↦ record {
            sorted = rw same (
                insert_sorted-IsSorted (b64.to_text key) (new_device (b64.to_text key) name now)
                  s.devices h.sorted);
            storable = rw same (
                insert_sorted-IsStorable (b64.to_text key) (new_device (b64.to_text key) name now)
                  s.devices refl (ground (arith, lossless key, size)) h.storable);
          }
        ]

    pub Changed-IsKept : {s t : TrustStore} → Changed s t → IsKept b64 s → IsKept b64 t
    unfolding remove_key set_blocked set_auto_accept touch seen
    Changed-IsKept (added s t key name now e) h = add-IsKept s t key name now e h
    Changed-IsKept (removed s key) h = record {
      sorted = remove-IsSorted (b64.to_text key) s.devices h.sorted;
      storable = remove-IsStorable (b64.to_text key) s.devices h.storable;
    }
    Changed-IsKept (blocked s key b) h = adjust-IsKept _ (b64.to_text key) s (λ d. refl) h
    Changed-IsKept (accepting s key on) h = adjust-IsKept _ (b64.to_text key) s (λ d. refl) h
    Changed-IsKept (touched s key name now) h =
        adjust-IsKept (seen now name) (b64.to_text key) s (λ d. ground arith) h

collect-IsKept :
    (b64 : Base64) (ds : List TrustedDevice) (m : Map Str TrustedDevice)
    → IsKept b64 (record { devices = m })
    → IsKept b64 (record { devices = collect b64 ds m })
unfolding collect
collect-IsKept b64 [] m h = h
collect-IsKept b64 (d ∷ ds) m h = elim (Bool-cases (is_some (key_bytes b64 d))) [
  | inl good ↦ rw good (
      collect-IsKept b64 ds (insert_sorted str_lt d.public_key d m) (record {
        sorted = insert_sorted-IsSorted d.public_key d m h.sorted;
        storable = insert_sorted-IsStorable b64 d.public_key d m refl good h.storable;
      }))
  | inr bad ↦ rw bad (collect-IsKept b64 ds m h)
]

pub fresh-IsKept : (b64 : Base64) → IsKept b64 fresh
fresh-IsKept b64 = record { sorted = tt; storable = tt }

-- What `load` makes comes out of its loop over the entries.
opened_devices :
    (blake2s : Bytes → Bytes) (b64 : Base64) (vault : Vault) (envelopes : Json Envelope)
    (bodies : Json Contents) (me : Identity) (raw : Bytes) (s : TrustStore)
    → open_envelope blake2s b64 vault envelopes bodies me raw ≡ ok s
    → (ds : List TrustedDevice) × (record { devices = collect b64 ds [] } ≡ s)
unfolding open_envelope
opened_devices blake2s b64 vault envelopes bodies me raw s h =
    elim (Option-cases (envelopes.from_slice raw)) [
      | inl e ↦ ground (arith, e)
      | inr (env, e) ↦ elim (Option-cases (b64.from_text env.nonce)) [
        | inl f ↦ ground (arith, e, f)
        | inr (nonce, f) ↦ elim (Option-cases (b64.from_text env.ct)) [
          | inl g ↦ ground (arith, e, f, g)
          | inr (ct, g) ↦
              elim (Option-cases (vault.decrypt (store_key blake2s me) nonce (store_aad me) ct)) [
                | inl k ↦ ground (arith, e, f, g, k)
                | inr (pt, k) ↦ elim (Option-cases (bodies.from_slice pt)) [
                  | inl l ↦ ground (arith, e, f, g, k, l)
                  | inr (c, l) ↦ (c.devices, ground (arith, e, f, g, k, l))
                ]
              ]
        ]
      ]
    ]

open_envelope-IsKept :
    (blake2s : Bytes → Bytes) (b64 : Base64) (vault : Vault) (envelopes : Json Envelope)
    (bodies : Json Contents) (me : Identity) (raw : Bytes) (s : TrustStore)
    → open_envelope blake2s b64 vault envelopes bodies me raw ≡ ok s
    → IsKept b64 s
unfolding open_envelope
open_envelope-IsKept blake2s b64 vault envelopes bodies me raw s h =
    let (ds, same) = opened_devices blake2s b64 vault envelopes bodies me raw s h in
    subst (IsKept b64) same (collect-IsKept b64 ds [] (fresh-IsKept b64))

-- Whatever a file holds, the store that is loaded from it has its entries in order, each under
-- its own key of 32 bytes.
pub load_store-IsKept :
    (blake2s : Bytes → Bytes) (b64 : Base64) (vault : Vault) (envelopes : Json Envelope)
    (bodies : Json Contents) (readable : Bool) (path : FilePath) (me : Identity) (disk : Disk)
    (s : TrustStore)
    → load_store blake2s b64 vault envelopes bodies readable path me disk ≡ ok s
    → IsKept b64 s
unfolding load_store open_envelope
load_store-IsKept blake2s b64 vault envelopes bodies readable path me disk s h =
    elim (Result-cases (read_file readable path disk)) [
      | inr (absent, e) ↦ subst (IsKept b64) (ground (arith, e)) (fresh-IsKept b64)
      | inr (unreadable, e) ↦ ground (arith, e)
      | inl (raw, e) ↦
          open_envelope-IsKept blake2s b64 vault envelopes bodies me raw s (ground (arith, e))
    ]
