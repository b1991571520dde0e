-- ===== src/Security/Trust/Saved/Restored.antt =====
-- What `load` gives back of the store that `save` wrote.
use antarloka.Prelude.{
  ◌≡◌, refl, true, List, [], ◌∷◌, ◌++◌, nat_eq, list_eq, arith, if◌then◌else◌, is_some, ok, length,
  Option-cases, Result-cases, inl, inr, all, all-append, append_assoc, append-nil, ap, sym, ◌∙◌,
}
use antarloka.Prelude.Map.{Map, insert_sorted}
use antarloka.Text.{Str, Bytes}
use antarloka.Fs.{FilePath, Disk}
use antarloka.Proto.Codec.{Json}
use antarloka.Proto.RoundTrip.{Faithful}
use antarloka.Security.Base64.{Base64}
use antarloka.Security.PrivateFile.{WriteSteps, lookup-write_private_file_whole}
use antarloka.Security.Keystore.{Identity, Vault, read_file}
use antarloka.Security.Keystore.Kept.{IsCipher}
use antarloka.Security.Trust.{TrustStore, TrustedDevice, str_lt, key_bytes}
use antarloka.Security.Trust.Valid.{IsLossless}
use antarloka.Security.Trust.Order.{IsSorted, above, below, insert_sorted_last}
use antarloka.Security.Trust.Saved.{
  Envelope, Contents, values, list, collect, store_key, store_aad, open_envelope, load_store,
  seal_store, save_store,
}

-- Each entry is filed under its own key, which is one of 32 bytes.
abbrev pub IsStorable : Base64 → Map Str TrustedDevice → Type 0
IsStorable b64 [] = Unit {0}
IsStorable b64 ((k, d) ∷ m) =
    (d.public_key ≡ k) × (is_some (key_bytes b64 d) ≡ true) × IsStorable b64 m

-- What holds of every trust store that the program makes.
pub record IsKept (b64 : Base64) (s : TrustStore) : Type 0 where
  pub sorted : IsSorted s.devices
  pub storable : IsStorable b64 s.devices

abbrev AllBelow : Map Str TrustedDevice → Map Str TrustedDevice → Type 0
AllBelow front [] = Unit {0}
AllBelow front ((k, d) ∷ m) = (below front k ≡ true) × AllBelow front m

AllBelow-append :
    (k : Str) (d : TrustedDevice) (front m : Map Str TrustedDevice)
    → AllBelow front m
    → above k m ≡ true
    → AllBelow (front ++ (k, d) ∷ []) m
unfolding all
AllBelow-append k d front [] b a = tt
AllBelow-append k d front ((j, e) ∷ m) (b, bs) a = (
  all-append (λ x. str_lt x.0 j) front ((k, d) ∷ []) b (ground (arith, a)),
  AllBelow-append k d front m bs (ground (arith, a)),
)

AllBelow-nil : (m : Map Str TrustedDevice) → AllBelow [] m
unfolding all
AllBelow-nil [] = tt
AllBelow-nil ((k, d) ∷ m) = (refl, AllBelow-nil m)

collect_good :
    (b64 : Base64) (d : TrustedDevice) (ds : List TrustedDevice) (front : Map Str TrustedDevice)
    → is_some (key_bytes b64 d) ≡ true
    → collect b64 (d ∷ ds) front ≡ collect b64 ds (insert_sorted str_lt d.public_key d front)
unfolding collect
collect_good b64 d ds front good =
    ap (λ t. collect b64 ds (if t then insert_sorted str_lt d.public_key d front else front)) good

collect-values :
    (b64 : Base64) (front m : Map Str TrustedDevice)
    → IsSorted m
    → IsStorable b64 m
    → AllBelow front m
    → collect b64 (values m) front ≡ front ++ m
unfolding collect values
collect-values b64 front [] s o b = sym (append-nil front)
collect-values b64 front ((k, d) ∷ m) (a, s) (own, good, o) (b, bs) =
    collect_good b64 d (values m) front good
    ∙ ap (λ j. collect b64 (values m) (insert_sorted str_lt j d front)) own
    ∙ ap (collect b64 (values m)) (insert_sorted_last k d front b)
    ∙ collect-values b64 (front ++ (k, d) ∷ []) m s o (AllBelow-append k d front m bs a)
    ∙ append_assoc front ((k, d) ∷ []) m

module _ (blake2s : Bytes → Bytes) (b64 : Base64) (vault : Vault) (envelopes : Json Envelope)
    (bodies : Json Contents) (lossless : IsLossless b64) (cipher : IsCipher vault)
    (reads_envelopes : Faithful envelopes) (reads_bodies : Faithful bodies) where
  open_envelope-seal_store :
      (nonce raw : Bytes) (s : TrustStore) (me : Identity)
      → IsKept b64 s
      → length nonce ≡ 24
      → seal_store blake2s b64 vault envelopes bodies nonce s me ≡ ok raw
      → open_envelope blake2s b64 vault envelopes bodies me raw ≡ ok s
  unfolding seal_store open_envelope list
  open_envelope-seal_store nonce raw s me k n h =
      let key : Bytes = store_key blake2s me in
      let aad : Bytes = store_aad me in
      let contents : Contents = record { devices = list s } in
      elim (Option-cases (bodies.to_writer contents)) [
        | inl e ↦ ground (arith, e)
        | inr (pt, e) ↦ elim (Option-cases (vault.encrypt key nonce aad pt)) [
          | inl f ↦ ground (arith, e, f)
          | inr (ct, f) ↦
              let env : Envelope = record {
                version = 1;
                nonce = b64.to_text nonce;
                ct = b64.to_text ct;
              } in
              let whole : collect b64 (values s.devices) [] ≡ s.devices =
                collect-values b64 [] s.devices k.sorted k.storable (AllBelow-nil s.devices) in
              ground (
                arith,
                e,
                f,
                reads_envelopes env raw,
                lossless nonce,
                lossless ct,
                cipher key nonce aad pt ct f,
                reads_bodies contents pt e,
                whole,
              )
        ]
      ]

  -- The trust store that was saved is the one that is loaded, by the same identity.
  pub load_store-save_store :
      (os : WriteSteps) (nonce : Bytes) (path : FilePath) (s : TrustStore) (me : Identity)
      (disk after : Disk)
      → IsKept b64 s
      → length nonce ≡ 24
      → save_store blake2s b64 vault envelopes bodies os nonce path s me disk ≡ (ok tt, after)
      → load_store blake2s b64 vault envelopes bodies true path me after ≡ ok s
  unfolding save_store load_store read_file
  load_store-save_store os nonce path s me disk after k n h =
      elim (Result-cases (seal_store blake2s b64 vault envelopes bodies nonce s me)) [
        | inr (_, e) ↦ ground (arith, e)
        | inl (raw, e) ↦ ground (
          arith,
          e,
          lookup-write_private_file_whole os path raw disk,
          open_envelope-seal_store nonce raw s me k n e,
        )
      ]
