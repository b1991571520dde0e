-- ===== src/Security/Trust/Saved.antt =====
-- desktop/src/security/trust.rs: the trust store on disk, encrypted under a key of this node.
pub mod Restored
pub mod Kept
use antarloka.Prelude.{
  ℕ, Bool, true, false, List, [], ◌∷◌, ◌++◌, Option, none, some, ◌==◌, nat_eq, list_eq,
  if◌then◌else◌, is_some, Result, ok, err, ◌>>=◌, ◌>>◌, ensure, ok_or, length,
}
use antarloka.Prelude.Map.{Map, insert_sorted}
use antarloka.Text.{Str, Bytes, codes}
use antarloka.Fs.{FilePath, Disk}
use antarloka.Proto.Codec.{Json}
use antarloka.Security.Base64.{Base64}
use antarloka.Security.PrivateFile.{WriteSteps, write_private_file}
use antarloka.Security.Keystore.{
  Identity, Vault, derive_subkey, read_file, ReadError, absent, unreadable, KeystoreError,
}
use antarloka.Security.Trust.{
  TrustStore, TrustedDevice, TrustError, tampered, keystore, fresh, key_bytes, str_lt,
}

unfoldable pub subkey_domain : Bytes
subkey_domain = codes "trust-store"

unfoldable pub aad_prefix : Bytes
aad_prefix = codes "SyncMob/1 trust-store"

abbrev pub envelope_version : ℕ
envelope_version = 1

pub record Envelope : Type 0 where
  pub version : ℕ
  pub nonce : Str
  pub ct : Str

pub record Contents : Type 0 where
  pub devices : List TrustedDevice

-- `self.devices.values().cloned().collect()`
unfoldable pub values : Map Str TrustedDevice → List TrustedDevice
values [] = []
values ((k, d) ∷ m) = d ∷ values m

unfoldable pub list : TrustStore → List TrustedDevice
list s = values s.devices

-- The loop of `load`: what has no key of 32 bytes is dropped.
unfoldable pub collect : Base64 → List TrustedDevice → Map Str TrustedDevice → Map Str TrustedDevice
collect b64 [] devices = devices
collect b64 (d ∷ ds) devices =
    collect b64 ds
      (if is_some (key_bytes b64 d) then insert_sorted str_lt d.public_key d devices else devices)

-- The cipher's key and its associated data.
abbrev pub store_key : (Bytes → Bytes) → Identity → Bytes
store_key blake2s me = derive_subkey blake2s me subkey_domain

abbrev pub store_aad : Identity → Bytes
store_aad me = aad_prefix ++ me.public

module _ (blake2s : Bytes → Bytes) (b64 : Base64) (vault : Vault) (envelopes : Json Envelope)
    (bodies : Json Contents) where
  -- `load` once the file is read.
  unfoldable pub open_envelope : Identity → Bytes → Result TrustStore TrustError
  open_envelope me raw = do
    env ← ok_or (envelopes.from_slice raw) tampered
    ensure (env.version == envelope_version) tampered
    nonce ← ok_or (b64.from_text env.nonce) tampered
    ct ← ok_or (b64.from_text env.ct) tampered
    ensure (length nonce == 24) tampered
    pt ← ok_or (vault.decrypt (store_key blake2s me) nonce (store_aad me) ct) tampered
    contents ← ok_or (bodies.from_slice pt) tampered
    ok (record { devices = collect b64 contents.devices [] })

  unfoldable pub load_store : Bool → FilePath → Identity → Disk → Result TrustStore TrustError
  load_store readable path me disk = elim (read_file readable path disk) [
    | err absent ↦ ok fresh
    | err unreadable ↦ err TrustError.io
    | ok raw ↦ open_envelope me raw
  ]

  unfoldable pub seal_store : Bytes → TrustStore → Identity → Result Bytes TrustError
  seal_store nonce s me = do
    pt ← ok_or (bodies.to_writer (record { devices = list s })) tampered
    ct ← ok_or (vault.encrypt (store_key blake2s me) nonce (store_aad me) pt) tampered
    ok_or
        (envelopes.to_writer
          (record { version = envelope_version; nonce = b64.to_text nonce; ct = b64.to_text ct }))
        tampered

  -- `nonce` is what the random generator gives.
  unfoldable pub save_store :
      WriteSteps
      → Bytes
      → FilePath
      → TrustStore
      → Identity
      → Disk
      → Result (Unit {0}) TrustError × Disk
  save_store os nonce path s me disk = elim (seal_store nonce s me) [
    | err e ↦ (err e, disk)
    | ok bytes ↦
        let (written, after) = write_private_file os path bytes disk in
        (if written then ok tt else err (keystore KeystoreError.io), after)
  ]
