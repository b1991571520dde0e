-- ===== src/Security/Keystore.antt =====
-- desktop/src/security/keystore.rs: this node's key and how it is kept on disk. Argon2, the AEAD
-- cipher, BLAKE2s, base64, serde_json and the random numbers are parameters.
pub mod Kept
use antarloka.Prelude.{
  ℕ, Bool, true, false, not, ◌||◌, [], ◌∷◌, ◌++◌, ◌%◌, ◌&&◌, Option, none, some, ◌==◌, nat_eq,
  list_eq, if◌then◌else◌, is_some, Result, ok, err, ◌>>=◌, ◌>>◌, ensure, ok_or, length,
}
use antarloka.Prelude.Map.{lookup, insert, remove}
use antarloka.Text.{Str, Bytes, codes}
use antarloka.Fs.{FilePath, Disk, Entry, regular, directory}
use antarloka.Proto.Bytes.{to_be_bytes}
use antarloka.Proto.Codec.{Json}
use antarloka.Security.Fingerprint.{DeviceId, device_id, fingerprint}
use antarloka.Security.Base64.{Base64}
use antarloka.Security.PrivateFile.{WriteSteps, write_private_file}

abbrev pub format_version : ℕ
format_version = 1

unfoldable pub prot_argon : Str
prot_argon = codes "argon2id-xchacha20poly1305"

unfoldable pub prot_plain : Str
prot_plain = codes "plaintext"

pub data KeystoreError : Type 0 where
  not_found need_passphrase unexpected_passphrase wrong_passphrase io crypto : KeystoreError
  corrupt : Str → KeystoreError
  version : ℕ → KeystoreError

pub data Protection : Type 0 where
  passphrase unprotected : Protection

pub data KeystoreState : Type 0 where
  missing encrypted plaintext : KeystoreState

pub record StoredKey : Type 0 where
  pub version : ℕ
  pub protection : Str
  pub public : Str
  pub salt : Option Str
  pub nonce : Option Str
  pub secret : Str

pub record Identity : Type 0 where
  pub secret : Bytes
  pub public : Bytes
  pub protection : Protection

-- The crates argon2, at the cost that `derive_key` sets, and chacha20poly1305; each call may fail.
-- The arguments of the cipher are the key, the nonce, the associated data and the text.
pub record Vault : Type 0 where
  pub argon : Str → Bytes → Option Bytes
  pub encrypt : Bytes → Bytes → Bytes → Bytes → Option Bytes
  pub decrypt : Bytes → Bytes → Bytes → Bytes → Option Bytes

-- The random bytes that `save` draws.
pub record Drawn : Type 0 where
  pub salt : Bytes
  pub nonce : Bytes

-- `fs::read`, where `readable` says whether the system lets a file be read that is there.
pub data ReadError : Type 0 where
  absent unreadable : ReadError

unfoldable pub read_file : Bool → FilePath → Disk → Result Bytes ReadError
read_file readable path disk = elim (lookup path disk) [
  | none ↦ err absent
  | some directory ↦ err unreadable
  | some (regular bytes) ↦ if readable then ok bytes else err unreadable
]

-- `Identity::generate`, from snow's key pair, private key first.
unfoldable pub generate : Option (Bytes × Bytes) → Result Identity KeystoreError
generate pair = do
  (private_key, public_key) ← ok_or pair crypto
  ok (record { secret = private_key; public = public_key; protection = unprotected })

module _ (blake2s : Bytes → Bytes) where
  unfoldable pub own_device_id : Identity → DeviceId
  own_device_id me = device_id blake2s me.public

  unfoldable pub own_fingerprint : Identity → Str
  own_fingerprint me = fingerprint blake2s me.public

  unfoldable pub derive_subkey : Identity → Bytes → Bytes
  derive_subkey me domain = blake2s (
      codes "SyncMob/1 subkey"
      ++ (to_be_bytes 4 (length domain % 4_294_967_296) ++ (domain ++ me.secret)))

module _ (b64 : Base64) (vault : Vault) where
  open_plain : Option Str → Bytes → Result (Bytes × Protection) KeystoreError
  open_plain pass blob = if is_some pass then err unexpected_passphrase else ok (blob, unprotected)

  -- `B64.decode(field.as_deref().ok_or(Corrupt(part))?)`
  decoded : Option Str → Str → Result Bytes KeystoreError
  decoded field part = do
    coded ← ok_or field (corrupt part)
    ok_or (b64.from_text coded) (corrupt part)

  open_argon : Option Str → StoredKey → Bytes → Bytes → Result (Bytes × Protection) KeystoreError
  unfolding decoded
  open_argon none stored public_key blob = err need_passphrase
  open_argon (some pass) stored public_key blob = do
    salt ← decoded stored.salt (codes "salt")
    nonce ← decoded stored.nonce (codes "nonce")
    ensure (length salt == 16 && length nonce == 24) (corrupt (codes "salt/nonce length"))
    key ← ok_or (vault.argon pass salt) crypto
    plain ← ok_or (vault.decrypt key nonce public_key blob) wrong_passphrase
    ok (plain, passphrase)

  -- The arms of `match stored.protection`.
  unfoldable pub unlock :
      Option Str → StoredKey → Bytes → Bytes → Result (Bytes × Protection) KeystoreError
  unfolding open_plain open_argon
  unlock pass stored public_key blob =
      if stored.protection == prot_plain
      then open_plain pass blob
      else if stored.protection == prot_argon
      then open_argon pass stored public_key blob
      else err (corrupt (codes "protection"))

  -- `load` once the file is parsed.
  unfoldable pub open_stored : Option Str → StoredKey → Result Identity KeystoreError
  open_stored pass stored = do
    ensure (stored.version == format_version) (version stored.version)
    public_key ← ok_or (b64.from_text stored.public) (corrupt (codes "public"))
    ensure (length public_key == 32) (corrupt (codes "public length"))
    blob ← ok_or (b64.from_text stored.secret) (corrupt (codes "secret"))
    (secret, protection) ← unlock pass stored public_key blob
    ensure (length secret == 32) (corrupt (codes "secret length"))
    ok (record { secret = secret; public = public_key; protection = protection })

  seal_argon : Drawn → Identity → Str → Result StoredKey KeystoreError
  seal_argon drawn me pass = do
    key ← ok_or (vault.argon pass drawn.salt) crypto
    ct ← ok_or (vault.encrypt key drawn.nonce me.public me.secret) crypto
    ok (record {
      version = format_version;
      protection = prot_argon;
      public = b64.to_text me.public;
      salt = some (b64.to_text drawn.salt);
      nonce = some (b64.to_text drawn.nonce);
      secret = b64.to_text ct;
    })

  stored_plain : Identity → StoredKey
  stored_plain me = record {
    version = format_version;
    protection = prot_plain;
    public = b64.to_text me.public;
    salt = none;
    nonce = none;
    secret = b64.to_text me.secret;
  }

  -- What `save` is to write, and the identity with the protection it sets.
  unfoldable pub to_store :
      Drawn → Identity → Option Str → Result (StoredKey × Identity) KeystoreError
  unfolding seal_argon stored_plain
  to_store drawn me none = ok (stored_plain me, record me { protection = unprotected })
  to_store drawn me (some []) = ok (stored_plain me, record me { protection = unprotected })
  to_store drawn me (some (c ∷ cs)) = do
    stored ← seal_argon drawn me (c ∷ cs)
    ok (stored, record me { protection = passphrase })

module _ (b64 : Base64) (json : Json StoredKey) where
  -- `Identity::state`
  unfoldable pub state : Bool → FilePath → Disk → KeystoreState
  state readable path disk = elim (read_file readable path disk) [
    | err _ ↦ missing
    | ok raw ↦ elim (json.from_slice raw) [
      | none ↦ missing
      | some s ↦ if s.protection == prot_argon then encrypted else plaintext
    ]
  ]

module _ (b64 : Base64) (json : Json StoredKey) (vault : Vault) where
  unfoldable pub load : Bool → FilePath → Option Str → Disk → Result Identity KeystoreError
  load readable path pass disk = elim (read_file readable path disk) [
    | err absent ↦ err not_found
    | err unreadable ↦ err io
    | ok raw ↦ elim (json.from_slice raw) [
      | none ↦ err (corrupt (codes "json"))
      | some stored ↦ open_stored b64 vault pass stored
    ]
  ]

  unfoldable pub save :
      WriteSteps
      → Drawn
      → FilePath
      → Option Str
      → Identity
      → Disk
      → Result (Unit {0}) KeystoreError × Identity × Disk
  save os drawn path pass me disk = elim (to_store b64 vault drawn me pass) [
    | err e ↦ (err e, me, disk)
    | ok (stored, next) ↦ elim (json.to_writer stored) [
      | none ↦ (err crypto, next, disk)
      | some bytes ↦
          let (written, after) = write_private_file os path bytes disk in
          (if written then ok tt else err io, next, after)
    ]
  ]
