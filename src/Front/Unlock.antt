-- ===== src/Front/Unlock.antt =====
-- desktop/src/app.rs: `create_identity` and `open_identity`, which bring the files of a profile
-- together. The messages of the errors are left out.
pub mod Reopened
use antarloka.Prelude.{
  ℕ, Bool, true, not, [], Option, none, some, ◌==◌, nat_eq, list_eq, if◌then◌else◌, is_some, Result,
  ok, err, ltb, length,
}
use antarloka.Text.{Str, Bytes, codes, trim}
use antarloka.Fs.{FilePath, Disk}
use antarloka.Util.Clamp.{clamp_str}
use antarloka.Proto.Codec.{Json}
use antarloka.Engine.State.{Config}
use antarloka.Security.Base64.{Base64}
use antarloka.Security.PrivateFile.{WriteSteps}
use antarloka.Security.Keystore.{
  StoredKey, Identity, KeystoreError, Vault, Drawn, generate, load, save,
}
use antarloka.Security.Trust.{TrustStore, TrustError, fresh}
use antarloka.Security.Trust.Saved.{Envelope, Contents, load_store, save_store}
use antarloka.Config.{
  Surroundings, load_config, save_config, identity_path, trust_path, config_path,
}

-- The crates that the profile's files are written with.
pub record Crates : Type 0 where
  pub blake2s : Bytes → Bytes
  pub b64 : Base64
  pub vault : Vault
  pub keys : Json StoredKey
  pub envelopes : Json Envelope
  pub bodies : Json Contents
  pub configs : Json Config

-- What the system answers while a device is made: snow's key pair, the random bytes, the three
-- writes, and whether the network starts.
pub record Creation : Type 0 where
  pub pair : Option (Bytes × Bytes)
  pub drawn : Drawn
  pub nonce : Bytes
  pub key_steps : WriteSteps
  pub config_steps : WriteSteps
  pub trust_steps : WriteSteps
  pub started : Bool

pub data UnlockError : Type 0 where
  key key_not_saved : KeystoreError → UnlockError
  trust : TrustError → UnlockError
  network : UnlockError

-- What `Running::start` is given.
pub record OpenedProfile : Type 0 where
  pub identity : Identity
  pub config : Config
  pub trust : TrustStore
  pub unprotected_key : Bool

unfoldable pub start_running : Bool → OpenedProfile → Result OpenedProfile UnlockError
start_running started o = if started then ok o else err network

unfoldable pub chosen_name : Str → Str
chosen_name typed =
    let name = clamp_str (trim typed) 32 in if name == [] then codes "SyncMob PC" else name

-- The two checks of the passphrase in `unlock_ui`, and what is then passed on.
unfoldable pub chosen_passphrase : Bool → Str → Str → Option (Option Str)
chosen_passphrase no_passphrase pass confirm =
    if no_passphrase
    then some none
    else if ltb (length pass) 8
    then none
    else if not (pass == confirm)
    then none
    else some (some pass)

module _ (cr : Crates) (sys : Surroundings) (root : FilePath) where
  -- `create_identity` once the key is saved.
  unfoldable pub set_up :
      Creation → Str → Option Str → Identity → Disk → Result OpenedProfile UnlockError × Disk
  set_up os typed pass me disk =
      let cfg : Config = record (load_config cr.configs sys true (config_path root) disk) {
        device_name = chosen_name typed;
      } in
      let (_, disk1) = save_config cr.configs os.config_steps (config_path root) cfg disk in
      let (saved, disk2) =
        save_store cr.blake2s cr.b64 cr.vault cr.envelopes cr.bodies os.trust_steps os.nonce
          (trust_path root) fresh me disk1 in
      elim saved [
        | err e ↦ (err (trust e), disk2)
        | ok _ ↦ (
          start_running os.started (record {
            identity = me;
            config = cfg;
            trust = fresh;
            unprotected_key = not (is_some pass);
          }),
          disk2,
        )
      ]

  unfoldable pub create_identity :
      Creation → Str → Option Str → Disk → Result OpenedProfile UnlockError × Disk
  create_identity os typed pass disk = elim (generate os.pair) [
    | err e ↦ (err (key e), disk)
    | ok me ↦
        let (saved, next, disk1) =
          save cr.b64 cr.keys cr.vault os.key_steps os.drawn (identity_path root) pass me disk in
        elim saved [
          | err e ↦ (err (key_not_saved e), disk1)
          | ok _ ↦ set_up os typed pass next disk1
        ]
  ]

  unfoldable pub open_identity : Bool → Bool → Option Str → Disk → Result OpenedProfile UnlockError
  open_identity readable started pass disk =
      elim (load cr.b64 cr.keys cr.vault readable (identity_path root) pass disk) [
        | err e ↦ err (key e)
        | ok me ↦
            elim (load_store cr.blake2s cr.b64 cr.vault cr.envelopes cr.bodies readable
              (trust_path root) me disk) [
                | err e ↦ err (trust e)
                | ok store ↦ start_running started (record {
                  identity = me;
                  config = load_config cr.configs sys readable (config_path root) disk;
                  trust = store;
                  unprotected_key = not (is_some pass);
                })
              ]
      ]
