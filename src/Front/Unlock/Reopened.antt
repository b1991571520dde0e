-- ===== src/Front/Unlock/Reopened.antt =====
-- A device that was made is opened again as it was.
use antarloka.Prelude.{
  ◌≡◌, refl, true, not, Option, some, is_some, Result, ok, length, arith, ap, ◌∙◌, Option-cases,
  Result-cases, inl, inr, list_eq, nat_eq,
}
use antarloka.Prelude.Map.{lookup}
use antarloka.Text.{Str, Bytes}
use antarloka.Fs.{FilePath, Disk}
use antarloka.Proto.RoundTrip.{Faithful}
use antarloka.Engine.State.{Config}
use antarloka.Security.PrivateFile.{WriteSteps, lookup-write_private_file_apart}
use antarloka.Security.Keystore.{
  unprotected, KeystoreError, Identity, generate, load, save, read_file,
}
use antarloka.Security.Keystore.Kept.{IsCipher, IsDrawn, opening, load-save}
use antarloka.Security.Trust.{TrustStore, TrustError, fresh}
use antarloka.Security.Trust.Saved.Kept.{fresh-IsKept}
use antarloka.Security.Trust.Valid.{IsLossless}
use antarloka.Security.Trust.Saved.{load_store, save_store, seal_store}
use antarloka.Security.Trust.Saved.Restored.{load_store-save_store}
use antarloka.Config.{
  Surroundings, load_config, save_config, identity_path, trust_path, config_path,
}
use antarloka.Config.Layout.{Apart, files-Apart}
use antarloka.Front.Unlock.{
  Crates, Creation, OpenedProfile, set_up, create_identity, open_identity, start_running,
  chosen_name,
}

-- The crates read back what they wrote.
pub record IsSound (cr : Crates) : Type 0 where
  pub lossless : IsLossless cr.b64
  pub cipher : IsCipher cr.vault
  pub keys : Faithful cr.keys
  pub envelopes : Faithful cr.envelopes
  pub bodies : Faithful cr.bodies

-- The random bytes and the key pair have their lengths.
pub record IsCreation (os : Creation) : Type 0 where
  pub drawn : IsDrawn os.drawn
  pub nonce : length os.nonce ≡ 24
  pub pair :
      (private_key public_key : Bytes)
      → os.pair ≡ some (private_key, public_key)
      → (length public_key ≡ 32) × (length private_key ≡ 32)

module _ (cr : Crates) (sys : Surroundings) (root : FilePath) where
  lookup-save_config-Apart :
      (os : WriteSteps) (path other : FilePath) (c : Config) (disk : Disk)
      → Apart path other
      → lookup other (save_config cr.configs os path c disk).1 ≡ lookup other disk
  unfolding save_config
  lookup-save_config-Apart os path other c disk (a, b) =
      lookup-write_private_file_apart _ path other _ disk a b

  lookup-save_store-Apart :
      (os : WriteSteps) (nonce : Bytes) (path other : FilePath) (s : TrustStore) (me : Identity)
      (disk : Disk)
      → Apart path other
      → lookup other
          (save_store cr.blake2s cr.b64 cr.vault cr.envelopes cr.bodies os nonce path s me disk).1
        ≡ lookup other disk
  unfolding save_store
  lookup-save_store-Apart os nonce path other s me disk (a, b) =
      elim (Result-cases
        (seal_store cr.blake2s cr.b64 cr.vault cr.envelopes cr.bodies nonce s me)) [
          | inr (_, e) ↦ ground (arith, e)
          | inl (raw, e) ↦
              ground (arith, e, lookup-write_private_file_apart os path other raw disk a b)
        ]

  load_same :
      (path : FilePath) (pass : Option Str) (disk after : Disk)
      → lookup path after ≡ lookup path disk
      → load cr.b64 cr.keys cr.vault true path pass after
        ≡ load cr.b64 cr.keys cr.vault true path pass disk
  unfolding load read_file
  load_same path pass disk after e = rw (load, read_file, e) refl

  module _ (sound : IsSound cr) where
    -- `set_up` leaves the key file alone, and the trust store that it writes is read back.
    set_up-kept :
        (os : Creation) (typed : Str) (pass : Option Str) (me : Identity) (opened : OpenedProfile)
        (disk after : Disk)
        → length os.nonce ≡ 24
        → set_up cr sys root os typed pass me disk ≡ (ok opened, after)
        → (opened.identity ≡ me)
          × (opened.trust ≡ fresh)
          × (lookup (identity_path root) after ≡ lookup (identity_path root) disk)
          × (load_store cr.blake2s cr.b64 cr.vault cr.envelopes cr.bodies true
                (trust_path root)
                me
                after
              ≡ ok fresh)
    unfolding set_up start_running
    set_up-kept os typed pass me opened disk after n h =
        let cfg : Config = record (load_config cr.configs sys true (config_path root) disk) {
          device_name = chosen_name typed;
        } in
        let disk1 : Disk = (save_config cr.configs os.config_steps (config_path root) cfg disk).1 in
        let stored : Result (Unit {0}) TrustError × Disk =
          save_store cr.blake2s cr.b64 cr.vault cr.envelopes cr.bodies os.trust_steps os.nonce
            (trust_path root) fresh me disk1 in
        let (_, _, t_i, _, c_i, _) = files-Apart root in
        let first : lookup (identity_path root) disk1 ≡ lookup (identity_path root) disk =
          lookup-save_config-Apart os.config_steps (config_path root) (identity_path root) cfg disk
            c_i in
        let second : lookup (identity_path root) stored.1 ≡ lookup (identity_path root) disk1 =
          lookup-save_store-Apart os.trust_steps os.nonce (trust_path root) (identity_path root)
            fresh me disk1 t_i in
        elim (Result-cases stored.0) [
          | inr (_, e) ↦ ground (arith, e)
          | inl (tt, e) ↦
              let last : after ≡ stored.1 = ground (arith, e) in
              let back =
                load_store-save_store cr.blake2s cr.b64 cr.vault cr.envelopes cr.bodies
                  sound.lossless sound.cipher sound.envelopes sound.bodies os.trust_steps os.nonce
                  (trust_path root) fresh me disk1 stored.1 (fresh-IsKept cr.b64) n
                  (ap (λ r. (r, stored.1)) e) in
              (
                ground (arith, e),
                ground (arith, e),
                ap (lookup (identity_path root)) last ∙ second ∙ first,
                rw last back,
              )
        ]

    -- A device that was made is opened again: by the passphrase that was chosen for it (by none when
    -- it was empty), with the same key and an empty trust store, when the key pair and the random
    -- bytes had their lengths.
    pub open_identity-create_identity :
        (os : Creation) (typed : Str) (pass : Option Str) (opened : OpenedProfile)
        (disk after : Disk)
        → IsCreation os
        → create_identity cr sys root os typed pass disk ≡ (ok opened, after)
        → open_identity cr sys root true true (opening pass) after
          ≡ ok (record {
            identity = opened.identity;
            config = load_config cr.configs sys true (config_path root) after;
            trust = fresh;
            unprotected_key = not (is_some (opening pass));
          })
    unfolding create_identity open_identity generate start_running
    open_identity-create_identity os typed pass opened disk after c h =
        elim (Option-cases os.pair) [
          | inl e ↦ ground (arith, e)
          | inr ((private_key, public_key), e) ↦
              let me : Identity = record {
                secret = private_key;
                public = public_key;
                protection = unprotected;
              } in
              let saved : Result (Unit {0}) KeystoreError × Identity × Disk =
                save cr.b64 cr.keys cr.vault os.key_steps os.drawn (identity_path root) pass me
                  disk in
              elim (Result-cases saved.0) [
                | inr (_, f) ↦ ground (arith, e, f)
                | inl (tt, f) ↦
                    let rest : set_up cr sys root os typed pass saved.1 saved.2
                        ≡ (ok opened, after) =
                      ground (arith, e, f, h) in
                    let (same, _, kept, store) =
                      set_up-kept os typed pass saved.1 opened saved.2 after c.nonce rest in
                    let key : load cr.b64 cr.keys cr.vault true (identity_path root) (opening pass)
                          saved.2
                        ≡ ok saved.1 =
                      load-save cr.b64 cr.keys cr.vault sound.lossless sound.cipher sound.keys
                        os.key_steps os.drawn (identity_path root) pass me saved.1 disk saved.2
                        (c.pair private_key public_key e) c.drawn
                        (ap (λ r. (r, saved.1, saved.2)) f) in
                    ground (
                      arith,
                      load_same (identity_path root) (opening pass) saved.2 after kept,
                      key,
                      store,
                      same,
                    )
              ]
        ]
