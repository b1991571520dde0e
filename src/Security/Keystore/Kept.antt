-- ===== src/Security/Keystore/Kept.antt =====
-- What `load` gives back of what `save` wrote.
use antarloka.Prelude.{
  ◌≡◌, refl, Bool, true, false, [], ◌∷◌, Option, none, some, ◌==◌, nat_eq, list_eq, arith,
  if◌then◌else◌, ok, length, Option-cases, inl, inr, beq_refl, list_beq, Result-cases, is_some,
}
use antarloka.Prelude.Map.{lookup}
use antarloka.Text.{Str, Bytes}
use antarloka.Fs.{FilePath, Disk, regular}
use antarloka.Proto.Codec.{Json}
use antarloka.Proto.RoundTrip.{Faithful}
use antarloka.Security.Base64.{Base64}
use antarloka.Security.PrivateFile.{WriteSteps, lookup-write_private_file_whole}
use antarloka.Security.Keystore.{
  StoredKey, Identity, Protection, passphrase, unprotected, plaintext, encrypted, Vault, Drawn,
  state, load, save, to_store, open_stored, unlock, read_file, prot_argon, prot_plain,
}

-- base64 reads back what it wrote, and so does the cipher under the same key, nonce and data.
abbrev pub IsFaithful64 : Base64 → Type 0
IsFaithful64 b64 = (b : Bytes) → b64.from_text (b64.to_text b) ≡ some b

abbrev pub IsCipher : Vault → Type 0
IsCipher vault =
    (key nonce aad plain ct : Bytes)
    → vault.encrypt key nonce aad plain ≡ some ct
    → vault.decrypt key nonce aad ct ≡ some plain

-- A key pair of X25519, and the lengths that `save` draws.
abbrev pub IsKeyPair : Identity → Type 0
IsKeyPair me = (length me.public ≡ 32) × (length me.secret ≡ 32)

abbrev pub IsDrawn : Drawn → Type 0
IsDrawn drawn = (length drawn.salt ≡ 16) × (length drawn.nonce ≡ 24)

-- The passphrase that opens what was saved with this one: the empty one protects nothing.
unfoldable pub opening : Option Str → Option Str
opening none = none
opening (some []) = none
opening (some (c ∷ cs)) = some (c ∷ cs)

plain_marked : (prot_plain == prot_plain) ≡ true
plain_marked = beq_refl prot_plain

argon_marked : (prot_argon == prot_argon) ≡ true
argon_marked = beq_refl prot_argon

argon-apart : (prot_argon == prot_plain) ≡ false
unfolding prot_argon prot_plain list_beq
argon-apart = refl

plain-apart : (prot_plain == prot_argon) ≡ false
unfolding prot_argon prot_plain list_beq
plain-apart = refl

module _ (b64 : Base64) (json : Json StoredKey) (vault : Vault) (faithful64 : IsFaithful64 b64)
    (cipher : IsCipher vault) where
  open_stored-to_store :
      (drawn : Drawn) (me next : Identity) (pass : Option Str) (stored : StoredKey)
      → IsKeyPair me
      → IsDrawn drawn
      → to_store b64 vault drawn me pass ≡ ok (stored, next)
      → open_stored b64 vault (opening pass) stored ≡ ok next
  unfolding to_store open_stored opening unlock
  open_stored-to_store drawn me next none stored k d h =
      ground (arith, faithful64 me.public, faithful64 me.secret, plain_marked)
  open_stored-to_store drawn me next (some []) stored k d h =
      ground (arith, faithful64 me.public, faithful64 me.secret, plain_marked)
  open_stored-to_store drawn me next (some (c ∷ cs)) stored k d h =
      elim (Option-cases (vault.argon (c ∷ cs) drawn.salt)) [
        | inl e ↦ ground (arith, e)
        | inr (key, e) ↦ elim (Option-cases (vault.encrypt key drawn.nonce me.public me.secret)) [
          | inl f ↦ ground (arith, e, f)
          | inr (ct, f) ↦ ground (
            arith,
            e,
            f,
            faithful64 me.public,
            faithful64 ct,
            faithful64 drawn.salt,
            faithful64 drawn.nonce,
            cipher key drawn.nonce me.public me.secret ct f,
            argon_marked,
            argon-apart,
          )
        ]
      ]

  protection-to_store :
      (drawn : Drawn) (me next : Identity) (pass : Option Str) (stored : StoredKey)
      → to_store b64 vault drawn me pass ≡ ok (stored, next)
      → (stored.protection == prot_argon) ≡ is_some (opening pass)
  unfolding to_store opening
  protection-to_store drawn me next none stored t = ground (arith, plain-apart)
  protection-to_store drawn me next (some []) stored t = ground (arith, plain-apart)
  protection-to_store drawn me next (some (c ∷ cs)) stored t =
      elim (Option-cases (vault.argon (c ∷ cs) drawn.salt)) [
        | inl e ↦ ground (arith, e)
        | inr (key, e) ↦ ground (arith, e, argon_marked)
      ]

  -- Where a save succeeds, the file holds what `to_store` gave.
  save-written :
      (os : WriteSteps) (drawn : Drawn) (path : FilePath) (pass : Option Str) (me next : Identity)
      (disk after : Disk)
      → save b64 json vault os drawn path pass me disk ≡ (ok tt, next, after)
      → (stored : StoredKey) × (bytes : Bytes) × (to_store b64 vault drawn me pass
          ≡ ok (stored, next))
        × (json.to_writer stored ≡ some bytes)
        × (lookup path after ≡ some (regular bytes))
  unfolding save
  save-written os drawn path pass me next disk after h =
      elim (Result-cases (to_store b64 vault drawn me pass)) [
        | inr (e, k) ↦ ground (arith, k)
        | inl ((stored, mine), k) ↦ elim (Option-cases (json.to_writer stored)) [
          | inl none_written ↦ ground (arith, k, none_written)
          | inr (bytes, w) ↦ (
            stored,
            bytes,
            ground (arith, k, w),
            w,
            ground (arith, k, w, lookup-write_private_file_whole os path bytes disk),
          )
        ]
      ]

  -- What was saved is loaded again, key pair and protection, by the passphrase that protected it.
  pub load-save :
      Faithful json
      → (os : WriteSteps) (drawn : Drawn) (path : FilePath) (pass : Option Str) (me next : Identity)
        (disk after : Disk)
      → IsKeyPair me
      → IsDrawn drawn
      → save b64 json vault os drawn path pass me disk ≡ (ok tt, next, after)
      → load b64 json vault true path (opening pass) after ≡ ok next
  unfolding load read_file
  load-save faithful os drawn path pass me next disk after k d h =
      let (stored, bytes, t, w, there) = save-written os drawn path pass me next disk after h in
      ground (
        arith,
        there,
        faithful stored bytes w,
        open_stored-to_store drawn me next pass stored k d t,
      )

  -- After a save, the file tells without being unlocked whether a passphrase is needed.
  pub state-save :
      Faithful json
      → (os : WriteSteps) (drawn : Drawn) (path : FilePath) (pass : Option Str) (me next : Identity)
        (disk after : Disk)
      → save b64 json vault os drawn path pass me disk ≡ (ok tt, next, after)
      → state b64 json true path after ≡ (if is_some (opening pass) then encrypted else plaintext)
  unfolding state read_file opening
  state-save faithful os drawn path pass me next disk after h =
      let (stored, bytes, t, w, there) = save-written os drawn path pass me next disk after h in
      let marked = protection-to_store drawn me next pass stored t in
      ground (arith, there, faithful stored bytes w, marked, argon_marked)

unlock-protection :
    (b64 : Base64) (vault : Vault) (pass : Option Str) (stored : StoredKey)
    (public_key blob : Bytes) (got : Bytes × Protection)
    → unlock b64 vault pass stored public_key blob ≡ ok got
    → got.1 ≡ (if is_some pass then passphrase else unprotected)
unfolding unlock
unlock-protection b64 vault none stored public_key blob got h = ground arith
unlock-protection b64 vault (some w) stored public_key blob got h = ground arith

open_stored-IsKeyPair :
    (b64 : Base64) (vault : Vault) (pass : Option Str) (stored : StoredKey) (me : Identity)
    → open_stored b64 vault pass stored ≡ ok me
    → IsKeyPair me × (me.protection ≡ (if is_some pass then passphrase else unprotected))
unfolding open_stored
open_stored-IsKeyPair b64 vault pass stored me h =
    elim (Option-cases (b64.from_text stored.public)) [
      | inl e ↦ ground (arith, e)
      | inr (public_key, e) ↦ elim (Option-cases (b64.from_text stored.secret)) [
        | inl f ↦ ground (arith, e, f)
        | inr (blob, f) ↦ elim (Result-cases (unlock b64 vault pass stored public_key blob)) [
          | inl (got, k) ↦
              ground (arith, e, f, k, unlock-protection b64 vault pass stored public_key blob got k)
          | inr (_, k) ↦ ground (arith, e, f, k)
        ]
      ]
    ]

-- What `load` accepts is a key pair, and it asks for a passphrase just when it uses one.
pub load-IsKeyPair :
    (b64 : Base64) (json : Json StoredKey) (vault : Vault) (readable : Bool) (path : FilePath)
    (pass : Option Str) (disk : Disk) (me : Identity)
    → load b64 json vault readable path pass disk ≡ ok me
    → IsKeyPair me × (me.protection ≡ (if is_some pass then passphrase else unprotected))
unfolding load
load-IsKeyPair b64 json vault readable path pass disk me h =
    elim (Result-cases (read_file readable path disk)) [
      | inr (_, e) ↦ ground (arith, e)
      | inl (raw, e) ↦ elim (Option-cases (json.from_slice raw)) [
        | inl f ↦ ground (arith, e, f)
        | inr (stored, f) ↦ open_stored-IsKeyPair b64 vault pass stored me (ground (arith, e, f))
      ]
    ]
