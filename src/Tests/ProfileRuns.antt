-- ===== src/Tests/ProfileRuns.antt =====
-- Runs of the files of a profile over a cipher that changes nothing and simple writers.
use antarloka.Prelude.{
  ◌≡◌, ◌≢◌, refl, true, false, [], ◌∷◌, ◌++◌, none, some, ok, nat_eq, list_eq, list_beq,
  if◌then◌else◌, replicate, arith, all, keep,
}
use antarloka.Prelude.Map.{lookup, insert, remove}
use antarloka.Text.{codes, trim, split_last, byte_len, utf8_len}
use antarloka.Fs.{FilePath, Disk, regular, join, pieces}
use antarloka.Util.Unique.{split_stem}
use antarloka.Util.Clamp.{clamp_str}
use antarloka.Security.PrivateFile.{
  WriteSteps, write_private_file, with_extension, lookup-write_private_file,
}
use antarloka.Security.Keystore.{
  Identity, Drawn, unprotected, load, save, to_store, prot_plain, generate, read_file,
}
use antarloka.Security.Keystore.Kept.{load-save, opening}
use antarloka.Security.Trust.{TrustStore, TrustedDevice, fresh, remove_key, key_bytes}
use antarloka.Security.Trust.Saved.{load_store, save_store, seal_store, list, values}
use antarloka.Security.Trust.Saved.Restored.{IsKept, load_store-save_store}
use antarloka.Security.Trust.Saved.Kept.{Changed, Changed-IsKept}
use antarloka.Config.{
  default_config, default_download_dir, Surroundings, load_config, save_config, identity_path,
  config_path,
}
use antarloka.Config.Restored.{load_config-save_config}
use antarloka.Front.Unlock.{
  set_up, chosen_name, start_running, Crates, Creation, OpenedProfile, create_identity,
  open_identity,
}
use antarloka.Front.Unlock.Reopened.{IsSound, IsCreation, open_identity-create_identity}
use antarloka.Tests.Samples.{plain64, plain64-IsLossless, drop_prefix, key_a, key_b, config}
use antarloka.Tests.Writers.{
  clear, clear-IsCipher, plain_keys, plain_keys-Faithful, plain_envelopes, plain_envelopes-Faithful,
  plain_bodies, plain_bodies-Faithful, plain_configs, plain_configs-Faithful,
}

abbrev good_steps : WriteSteps
good_steps = record {
  dirs_made = true;
  opened = true;
  failed_write = none;
  synced = true;
  renamed = true;
}

abbrev profile : FilePath
profile = codes "home" ∷ codes "syncmob" ∷ []

abbrev key_file : FilePath
key_file = codes "home" ∷ codes "identity.json" ∷ []

abbrev owner_b : Identity
owner_b = record { secret = key_b; public = key_a; protection = unprotected }

abbrev drawn_bytes : Drawn
drawn_bytes = record { salt = replicate 16 3; nonce = replicate 24 4 }

abbrev key_disk : Disk
key_disk = (key_file, regular (1 ∷ 9 ∷ 32 ∷ codes "plaintext" ++ (key_a ++ key_b))) ∷ []

key_saved :
    save plain64 plain_keys clear good_steps drawn_bytes key_file none owner_b []
    ≡ (ok tt, owner_b, key_disk)
unfolding save to_store write_private_file prot_plain insert remove
key_saved = refl

load-save_example : load plain64 plain_keys clear true key_file none key_disk ≡ ok owner_b
unfolding opening
load-save_example =
    load-save plain64 plain_keys clear plain64-IsLossless clear-IsCipher plain_keys-Faithful
      good_steps drawn_bytes key_file none owner_b owner_b [] key_disk (refl, refl) (refl, refl)
      key_saved

-- The rename fails; the old bytes are still there.
abbrev half_way : WriteSteps
half_way = record good_steps { renamed = false }

key_file_apart : with_extension (codes "tmp") key_file ≢ key_file
unfolding with_extension split_stem split_last byte_len utf8_len list_beq
key_file_apart e = ground (arith, e)

lookup-write_private_file_example :
    lookup key_file (write_private_file half_way key_file (1 ∷ []) key_disk).1 ≡ (
      if (write_private_file half_way key_file (1 ∷ []) key_disk).0
      then some (regular (1 ∷ []))
      else lookup key_file key_disk)
lookup-write_private_file_example =
    lookup-write_private_file half_way key_file (1 ∷ []) key_disk key_file_apart

abbrev known : TrustedDevice
known = record {
  public_key = key_a;
  name = codes "phone";
  added_at_ms = 5;
  last_seen_ms = 6;
  auto_accept_files = false;
  blocked = false;
}

abbrev known_store : TrustStore
known_store = record { devices = (key_a, known) ∷ [] }

known_store-IsKept : IsKept plain64 known_store
unfolding key_bytes all
known_store-IsKept = record { sorted = (refl, tt); storable = (refl, refl, tt) }

abbrev trust_file : FilePath
trust_file = codes "home" ∷ codes "trust.json" ∷ []

abbrev trust_disk : Disk
trust_disk =
    (trust_file, regular (1 ∷ 24 ∷ replicate 24 4 ++ (5 ∷ 6 ∷ 32 ∷ key_a ++ codes "phone"))) ∷ []

trust_saved :
    save_store drop_prefix plain64 clear plain_envelopes plain_bodies good_steps
      (replicate 24 4)
      trust_file
      known_store
      owner_b
      []
    ≡ (ok tt, trust_disk)
unfolding save_store seal_store write_private_file list values insert remove
trust_saved = refl

load_store-save_store_example :
    load_store drop_prefix plain64 clear plain_envelopes plain_bodies true trust_file owner_b
      trust_disk
    ≡ ok known_store
load_store-save_store_example =
    load_store-save_store drop_prefix plain64 clear plain_envelopes plain_bodies plain64-IsLossless
      clear-IsCipher plain_envelopes-Faithful plain_bodies-Faithful good_steps (replicate 24 4)
      trust_file known_store owner_b [] trust_disk known_store-IsKept refl trust_saved

Changed-IsKept_example : IsKept plain64 (remove_key plain64 known_store key_a).0
Changed-IsKept_example =
    Changed-IsKept plain64 plain64-IsLossless (Changed.removed known_store key_a) known_store-IsKept

abbrev nowhere : Surroundings
nowhere = record { computername = none; hostname = none; download_dir = none }

config_saved : (save_config plain_configs good_steps key_file config key_disk).0 ≡ true
unfolding save_config write_private_file
config_saved = refl

load_config-save_config_example :
    load_config plain_configs nowhere true key_file
      (save_config plain_configs good_steps key_file config key_disk).1
    ≡ config
unfolding all trim list_beq
load_config-save_config_example =
    load_config-save_config plain_configs nowhere plain_configs-Faithful good_steps key_file config
      (codes "desk") key_disk refl config_saved (omega arith) refl refl

abbrev plain_crates : Crates
plain_crates = record {
  blake2s = drop_prefix;
  b64 = plain64;
  vault = clear;
  keys = plain_keys;
  envelopes = plain_envelopes;
  bodies = plain_bodies;
  configs = plain_configs;
}

plain_crates-IsSound : IsSound plain_crates
plain_crates-IsSound = record {
  lossless = plain64-IsLossless;
  cipher = clear-IsCipher;
  keys = plain_keys-Faithful;
  envelopes = plain_envelopes-Faithful;
  bodies = plain_bodies-Faithful;
}

abbrev creation : Creation
creation = record {
  pair = some (key_b, key_a);
  drawn = drawn_bytes;
  nonce = replicate 24 4;
  key_steps = good_steps;
  config_steps = half_way;
  trust_steps = good_steps;
  started = true;
}

creation-IsCreation : IsCreation creation
creation-IsCreation = record {
  drawn = (refl, refl);
  nonce = refl;
  pair = λ private_key public_key e. ground (arith, e);
}

abbrev made : OpenedProfile
made = record {
  identity = owner_b;
  config = record (default_config nowhere) { device_name = codes "desk" };
  trust = fresh;
  unprotected_key = true;
}

device_made :
    create_identity plain_crates nowhere profile creation (codes "desk") none []
    ≡ (ok made, (create_identity plain_crates nowhere profile creation (codes "desk") none []).1)
unfolding create_identity generate save to_store write_private_file identity_path set_up save_store
    seal_store list values save_config load_config read_file chosen_name trim clamp_str
    start_running default_config list_beq lookup insert default_download_dir remove join config_path
    keep pieces
device_made = refl

open_identity-create_identity_example :
    let after : Disk =
      (create_identity plain_crates nowhere profile creation (codes "desk") none []).1 in
    open_identity plain_crates nowhere profile true true none after
    ≡ ok (record {
      identity = owner_b;
      config = load_config plain_configs nowhere true (config_path profile) after;
      trust = fresh;
      unprotected_key = true;
    })
unfolding opening
open_identity-create_identity_example =
    open_identity-create_identity plain_crates nowhere profile plain_crates-IsSound creation
      (codes "desk") none made []
      (create_identity plain_crates nowhere profile creation (codes "desk") none []).1
      creation-IsCreation device_made
