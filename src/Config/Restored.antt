-- ===== src/Config/Restored.antt =====
-- The settings that `load` gives back, and what holds of the name whatever the file says.
use antarloka.Prelude.{
  ◌≤◌, ◌≡◌, Bool, true, false, [], some, ◌==◌, nat_eq, list_eq, length, all, arith, Option-cases,
  Result-cases, inl, inr,
}
use antarloka.Text.{Str, Bytes, trim}
use antarloka.Fs.{FilePath, Disk}
use antarloka.Proto.Codec.{Json}
use antarloka.Proto.RoundTrip.{Faithful}
use antarloka.Util.Clamp.{clamp_str_bounds, clamp_str_id, is_one_line}
use antarloka.Engine.State.{Config}
use antarloka.Security.PrivateFile.{WriteSteps, lookup-write_private_file_whole}
use antarloka.Security.Keystore.{read_file}
use antarloka.Config.{
  Surroundings, default_device_name, default_config, loaded_name, load_config, save_config,
  raw_device_name,
}

loaded_name_bounds :
    (sys : Surroundings) (raw : Str)
    → (length (loaded_name sys raw) ≤ 65) × (all is_one_line (loaded_name sys raw) ≡ true)
unfolding loaded_name default_device_name
loaded_name_bounds sys raw =
    ground (arith, clamp_str_bounds raw 64, clamp_str_bounds (trim (raw_device_name sys)) 32)

loaded_name_id :
    (sys : Surroundings) (name : Str)
    → length name ≤ 64
    → all is_one_line name ≡ true
    → (trim name == []) ≡ false
    → loaded_name sys name ≡ name
unfolding loaded_name
loaded_name_id sys name short line full = ground (arith, clamp_str_id name 64 short line, full)

module _ (json : Json Config) (sys : Surroundings) where
  -- Whatever the file holds, the name that the network will see is one line of at most 65
  -- characters.
  pub load_config_name :
      (readable : Bool) (path : FilePath) (disk : Disk)
      → let name : Str = (load_config json sys readable path disk).device_name in
        (length name ≤ 65) × (all is_one_line name ≡ true)
  unfolding load_config default_config default_device_name
  load_config_name readable path disk =
      let bounds = clamp_str_bounds (trim (raw_device_name sys)) 32 in
      elim (Result-cases (read_file readable path disk)) [
        | inr (_, e) ↦ ground (arith, e, bounds)
        | inl (raw, e) ↦ elim (Option-cases (json.from_slice raw)) [
          | inl f ↦ ground (arith, e, f, bounds)
          | inr (c, f) ↦ ground (arith, e, f, loaded_name_bounds sys c.device_name)
        ]
      ]

  -- Settings that were saved are loaded as they were, when the name is one line of at most
  -- 64 characters that are not all blank.
  pub load_config-save_config :
      Faithful json
      → (os : WriteSteps) (path : FilePath) (c : Config) (bytes : Bytes) (disk : Disk)
      → json.to_writer c ≡ some bytes
      → (save_config json os path c disk).0 ≡ true
      → length c.device_name ≤ 64
      → all is_one_line c.device_name ≡ true
      → (trim c.device_name == []) ≡ false
      → load_config json sys true path (save_config json os path c disk).1 ≡ c
  unfolding load_config save_config read_file
  load_config-save_config faithful os path c bytes disk w done short line full =
      let steps : WriteSteps = record os { synced = true } in
      ground (
        arith,
        w,
        done,
        faithful c bytes w,
        lookup-write_private_file_whole steps path bytes disk,
        loaded_name_id sys c.device_name short line full,
      )
