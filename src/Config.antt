-- ===== src/Config.antt =====
-- desktop/src/config.rs: the settings, and where the files of a profile lie. serde_json, the
-- environment and the directories of the system are parameters.
pub mod Layout
pub mod Restored
use antarloka.Prelude.{
  ℕ, ◌*◌, Bool, true, [], ◌∷◌, Option, none, some, ◌==◌, nat_eq, list_eq, if◌then◌else◌, Result, ok,
  err,
}
use antarloka.Text.{Str, Bytes, codes, trim}
use antarloka.Fs.{FilePath, Disk, join}
use antarloka.Util.Clamp.{clamp_str}
use antarloka.Proto.Codec.{Json}
use antarloka.Proto.Message.{default_tcp_port}
use antarloka.Engine.State.{Config}
use antarloka.Security.PrivateFile.{WriteSteps, write_private_file}
use antarloka.Security.Keystore.{read_file}

-- What the system answers: the two variables, and the directory for downloads.
pub record Surroundings : Type 0 where
  pub computername : Option Str
  pub hostname : Option Str
  pub download_dir : Option FilePath

unfoldable pub raw_device_name : Surroundings → Str
raw_device_name sys = elim sys.computername [
  | some name ↦ name
  | none ↦ elim sys.hostname [ some name ↦ name | none ↦ codes "SyncMob PC" ]
]

unfoldable pub default_device_name : Surroundings → Str
default_device_name sys = clamp_str (trim (raw_device_name sys)) 32

-- `PathBuf::from(".")` has no component of its own.
unfoldable pub default_download_dir : Surroundings → FilePath
default_download_dir sys =
    join (elim sys.download_dir [ some dir ↦ dir | none ↦ [] ]) (codes "SyncMob")

unfoldable pub default_config : Surroundings → Config
default_config sys = record {
  device_name = default_device_name sys;
  tcp_port = default_tcp_port;
  discovery_enabled = true;
  accept_incoming = true;
  download_dir = default_download_dir sys;
  max_file_size = 8 * 1024 * 1024 * 1024;
  lan_only = true;
  allow_new_pairings = true;
}

-- What `load` does to the name that it has read.
unfoldable pub loaded_name : Surroundings → Str → Str
loaded_name sys raw =
    let name = clamp_str raw 64 in if trim name == [] then default_device_name sys else name

module _ (json : Json Config) where
  unfoldable pub load_config : Surroundings → Bool → FilePath → Disk → Config
  load_config sys readable path disk = elim (read_file readable path disk) [
    | err _ ↦ default_config sys
    | ok raw ↦ elim (json.from_slice raw) [
      | none ↦ default_config sys
      | some c ↦ record c { device_name = loaded_name sys c.device_name }
    ]
  ]

  -- The steps are those of `write_private_file` but for the flush to the disk.
  unfoldable pub save_config : WriteSteps → FilePath → Config → Disk → Bool × Disk
  save_config os path c disk =
      write_private_file (record os { synced = true }) path
        (elim (json.to_writer c) [ some bytes ↦ bytes | none ↦ [] ]) disk

-- `Paths`, by its root.
unfoldable pub identity_path : FilePath → FilePath
identity_path root = join root (codes "identity.json")

unfoldable pub trust_path : FilePath → FilePath
trust_path root = join root (codes "trust.json")

unfoldable pub config_path : FilePath → FilePath
config_path root = join root (codes "config.json")

unfoldable pub incoming_path : FilePath → FilePath
incoming_path root = join root (codes "incoming")
