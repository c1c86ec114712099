-- ===== src/Config/Load.antt =====
-- The functions of src/sync/config.rs. The TOML codec, the parser of log levels, the terminal and the
-- disk are foreign.
use harmonic.Prelude.{Bool, if◌then◌else◌, [], ◌∷◌, ◌++◌}
use harmonic.Text.{Bytes, is_utf8}
use harmonic.Text.Trim.{trim}
use harmonic.Path.{FilePath, cur_dir, normal}
use harmonic.Path.Spelling.{from_text}
use harmonic.Error.{Outcome, ok, err, io, config_error, ◌>>=◌}
use harmonic.Io.{Io, done, not_found, failed, from_io}
use harmonic.Config.{Config}

-- `Config::default`, for a home directory.
abbrev pub default : FilePath → Config
default home = record {
  sync_path = home;
  socket_addr = b'[' ∷ b':' ∷ b':' ∷ b'1' ∷ b']' ∷ b':' ∷ b'4' ∷ b'2' ∷ b'0' ∷ b'6' ∷ b'9' ∷ [];
  schedule_delay = 3600;
  log_level = b'i' ∷ b'n' ∷ b'f' ∷ b'o' ∷ [];
  sync_threshold = 20;
  modify_weight = 2;
  remove_weight = 5;
  create_weight = 10;
  block_size = 8192;
}

unfoldable pub server_uri : Config → Bytes
server_uri config =
    (b'h' ∷ b't' ∷ b't' ∷ b'p' ∷ b's' ∷ b':' ∷ b'/' ∷ b'/' ∷ []) ++ config.socket_addr

unfoldable pub config_dir_path : FilePath
config_dir_path =
    cur_dir ∷ normal (b'.' ∷ b'h' ∷ b'a' ∷ b'r' ∷ b'm' ∷ b'o' ∷ b'n' ∷ b'i' ∷ b'c' ∷ []) ∷ []

unfoldable pub config_file_path : FilePath
config_file_path =
    config_dir_path
    ++ normal (b'c' ∷ b'o' ∷ b'n' ∷ b'f' ∷ b'i' ∷ b'g' ∷ b'.' ∷ b't' ∷ b'o' ∷ b'm' ∷ b'l' ∷ []) ∷ []

-- `save_config`, on a disk.
unfoldable pub save_config {ℓ} :
    {Disk : Type ℓ}
    → (Config → Outcome Bytes)
    → (FilePath → Disk → Io Disk)
    → (FilePath → Bytes → Disk → Io Disk)
    → Config
    → Disk
    → Outcome Disk
save_config to_toml create_dirs write config disk = to_toml config >>= λ config_toml.
    from_io (create_dirs config_dir_path disk) >>= λ disk'.
    from_io (write config_file_path config_toml disk')

-- The default with the two lines that the user enters.
abbrev pub entered : FilePath → Bytes → Bytes → Config
entered home path address = record (default home) {
  sync_path = from_text (trim path);
  socket_addr = trim address;
}

-- `handle_no_config`
unfoldable pub handle_no_config {ℓ} :
    {Disk : Type ℓ} → FilePath → Bytes → Bytes → (Config → Outcome Disk) → Outcome (Config × Disk)
handle_no_config home path address save =
    save (entered home path address) >>= λ disk. ok (entered home path address, disk)

abbrev pub check_level {ℓ} :
    {Disk : Type ℓ} → (Bytes → Bool) → Config × Disk → Outcome (Config × Disk)
check_level valid_level loaded =
    if valid_level (loaded.0).log_level then ok loaded else err config_error

abbrev pub read_config {ℓ} :
    {Disk : Type ℓ}
    → (Bytes → Outcome Config)
    → Outcome (Config × Disk)
    → Disk
    → Io Bytes
    → Outcome (Config × Disk)
read_config from_toml ask disk (done config_toml) =
    if is_utf8 config_toml then (from_toml config_toml >>= λ c. ok (c, disk)) else err (io [])
read_config from_toml ask disk not_found = ask
read_config from_toml ask disk (failed message) = err (io message)

-- `load_config`: the configuration, and the disk, to which a first run writes. `ask` is the run of
-- `handle_no_config`.
unfoldable pub load_config {ℓ} :
    {Disk : Type ℓ}
    → (Bytes → Outcome Config)
    → (Bytes → Bool)
    → (FilePath → Disk → Io Bytes)
    → (Disk → Outcome (Config × Disk))
    → Disk
    → Outcome (Config × Disk)
load_config from_toml valid_level read ask disk =
    read_config from_toml (ask disk) disk (read config_file_path disk) >>= λ loaded.
    check_level valid_level loaded
