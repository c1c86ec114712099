-- ===== src/Config.antt =====
-- `Config` of src/sync/config.rs.
pub mod Address
pub mod Load
pub mod Runs
use harmonic.Prelude.{ℕ}
use harmonic.Path.{FilePath}
use harmonic.Text.{Bytes}

pub record Config : Type 0 where
  pub sync_path : FilePath
  pub socket_addr : Bytes
  pub schedule_delay : ℕ
  pub log_level : Bytes
  pub sync_threshold : ℕ
  pub modify_weight : ℕ
  pub remove_weight : ℕ
  pub create_weight : ℕ
  pub block_size : ℕ
