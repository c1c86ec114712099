-- ===== src/Server/Start.antt =====
-- The start of src/bin/server.rs: `main` up to the two services that it runs. `load` is the run of
-- `load_config`.
pub mod Serves
use harmonic.Prelude.{ℕ, Bool, ◌||◌}
use harmonic.Text.{Bytes}
use harmonic.Path.{FilePath}
use harmonic.Error.{Outcome, ok, err, panicked, unfinished}
use harmonic.Config.{Config}
use harmonic.Config.Load.{load_config}
use harmonic.Config.Address.{Hosts, socket_addr, create_server_config}
use harmonic.Net.{SocketAddr, set_port}
use harmonic.Storage.{Contents, Faults, Stored, lift, ◌>>=◌, read}
use harmonic.Server.Identity.{Identity, cert_path}

-- What runs: the main service with its address and identity, and, if `run_bootstrap`, the bootstrap
-- service with its address, for the certificate in a file.
pub record Started (hosts : Hosts) : Type 0 where
  pub address : SocketAddr hosts.Host
  pub identity : Identity
  pub run_bootstrap : Bool
  pub bootstrap_address : SocketAddr hosts.Host
  pub certificate_file : FilePath

abbrev pub bootstrap_port : ℕ
bootstrap_port = 42070

abbrev pub on_disk : Outcome (Config × Contents) → Contents → Outcome Config × Contents
on_disk (ok loaded) disk = (ok loaded.0, loaded.1)
on_disk (err e) disk = (err e, disk)
on_disk panicked disk = (panicked, disk)
on_disk unfinished disk = (unfinished, disk)

-- `load_config` on the disk.
abbrev pub load :
    (Bytes → Outcome Config)
    → (Bytes → Bool)
    → (Contents → Outcome (Config × Contents))
    → Faults
    → Stored Config
load from_toml valid_level ask faults disk =
    on_disk (load_config from_toml valid_level (read faults) ask disk) disk

unfoldable pub start :
    (hosts : Hosts)
    → Stored Config
    → (Config → Stored (Identity × Bool))
    → Bool
    → Stored (Started hosts)
start hosts load_config get_server_tls_config bootstrap = do
  config ← load_config
  tls ← get_server_tls_config config
  again ← load_config
  served ← lift (create_server_config hosts (ok again))
  address ← lift (socket_addr hosts served)
  lift (
      ok (record {
        address = address;
        identity = tls.0;
        run_bootstrap = bootstrap || tls.1;
        bootstrap_address = set_port bootstrap_port address;
        certificate_file = cert_path;
      }))
