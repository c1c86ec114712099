-- ===== src/Server/Start/Serves.antt =====
-- What the server runs once it has started.
use harmonic.Prelude.{Bool, true, ◌||◌, List, ◌⊎◌, ◌≡◌, ◌≢◌, refl, sym, ap, ◌∙◌, none, false}
use harmonic.Text.{Bytes, is_utf8}
use harmonic.Path.Keys.{path_ord}
use harmonic.Order.Lists.{lex}
use harmonic.Error.{Outcome, ok, ok-injective}
use harmonic.Io.{done}
use harmonic.Config.{Config}
use harmonic.Config.Load.{config_file_path, load_config}
use harmonic.Config.Address.{Hosts, socket_addr, create_server_config}
use harmonic.Config.Address.Listens.{
  Listens, refused, listens, listening, unspecified, create_server_config-Listens,
}
use harmonic.Net.{SocketAddr, v4, set_port, port_of}
use harmonic.BTree.{◌is◌}
use harmonic.BTree.Laws.{is_refl}
use harmonic.Storage.Laws.{read-same, read-get}
use harmonic.Storage.{Contents, Faults, read}
use harmonic.Server.Identity.{Identity, cert_path, private_key_path, get_identity}
use harmonic.Server.Identity.Kept.{get_identity-Kept}
use harmonic.Server.Start.{load, start}

load-done :
    (from_toml : Bytes → Outcome Config) (valid_level : Bytes → Bool)
    (ask : Contents → Outcome (Config × Contents)) (faults : Faults) (disk : Contents)
    (config_toml : Bytes) (config : Config)
    → read faults config_file_path disk ≡ done config_toml
    → is_utf8 config_toml ≡ true
    → from_toml config_toml ≡ ok config
    → valid_level config.log_level ≡ true
    → load from_toml valid_level ask faults disk ≡ (ok config, disk)
unfolding load_config
load-done from_toml valid_level ask faults disk config_toml config e u t v =
    rw (e, load_config) (rw u (rw t (rw v refl)))

served_address :
    (hosts : Hosts) (config : Config) (addr : SocketAddr hosts.Host) (outcome : Outcome Config)
    → Listens hosts config outcome
    → socket_addr hosts config ≡ ok addr
    → (served : Config) × (outcome ≡ ok served) × (socket_addr hosts served ≡ ok (listening addr))
served_address hosts config addr _ (refused failed) yes_parsed = cc
served_address hosts config addr _ (listens addr' served parsed found same) yes_parsed =
    let e : addr' ≡ addr = ok-injective addr' addr (sym parsed ∙ yes_parsed) in
    (served, refl, found ∙ ap (λ a. ok (listening a)) e)

config-is-cert : (config_file_path is cert_path) ≡ false
unfolding config_file_path cert_path lex
config-is-cert = refl

config-is-key : (config_file_path is private_key_path) ≡ false
unfolding config_file_path private_key_path lex
config-is-key = refl

config-ne-cert : config_file_path ≢ cert_path
config-ne-cert e = cc (config-is-cert, ap (λ p. p is cert_path) e, is_refl cert_path)

config-ne-key : config_file_path ≢ private_key_path
config-ne-key e = cc (config-is-key, ap (λ p. p is private_key_path) e, is_refl private_key_path)

-- Let the configuration be on the disk, its text be valid and its address parse, and let
-- `get_identity` return an identity. Then the server starts, with what `get_identity` left on the disk. It
-- serves at 0.0.0.0 with the configured port. The bootstrap service runs if it was asked for
-- or the identity was made now, at the same host with port 42070, and reads the
-- certificate of that very identity, if the disk lets it.
pub start-Serves :
    (hosts : Hosts) (local_ip : Bytes ⊎ Bytes) (generate : List Bytes → Bytes ⊎ Identity)
    (from_toml : Bytes → Outcome Config) (valid_level : Bytes → Bool)
    (ask : Contents → Outcome (Config × Contents)) (faults : Faults) (bootstrap : Bool)
    (config_toml : Bytes) (config : Config) (addr : SocketAddr hosts.Host) (identity : Identity)
    (generated : Bool) (disk after : Contents)
    → read faults config_file_path disk ≡ done config_toml
    → is_utf8 config_toml ≡ true
    → from_toml config_toml ≡ ok config
    → valid_level config.log_level ≡ true
    → socket_addr hosts config ≡ ok addr
    → get_identity hosts local_ip generate faults config disk ≡ (ok (identity, generated), after)
    → faults.reads cert_path ≡ none
    → faults.reads private_key_path ≡ none
    → (start hosts
          (load from_toml valid_level ask faults)
          (get_identity hosts local_ip generate faults)
          bootstrap
          disk
        ≡ (
          ok (record {
            address = v4 unspecified (port_of addr);
            identity = identity;
            run_bootstrap = bootstrap || generated;
            bootstrap_address = v4 unspecified 42070;
            certificate_file = cert_path;
          }),
          after,
        ))
      × (read faults cert_path after ≡ done identity.cert)
unfolding start set_port
start-Serves hosts local_ip generate from_toml valid_level ask faults bootstrap config_toml config
      addr identity generated disk after e u t v parsed got h k =
    let kept =
      get_identity-Kept hosts local_ip generate faults config identity generated disk after local_ip
        generate faults config got h k in
    let (served, made, found) =
      served_address hosts config addr (create_server_config hosts (ok config))
        (create_server_config-Listens hosts config) parsed in
    let unchanged =
      read-same faults config_file_path disk after
        (kept.others config_file_path config-ne-cert config-ne-key) in
    (
      rw (load-done from_toml valid_level ask faults disk config_toml config e u t v) (
          rw got (
            rw
              (load-done from_toml valid_level ask faults after config_toml config (unchanged ∙ e) u
                t v)
              (rw made (rw found refl)))),
      (read-get faults cert_path identity.cert after h kept.holds.cert).0,
    )
