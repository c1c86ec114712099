-- ===== src/Config/Address.antt =====
-- The socket address of a configuration: `Config::socket_addr` of src/sync/config.rs, and
-- src/server/config.rs.
pub mod Listens
use harmonic.Prelude.{Option, none, some, ◌++◌}
use harmonic.Text.{Bytes, codes}
use harmonic.Error.{Outcome, ok, err, config_error, ◌>>=◌}
use harmonic.Config.{Config}
use harmonic.Net.{SocketAddr, parse_addr, show, port_of}

-- IPv6 hosts and their texts: the two parsers and printers of std::net that are left out. `show_ip`
-- is `Ipv6Addr`'s, without a scope.
pub record Hosts : Type 1 where
  pub Host : Type 0
  pub read_host : Bytes → Option Host
  pub show_host : Host → Bytes
  pub show_ip : Host → Bytes

abbrev pub or_config_error {ℓ} : {A : Type ℓ} → Option A → Outcome A
or_config_error none = err config_error
or_config_error (some a) = ok a

-- `Config::socket_addr`
unfoldable pub socket_addr : (hosts : Hosts) → Config → Outcome (SocketAddr hosts.Host)
socket_addr hosts config = or_config_error (parse_addr hosts.read_host config.socket_addr)

-- The text that `create_server_config` makes: all interfaces, with the port.
abbrev pub any_interface : Bytes
any_interface = codes "0.0.0.0:"

-- `create_server_config`, for what `load_config` returns. Its errors are those of anyhow, which keeps
-- the cause; an address that does not parse is `config_error` here as in `Config::socket_addr`.
unfoldable pub create_server_config : Hosts → Outcome Config → Outcome Config
unfolding socket_addr
create_server_config hosts loaded = loaded >>= λ config. socket_addr hosts config >>= λ addr.
    ok (record config { socket_addr = any_interface ++ show (port_of addr) })
