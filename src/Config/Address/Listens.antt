-- ===== src/Config/Address/Listens.antt =====
-- The server listens on all interfaces, at the port of its configuration.
use harmonic.Prelude.{◌≡◌, refl, inl, inr, Option-cases, ◌++◌, arith, ℕ, ap, ◌∙◌}
use harmonic.Text.{Bytes}
use harmonic.Error.{Outcome, ok, err, config_error}
use harmonic.Config.{Config}
use harmonic.Net.{SocketAddr, v4, Ipv4Addr, parse_addr, show, show_addr, port_of}
use harmonic.Net.RoundTrip.{parse_addr-show_addr, parse_addr-port}
use harmonic.Config.Address.{
  Hosts, or_config_error, socket_addr, any_interface, create_server_config,
}

abbrev pub unspecified : Ipv4Addr
unspecified = record { first = 0; second = 0; third = 0; fourth = 0 }

-- The address that a server with the configured address `addr` listens on.
abbrev pub listening : {Host : Type 0} → SocketAddr Host → SocketAddr Host
listening addr = v4 unspecified (port_of addr)

any_interface-show_addr :
    {Host : Type 0} (show_host : Host → Bytes) (port : ℕ)
    → any_interface ++ show port ≡ show_addr show_host (v4 unspecified port)
unfolding show_addr show
any_interface-show_addr show_host port = refl

-- What becomes of a configuration.
pub data Listens (hosts : Hosts) (config : Config) : Outcome Config → Type 0 where
  refused : socket_addr hosts config ≡ err config_error → Listens hosts config (err config_error)
  listens :
      (addr : SocketAddr hosts.Host) (served : Config)
      → socket_addr hosts config ≡ ok addr
      → socket_addr hosts served ≡ ok (listening addr)
      → record served { socket_addr = config.socket_addr } ≡ config
      → Listens hosts config (ok served)

-- If the configured address does not parse, there is no configuration of the server. If it does,
-- that configuration differs in its address alone, and its address parses: to 0.0.0.0 with the
-- configured port, whether the configured host is of IPv4 or IPv6.
pub create_server_config-Listens :
    (hosts : Hosts) (config : Config)
    → Listens hosts config (create_server_config hosts (ok config))
unfolding create_server_config socket_addr
create_server_config-Listens hosts config =
    elim (Option-cases (parse_addr hosts.read_host config.socket_addr)) [
      | inl failed ↦ rw failed (refused (rw failed refl))
      | inr (addr, parsed) ↦ rw parsed (
          listens addr _ (rw parsed refl)
            (ap or_config_error (
              ap (parse_addr hosts.read_host)
                (any_interface-show_addr hosts.show_host (port_of addr))
              ∙ parse_addr-show_addr hosts.read_host hosts.show_host (listening addr) (
                omega arith,
                omega arith,
                omega arith,
                omega arith,
                parse_addr-port hosts.read_host config.socket_addr addr parsed,
              )))
            refl)
    ]
