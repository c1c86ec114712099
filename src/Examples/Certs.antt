-- ===== src/Examples/Certs.antt =====
-- The certificate of the client's process at concrete inputs.
use harmonic.Prelude.{zero, suc, true, replicate, some, [], ◌∷◌, ◌++◌, ◌≡◌, refl}
use harmonic.Text.{Bytes, codes}
use harmonic.Text.Trim.{trim}
use harmonic.Path.Keys.{path_ord}
use harmonic.Error.{Outcome, ok, err, grpc_status}
use harmonic.Config.{Config}
use harmonic.Config.Address.{Hosts}
use harmonic.Net.{
  parse_addr, show_addr, set_port, show, read_socket_addr_v4, read_socket_addr_v6, read_ipv4_addr,
  read_number, read_digits, up_to_bracket,
}
use harmonic.Storage.{Contents, no_faults, write}
use harmonic.Client.Security.{
  Stdin, get_cert_path, asked, ask_until, otp_in, port_in, get_user_input_for_otp,
  get_user_input_for_bootstrap_server_port, format_bootstrap_address, bootstrap_from_server,
}
use harmonic.Client.Cert.{started, Surroundings, bootstrapped, get_cert}
use harmonic.Client.Cert.Held.{Held, get_cert-Held}

-- Takes the text of an IPv6 host for the host.
abbrev hosts : Hosts
hosts = record {
  Host = Bytes;
  read_host = λ text. some text;
  show_host = λ host. host;
  show_ip = λ host. host;
}

abbrev config : Config
config = record {
  sync_path = [];
  socket_addr = codes "[::1]:42069";
  schedule_delay = 3600;
  log_level = codes "info";
  sync_threshold = 20;
  modify_weight = 2;
  remove_weight = 5;
  create_weight = 10;
  block_size = 8192;
}

-- A password with a line end, then blank lines.
abbrev stdin : Stdin
stdin zero = some (replicate 64 b'a' ++ 10 ∷ [])
stdin (suc n) = some (10 ∷ [])

-- The client's disk, with a certificate file.
abbrev disk : Contents
disk = (get_cert_path, 7 ∷ []) ∷ []

abbrev with_service : (Bytes → Bytes → Outcome Bytes) → Surroundings
with_service get_certificate = record {
  fuel = 1;
  stdin = stdin;
  get_certificate = get_certificate;
  faults = no_faults;
  walk = λ contents path. some (record { path = path; is_file = some true }) ∷ [];
}

abbrev online : Surroundings
online = with_service (λ uri otp. ok (1 ∷ []))

abbrev offline : Surroundings
offline = with_service (λ uri otp. err (grpc_status []))

asks : asked hosts 1 stdin config.socket_addr ≡ ok (codes "http://[::1]:42070", replicate 64 b'a')
unfolding asked ask_until get_user_input_for_otp get_user_input_for_bootstrap_server_port
    format_bootstrap_address otp_in port_in trim parse_addr read_socket_addr_v4 read_socket_addr_v6
    read_ipv4_addr read_number read_digits up_to_bracket show_addr set_port show
asks = refl

-- The flag is on, so that the file on the disk is not looked at.
gets : (get_cert hosts config.socket_addr online (started true) disk).0 ≡ ok (1 ∷ [])
unfolding get_cert bootstrapped bootstrap_from_server write
gets = rw asks refl

get_cert-Held_example :
    Held hosts config.socket_addr (offline ∷ online ∷ []) online true disk (1 ∷ [])
get_cert-Held_example =
    get_cert-Held hosts config.socket_addr online (offline ∷ online ∷ []) disk (1 ∷ []) true gets
