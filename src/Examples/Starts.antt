-- ===== src/Examples/Starts.antt =====
-- The start of the server and the enrolment of a client at concrete inputs.
use harmonic.Prelude.{
  suc, zero, ◌≤◌, true, false, ◌||◌, length, replicate, Option, some, List, [], ◌∷◌, ◌++◌, ◌⊎◌, inr,
  ◌≡◌, ◌≢◌, refl, ap, ◌∙◌, get_or, arith,
}
use harmonic.Text.{Bytes, codes, is_utf8}
use harmonic.Text.Trim.{trim}
use harmonic.Path.{FilePath}
use harmonic.Path.Keys.{path_ord}
use harmonic.Order.Lists.{lex}
use harmonic.Error.{Outcome, ok, err, config_error, grpc_status, unfinished}
use harmonic.Io.{Io, done}
use harmonic.Config.{Config}
use harmonic.Config.Load.{config_dir_path, config_file_path}
use harmonic.Config.Address.{Hosts, socket_addr, create_server_config}
use harmonic.Config.Address.Listens.{Listens, create_server_config-Listens, unspecified}
use harmonic.Net.{
  SocketAddr, v4, v6, parse_addr, port_of, read_socket_addr_v4, read_socket_addr_v6, read_ipv4_addr,
  read_number, read_digits, up_to_bracket,
}
use harmonic.BTree.{get, insert}
use harmonic.Storage.{Contents, no_faults, exists, read, write}
use harmonic.Server.Identity.{
  Identity, cert_path, private_key_path, get_identity, new_identity, write_identity, subject_names,
  ip_text,
}
use harmonic.Server.Identity.Kept.{Kept, get_identity-Kept}
use harmonic.Server.Start.{load, start}
use harmonic.Server.Start.Serves.{start-Serves}
use harmonic.State.Generate.{Entry}
use harmonic.Bootstrap.{new}
use harmonic.Client.Security.{
  Stdin, otp_in, port_in, get_user_input_for_otp, get_user_input_for_bootstrap_server_port,
  bootstrap_from_server,
}
use harmonic.Prelude.{◌⊎◌, ◌<◌}
use harmonic.Client.Security.Dialogues.{
  IsPort, Answered, get_user_input_for_otp-Answered, end_of_input,
  get_user_input_for_bootstrap_server_port-Answered,
}
use harmonic.Client.Security.Enrolled.{
  reach, Enrolled, bootstrap_from_server-Enrolled, bootstrap_from_server-denied,
}

-- Takes the text of an IPv6 host for the host, if it has one byte at least.
abbrev hosts : Hosts
hosts = record {
  Host = Bytes;
  read_host = λ text. some text;
  show_host = λ host. host;
  show_ip = λ host. host;
}

abbrev local : SocketAddr Bytes
local = v6 (codes "::1") 42069

abbrev config : Config
config = record {
  sync_path = [];
  socket_addr = codes "[::1]:42069";
  schedule_delay = 3600;
  log_level = codes "info";
  sync_threshold = 20;
  modify_weight = 2;
  remove_weight = 5;
  create_weight = 10;
  block_size = 8192;
}

create_server_config-Listens_example : Listens hosts config (create_server_config hosts (ok config))
create_server_config-Listens_example = create_server_config-Listens hosts config

abbrev identity : Identity
identity = record { cert = 1 ∷ []; key = 2 ∷ [] }

abbrev generate : List Bytes → Bytes ⊎ Identity
generate names = inr identity

abbrev local_ip : Bytes ⊎ Bytes
local_ip = inr (codes "192.168.0.2")

abbrev config_toml : Bytes
config_toml = codes "toml"

abbrev disk : Contents
disk = (config_file_path, config_toml) ∷ []

after : Contents
after = insert private_key_path (2 ∷ []) (insert cert_path (1 ∷ []) disk)

parsed : socket_addr hosts config ≡ ok local
unfolding socket_addr parse_addr read_socket_addr_v4 read_socket_addr_v6 read_ipv4_addr read_number
    read_digits up_to_bracket
parsed = refl

made : get_identity hosts local_ip generate no_faults config disk ≡ (ok (identity, true), after)
unfolding get_identity new_identity write_identity write exists get insert lex cert_path
    private_key_path config_file_path after subject_names ip_text socket_addr parse_addr
    read_socket_addr_v4 read_socket_addr_v6 read_ipv4_addr read_number read_digits up_to_bracket
made = refl

get_identity-Kept_example : Kept hosts local_ip generate no_faults config identity true disk after
get_identity-Kept_example =
    get_identity-Kept hosts local_ip generate no_faults config identity true disk after local_ip
      generate no_faults config made refl refl

from_toml : Bytes → Outcome Config
from_toml text = ok config

ask : Contents → Outcome (Config × Contents)
ask now = err config_error

text_read : read no_faults config_file_path disk ≡ done config_toml
unfolding read get config_file_path lex config_dir_path
text_read = refl

text_utf8 : is_utf8 config_toml ≡ true
unfolding is_utf8
text_utf8 = refl

config_valid : from_toml config_toml ≡ ok config
unfolding from_toml
config_valid = refl

start-Serves_example :
    (start hosts
        (load from_toml (λ level. true) ask no_faults)
        (get_identity hosts local_ip generate no_faults)
        false
        disk
      ≡ (
        ok (record {
          address = v4 unspecified (port_of local);
          identity = identity;
          run_bootstrap = false || true;
          bootstrap_address = v4 unspecified 42070;
          certificate_file = cert_path;
        }),
        after,
      ))
    × (read no_faults cert_path after ≡ done identity.cert)
start-Serves_example =
    start-Serves hosts local_ip generate from_toml (λ level. true) ask no_faults false config_toml
      config local identity true disk after text_read text_utf8 config_valid refl parsed made refl
      refl

abbrev otp : Bytes
otp = replicate 64 b'a'

-- A password with a line end, then a blank line.
stdin : Stdin
stdin zero = some (otp ++ 10 ∷ [])
stdin (suc n) = some (10 ∷ [])

first_line : stdin 0 ≡ some (otp ++ 10 ∷ [])
unfolding stdin
first_line = refl

second_line : stdin 1 ≡ some (10 ∷ [])
unfolding stdin
second_line = refl

full : length (trim (otp ++ 10 ∷ [])) ≡ 64
unfolding trim
full = refl

blank : port_in (10 ∷ []) ≡ some 42070
unfolding port_in trim
blank = refl

get_user_input_for_otp-Answered_example :
    (answered : Answered otp_in stdin 0 (get_user_input_for_otp 1 stdin 0)) × (length
        answered.answer
      ≡ 64)
get_user_input_for_otp-Answered_example =
    get_user_input_for_otp-Answered 1 0 0 stdin (otp ++ 10 ∷ []) first_line full (omega arith)

nothing : IsPort (trim (10 ∷ [])) 42070
unfolding trim
nothing = IsPort.blank

get_user_input_for_bootstrap_server_port-Answered_example :
    (answered : Answered port_in stdin 1 (get_user_input_for_bootstrap_server_port 1 stdin 1))
    × (answered.answer ≤ 65535)
    × ((answered.line < 1) ⊎ (answered.answer ≡ 42070))
get_user_input_for_bootstrap_server_port-Answered_example =
    get_user_input_for_bootstrap_server_port-Answered 1 0 1 stdin (10 ∷ []) 42070 second_line
      nothing (omega arith)

abbrev ended : Stdin
ended n = some []

end_of_input_example :
    (get_user_input_for_otp 5 ended 0 ≡ unfinished)
    × (get_user_input_for_bootstrap_server_port 6 ended 0 ≡ ok (42070, 1))
end_of_input_example = end_of_input 5 0 ended (λ i low. refl)

abbrev server_files : FilePath → Io Bytes
server_files path = done (1 ∷ [])

-- Reaches the service with the password, at whatever address.
abbrev connect : Bytes → Bytes → Outcome Bytes
connect uri password = reach server_files 200 (new cert_path otp 100) password

server_parsed : parse_addr hosts.read_host config.socket_addr ≡ some local
unfolding parse_addr read_socket_addr_v4 read_socket_addr_v6 read_ipv4_addr read_number read_digits
    up_to_bracket
server_parsed = refl

trimmed : trim (otp ++ 10 ∷ []) ≡ otp
unfolding trim
trimmed = refl

abbrev walk : FilePath → List (Option Entry)
walk path = some (record { path = path; is_file = some true }) ∷ []

reached :
    connect [] (trim (otp ++ 10 ∷ []))
    ≡ reach server_files 200 (new cert_path (trim (otp ++ 10 ∷ [])) 100) (trim (otp ++ 10 ∷ []))
reached = rw trimmed refl

bootstrap_from_server-Enrolled_example :
    Enrolled hosts stdin connect no_faults no_faults walk config.socket_addr (1 ∷ []) 1 disk
bootstrap_from_server-Enrolled_example =
    bootstrap_from_server-Enrolled hosts 0 stdin connect no_faults no_faults walk server_files
      config.socket_addr (otp ++ 10 ∷ []) (10 ∷ []) (1 ∷ []) 42070 100 200 local cert_path disk
      server_parsed first_line full second_line blank reached (omega arith) refl refl refl refl

abbrev other_otp : Bytes
other_otp = replicate 64 b'b'

abbrev connect_other : Bytes → Bytes → Outcome Bytes
connect_other uri password = reach server_files 200 (new cert_path other_otp 100) password

unlike : other_otp ≢ trim (otp ++ 10 ∷ [])
unlike e = absurd (omega (arith, ap (λ text. get_or text 0 0) (e ∙ trimmed)))

bootstrap_from_server-denied_example :
    bootstrap_from_server hosts 1 stdin connect_other no_faults config.socket_addr disk
    ≡ (err (grpc_status []), disk)
bootstrap_from_server-denied_example =
    bootstrap_from_server-denied hosts 0 stdin connect_other no_faults server_files
      config.socket_addr (otp ++ 10 ∷ []) (10 ∷ []) other_otp 42070 100 200 local cert_path disk
      server_parsed first_line full second_line blank refl unlike
