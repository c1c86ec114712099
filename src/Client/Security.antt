-- ===== src/Client/Security.antt =====
-- src/client/security.rs: the dialogues, the certificate file and the request for the certificate.
pub mod Dialogues
pub mod Enrolled
use harmonic.Prelude.{
  ℕ, zero, suc, Bool, true, false, ◌&&◌, ◌==◌, if◌then◌else◌, bytes_eq, length, Option, none, some,
  List, [], ◌∷◌, ◌++◌,
}
use harmonic.Text.{Bytes, codes}
use harmonic.Text.Trim.{trim}
use harmonic.Path.{FilePath, Component, normal, as_os_str}
use harmonic.Error.{Outcome, ok, err, unfinished, not_found, invalid_input_error, ◌>>=◌}
use harmonic.Io.{Io, done, failed}
use harmonic.Io
use harmonic.Config.Load.{config_dir_path}
use harmonic.Config.Address.{Hosts}
use harmonic.Net.{SocketAddr, read_digits, parse_addr, show_addr, set_port}
use harmonic.State.Generate.{Entry, unwrap_or_false}
use harmonic.Storage.{Contents, Faults, Stored, then_on, write}

unfoldable pub get_cert_path : FilePath
unfolding config_dir_path
get_cert_path = config_dir_path ++ normal (codes "server.crt") ∷ []

-- `file_name`, as far as the walk needs it: the last component, where it is a name.
abbrev pub file_name : FilePath → Option Bytes
file_name [] = none
file_name (normal name ∷ []) = some name
file_name (c ∷ []) = none
file_name (c ∷ d ∷ path) = file_name (d ∷ path)

abbrev pub is_name : Bytes → Option Bytes → Bool
is_name wanted none = false
is_name wanted (some name) = bytes_eq name wanted

abbrev pub is_server_crt : Entry → Bool
is_server_crt e = unwrap_or_false e.is_file && is_name (codes "server.crt") (file_name e.path)

-- The loop of `load_cert` over the walk, an element of which may be an error: the first file of that
-- name that can be read.
unfoldable pub first_readable : (FilePath → Io Bytes) → List (Option Entry) → Option Bytes
first_readable read [] = none
first_readable read (none ∷ entries) = first_readable read entries
first_readable read (some e ∷ entries) =
    let rest = first_readable read entries in
    if is_server_crt e
    then elim (read e.path) [ done pem ↦ some pem | Io.not_found ↦ rest | failed message ↦ rest ]
    else rest

abbrev pub or_not_found : Option Bytes → Outcome Bytes
or_not_found none = err (not_found (codes "server.crt certificate file"))
or_not_found (some pem) = ok pem

-- `load_cert`; a `Certificate` is its PEM.
unfoldable pub load_cert : (FilePath → List (Option Entry)) → (FilePath → Io Bytes) → Outcome Bytes
unfolding first_readable
load_cert walk read = or_not_found (first_readable read (walk get_cert_path))

-- What `read_line` puts into the cleared buffer on its n-th call; `none` is an error.
abbrev pub Stdin : Type 0
Stdin = ℕ → Option Bytes

-- A value that a dialogue ends with, and the number of the next line.
abbrev pub Read {ℓ} : Type ℓ → Type ℓ
Read A = A × ℕ

-- The loop of both dialogues, from the n-th line on: a line that cannot be read or is not accepted is
-- asked for again. Each round of fuel reads a line.
unfoldable pub ask_until {ℓ} : {A : Type ℓ} → (Bytes → Option A) → ℕ → Stdin → ℕ → Outcome (Read A)
ask_until accept zero stdin n = unfinished
ask_until accept (suc fuel) stdin n =
    let again = ask_until accept fuel stdin (suc n) in
    elim (stdin n) [
      | none ↦ again
      | some line ↦ elim (accept line) [ some answer ↦ ok (answer, suc n) | none ↦ again ]
    ]

unfoldable pub otp_in : Bytes → Option Bytes
otp_in line = if length (trim line) == 64 then some (trim line) else none

unfoldable pub get_user_input_for_otp : ℕ → Stdin → ℕ → Outcome (Read Bytes)
get_user_input_for_otp fuel stdin n = ask_until otp_in fuel stdin n

abbrev pub whole_number : ℕ → ℕ → Bytes → Option ℕ
whole_number value count [] = if count == 0 then none else some value
whole_number value count (b ∷ rest) = none

abbrev pub all_digits : Bytes → Option ℕ
all_digits text = elim (read_digits 65535 none 0 0 text) [
  | none ↦ none
  | some number ↦ whole_number number.value number.count number.rest
]

-- `u16::from_str`: an optional plus and digits.
unfoldable pub parse_u16 : Bytes → Option ℕ
parse_u16 [] = none
parse_u16 (b ∷ text) = if b == b'+' then all_digits text else all_digits (b ∷ text)

abbrev pub default_or_u16 : Bytes → Option ℕ
default_or_u16 [] = some 42070
default_or_u16 (b ∷ text) = parse_u16 (b ∷ text)

-- The `match` on the trimmed line.
unfoldable pub port_in : Bytes → Option ℕ
port_in line = default_or_u16 (trim line)

unfoldable pub get_user_input_for_bootstrap_server_port : ℕ → Stdin → ℕ → Outcome (Read ℕ)
get_user_input_for_bootstrap_server_port fuel stdin n = ask_until port_in fuel stdin n

abbrev pub or_invalid_input {ℓ} : {A : Type ℓ} → Option A → Outcome A
or_invalid_input none = err invalid_input_error
or_invalid_input (some a) = ok a

unfoldable pub format_bootstrap_address : Hosts → Bytes → ℕ → Outcome Bytes
format_bootstrap_address hosts server_address port =
    or_invalid_input (parse_addr hosts.read_host server_address) >>= λ addr.
    ok (codes "http://" ++ show_addr hosts.show_host (set_port port addr))

-- What is asked for: where to connect, and the password.
unfoldable pub asked : Hosts → ℕ → Stdin → Bytes → Outcome (Bytes × Bytes)
asked hosts fuel stdin server_address = get_user_input_for_otp fuel stdin 0 >>= λ otp.
    get_user_input_for_bootstrap_server_port fuel stdin otp.1 >>= λ port.
    format_bootstrap_address hosts server_address port.0 >>= λ uri. ok (uri, otp.0)

-- `bootstrap_from_server`. `get_certificate` is the connection to an address and the request with a
-- password.
unfoldable pub bootstrap_from_server :
    Hosts → ℕ → Stdin → (Bytes → Bytes → Outcome Bytes) → Faults → Bytes → Stored Bytes
bootstrap_from_server hosts fuel stdin get_certificate faults server_address disk =
    then_on (asked hosts fuel stdin server_address, disk)
      (λ request disk1.
        then_on (get_certificate request.0 request.1, disk1)
          (λ pem_bytes disk2.
            then_on (write faults get_cert_path pem_bytes disk2)
              (λ wrote disk3. (ok pem_bytes, disk3))))
