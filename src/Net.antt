-- ===== src/Net.antt =====
-- `SocketAddr` of std::net with its text, as src/sync/config.rs, src/client/security.rs,
-- src/server/config.rs and src/bin/server.rs use it. The text of an IPv6 host, which stands between
-- brackets, is left to the functions `read_host` and `show_host`.
pub mod Digits
pub mod RoundTrip
use harmonic.Prelude.{
  ℕ, zero, suc, ◌+◌, ◌-◌, ◌*◌, ◌/◌, ◌%◌, Bool, true, false, not, ◌&&◌, ltb, leb, ◌==◌,
  if◌then◌else◌,
}
use harmonic.Prelude.{Option, none, some, List, [], ◌∷◌, ◌++◌}
use harmonic.Text.{Bytes}

abbrev pub is_digit : ℕ → Bool
is_digit b = leb b'0' b && leb b b'9'

-- `Display` of an unsigned number, on fuel: each round takes a digit.
unfoldable pub digits : ℕ → ℕ → Bytes
digits zero n = []
digits (suc fuel) n =
    let rest = digits fuel (n / 10) in
    if ltb n 10 then (b'0' + n) ∷ [] else rest ++ (b'0' + n % 10) ∷ []

unfoldable pub show : ℕ → Bytes
unfolding digits
show n = digits (suc n) n

-- The loop of `Parser::read_number`: the value and the number of the digits, up to the first other
-- byte. A value above the limit of the type, or a digit too many, is a failure.
unfoldable pub read_digits :
    ℕ → Option ℕ → ℕ → ℕ → Bytes → Option (record { value : ℕ; count : ℕ; rest : Bytes })
read_digits limit max value count [] = some (record { value = value; count = count; rest = [] })
read_digits limit max value count (b ∷ text) =
    let value' = value * 10 + (b - b'0') in
    let more = read_digits limit max value' (suc count) text in
    if is_digit b
    then if ltb limit value'
      then none
      else elim max [ none ↦ more | some most ↦ if ltb most (suc count) then none else more ]
    else some (record { value = value; count = count; rest = b ∷ text })

abbrev pub has_leading_zero : Bytes → Bool
has_leading_zero [] = false
has_leading_zero (b ∷ text) = b == b'0'

-- `Parser::read_number` in base ten.
unfoldable pub read_number : ℕ → Option ℕ → Bool → Bytes → Option (ℕ × Bytes)
unfolding read_digits
read_number limit max_digits allow_zero_prefix text = elim (read_digits limit max_digits 0 0 text) [
  | none ↦ none
  | some number ↦
      if number.count == 0
      then none
      else if not allow_zero_prefix && (has_leading_zero text && ltb 1 number.count)
      then none
      else some (number.value, number.rest)
]

abbrev pub read_octet : Bytes → Option (ℕ × Bytes)
read_octet text = read_number 255 (some 3) false text

abbrev pub then_read {ℓ κ} :
    {A : Type ℓ} {B : Type κ} → Option (A × Bytes) → (A → Bytes → Option B) → Option B
then_read none next = none
then_read (some (a, text)) next = next a text

-- `Parser::read_given_char`
abbrev pub behind_char {ℓ} : {B : Type ℓ} → ℕ → Bytes → (Bytes → Option B) → Option B
behind_char c [] next = none
behind_char c (b ∷ text) next = if b == c then next text else none

abbrev pub read_port : Bytes → Option (ℕ × Bytes)
read_port text = behind_char b':' text (read_number 65535 none true)

pub record Ipv4Addr : Type 0 where
  pub first : ℕ
  pub second : ℕ
  pub third : ℕ
  pub fourth : ℕ

unfoldable pub read_ipv4_addr : Bytes → Option (Ipv4Addr × Bytes)
read_ipv4_addr text = then_read (read_octet text) (λ a text1.
    then_read (behind_char b'.' text1 read_octet) (λ b text2.
      then_read (behind_char b'.' text2 read_octet) (λ c text3.
        then_read (behind_char b'.' text3 read_octet)
          (λ d text4. some (record { first = a; second = b; third = c; fourth = d }, text4)))))

pub data SocketAddr (Host : Type 0) : Type 0 where
  v4 : Ipv4Addr → ℕ → SocketAddr Host
  v6 : Host → ℕ → SocketAddr Host

-- The text in front of the closing bracket, and behind it.
unfoldable pub up_to_bracket : Bytes → Option (Bytes × Bytes)
up_to_bracket [] = none
up_to_bracket (b ∷ text) =
    let rest = up_to_bracket text in
    if b == b']' then some ([], text) else then_read rest (λ host behind. some (b ∷ host, behind))

abbrev pub with_host {ℓ κ} : {A : Type ℓ} {B : Type κ} → Option A → (A → Option B) → Option B
with_host none next = none
with_host (some host) next = next host

-- `parse_with`: nothing may be left.
abbrev pub at_end {ℓ} : {A : Type ℓ} → Option (A × Bytes) → Option A
at_end none = none
at_end (some (a, [])) = some a
at_end (some (a, b ∷ text)) = none

abbrev pub or_else {ℓ} : {A : Type ℓ} → Option A → Option A → Option A
or_else none second = second
or_else (some a) second = some a

unfoldable pub set_port : {Host : Type 0} → ℕ → SocketAddr Host → SocketAddr Host
set_port port (v4 ip old) = v4 ip port
set_port port (v6 host old) = v6 host port

unfoldable pub port_of : {Host : Type 0} → SocketAddr Host → ℕ
port_of (v4 ip port) = port
port_of (v6 host port) = port

unfoldable pub read_socket_addr_v4 : {Host : Type 0} → Bytes → Option (SocketAddr Host × Bytes)
read_socket_addr_v4 text =
    then_read (read_ipv4_addr text)
      (λ ip text1. then_read (read_port text1) (λ port rest. some (v4 ip port, rest)))

unfoldable pub read_socket_addr_v6 :
    {Host : Type 0} → (Bytes → Option Host) → Bytes → Option (SocketAddr Host × Bytes)
read_socket_addr_v6 read_host text = behind_char b'[' text (λ text1.
    then_read (up_to_bracket text1) (λ inner text2.
      with_host (read_host inner)
        (λ host. then_read (read_port text2) (λ port rest. some (v6 host port, rest)))))

-- `SocketAddr::from_str`
unfoldable pub parse_addr :
    {Host : Type 0} → (Bytes → Option Host) → Bytes → Option (SocketAddr Host)
parse_addr read_host text =
    at_end (or_else (read_socket_addr_v4 text) (read_socket_addr_v6 read_host text))

abbrev pub show_ipv4 : Ipv4Addr → Bytes → Bytes
show_ipv4 ip rest =
    show ip.first
    ++ b'.' ∷ (show ip.second ++ b'.' ∷ (show ip.third ++ b'.' ∷ (show ip.fourth ++ rest)))

-- `Display` of a socket address.
unfoldable pub show_addr : {Host : Type 0} → (Host → Bytes) → SocketAddr Host → Bytes
show_addr show_host (v4 ip port) = show_ipv4 ip (b':' ∷ show port)
show_addr show_host (v6 host port) = b'[' ∷ (show_host host ++ b']' ∷ b':' ∷ show port)
