-- ===== src/Net/RoundTrip.antt =====
-- The text of a socket address is parsed to the address, by std::net.
use harmonic.Prelude.{ℕ, ◌≤◌, Bool, true, false, ◌==◌, if◌then◌else◌}
use harmonic.Prelude.{Option, none, some, [], ◌∷◌, ◌++◌, append-nil}
use harmonic.Prelude.{◌≡◌, ◌⊎◌, refl, sym, ap, ◌∙◌}
use harmonic.Prelude.{Bool-cases, Option-cases, inl, inr}
use harmonic.Text.{Bytes}
use harmonic.Net.{
  show, read_number, read_octet, then_read, read_port, Ipv4Addr, read_ipv4_addr, SocketAddr, v4, v6,
  up_to_bracket, at_end, or_else, port_of, read_socket_addr_v4, read_socket_addr_v6, parse_addr,
  show_ipv4, show_addr,
}
use harmonic.Net.Digits.{read_number-show, read_number-le, width_octet}

-- A text without a closing bracket.
abbrev pub no_bracket : Bytes → Bool
no_bracket [] = true
no_bracket (b ∷ text) = if b == b']' then false else no_bracket text

-- An address whose parts fit their types, and whose host, for IPv6, is read back from its text.
abbrev pub IsAddress :
    {Host : Type 0} → (Bytes → Option Host) → (Host → Bytes) → SocketAddr Host → Type 0
IsAddress read_host show_host (v4 ip port) =
    (ip.first ≤ 255) × (ip.second ≤ 255) × (ip.third ≤ 255) × (ip.fourth ≤ 255) × (port ≤ 65535)
IsAddress read_host show_host (v6 host port) =
    (read_host (show_host host) ≡ some host) × (no_bracket (show_host host) ≡ true) × (port ≤ 65535)

read_octet-show :
    (n b : ℕ) (rest : Bytes)
    → n ≤ 255
    → (b ≡ b'.') ⊎ (b ≡ b':')
    → read_octet (show n ++ b ∷ rest) ≡ some (n, b ∷ rest)
read_octet-show n b rest h (inl e) =
    read_number-show n 255 (some 3) false (b ∷ rest) h (width_octet n h) (rw e refl)
read_octet-show n b rest h (inr e) =
    read_number-show n 255 (some 3) false (b ∷ rest) h (width_octet n h) (rw e refl)

read_port-show : (port : ℕ) → port ≤ 65535 → read_port (b':' ∷ show port) ≡ some (port, [])
read_port-show port h =
    ap (λ text. read_number 65535 none true text) (sym (append-nil (show port)))
    ∙ read_number-show port 65535 none true [] h tt refl

read_ipv4_addr-show :
    (ip : Ipv4Addr) (rest : Bytes)
    → ip.first ≤ 255
    → ip.second ≤ 255
    → ip.third ≤ 255
    → ip.fourth ≤ 255
    → read_ipv4_addr (show_ipv4 ip (b':' ∷ rest)) ≡ some (ip, b':' ∷ rest)
unfolding read_ipv4_addr
read_ipv4_addr-show ip rest a b c d = rw (read_octet-show ip.first b'.' _ a (inl refl)) (
    rw (read_octet-show ip.second b'.' _ b (inl refl)) (
      rw (read_octet-show ip.third b'.' _ c (inl refl))
        (rw (read_octet-show ip.fourth b':' rest d (inr refl)) refl)))

up_to_bracket-append :
    (host rest : Bytes)
    → no_bracket host ≡ true
    → up_to_bracket (host ++ b']' ∷ rest) ≡ some (host, rest)
unfolding up_to_bracket
up_to_bracket-append [] rest h = refl
up_to_bracket-append (b ∷ host) rest h = elim (Bool-cases (b == b']')) [
  | inl bracket ↦ let h' = rw bracket at h in cc
  | inr other ↦ let h' = rw other at h in rw (other) (rw (up_to_bracket-append host rest h') refl)
]

-- A digit is no opening bracket, so that an IPv6 address is none of IPv4.
read_ipv4-bracket : (rest : Bytes) → read_ipv4_addr (b'[' ∷ rest) ≡ none
unfolding read_ipv4_addr read_number
read_ipv4-bracket rest = refl

-- The text of an address with a port of 16 bits, octets of 8 bits, and, for IPv6, a host that is
-- read back from its text, which has no closing bracket, is parsed to that address.
pub parse_addr-show_addr :
    {Host : Type 0} (read_host : Bytes → Option Host) (show_host : Host → Bytes)
    (addr : SocketAddr Host)
    → IsAddress read_host show_host addr
    → parse_addr read_host (show_addr show_host addr) ≡ some addr
unfolding parse_addr show_addr read_socket_addr_v4 read_socket_addr_v6
parse_addr-show_addr read_host show_host (v4 ip port) h =
    rw (read_ipv4_addr-show ip (show port) h.0 h.1 h.2 h.3) (rw (read_port-show port h.4) refl)
parse_addr-show_addr read_host show_host (v6 host port) h = rw (read_ipv4-bracket _) (
    rw (up_to_bracket-append (show_host host) (b':' ∷ show port) h.1)
      (rw (h.0) (rw (read_port-show port h.2) refl)))

read_port-le :
    (text : Bytes) (port : ℕ) (rest : Bytes) → read_port text ≡ some (port, rest) → port ≤ 65535
read_port-le [] port rest e = cc
read_port-le (b ∷ text) port rest e = elim (Bool-cases (b == b':')) [
  | inl colon ↦ let e' = rw colon at e in read_number-le 65535 none true text port rest e'
  | inr other ↦ let e' = rw other at e in cc
]

module _ {Host : Type 0} where
  with_port-le :
      (f : ℕ → SocketAddr Host) (text : Bytes) (addr : SocketAddr Host) (rest : Bytes)
      → ((port : ℕ) → port_of (f port) ≡ port)
      → then_read {B = SocketAddr Host × Bytes}
          (read_port text)
          (λ port rest'. some (f port, rest'))
        ≡ some (addr, rest)
      → port_of addr ≤ 65535
  with_port-le f text addr rest same e = elim (Option-cases (read_port text)) [
    | inl failed ↦ let e' = rw failed at e in cc
    | inr ((port, rest'), found) ↦
        let e' = rw found at e in
        let low = read_port-le text port rest' found in
        let to : addr ≡ f port = cc in rw to (rw (same port) low)
  ]

  read_v4-le :
      (text : Bytes) (addr : SocketAddr Host) (rest : Bytes)
      → read_socket_addr_v4 text ≡ some (addr, rest)
      → port_of addr ≤ 65535
  unfolding read_socket_addr_v4 port_of
  read_v4-le text addr rest e = elim (Option-cases (read_ipv4_addr text)) [
    | inl failed ↦ let e' = rw failed at e in cc
    | inr ((ip, text1), found) ↦
        let e' = rw found at e in
        with_port-le (λ port. v4 ip port) text1 addr rest (λ port. refl) e'
  ]

  read_v6-le :
      (read_host : Bytes → Option Host) (text : Bytes) (addr : SocketAddr Host) (rest : Bytes)
      → read_socket_addr_v6 read_host text ≡ some (addr, rest)
      → port_of addr ≤ 65535
  unfolding read_socket_addr_v6 port_of
  read_v6-le read_host [] addr rest e = cc
  read_v6-le read_host (b ∷ text) addr rest e = elim (Bool-cases (b == b'[')) [
    | inr other ↦ let e' = rw other at e in cc
    | inl opening ↦
        let e1 = rw opening at e in
        elim (Option-cases (up_to_bracket text)) [
          | inl failed ↦ let e2 = rw failed at e1 in cc
          | inr ((inner, text2), closed) ↦
              let e2 = rw closed at e1 in
              elim (Option-cases (read_host inner)) [
                | inl no_host ↦ let e3 = rw no_host at e2 in cc
                | inr (host, read) ↦
                    let e3 = rw read at e2 in
                    with_port-le (λ port. v6 host port) text2 addr rest (λ port. refl) e3
              ]
        ]
  ]

  at_end-some :
      (result : Option (SocketAddr Host × Bytes)) (addr : SocketAddr Host)
      → at_end result ≡ some addr
      → result ≡ some (addr, [])
  at_end-some none addr e = cc
  at_end-some (some (found, [])) addr e = let same : found ≡ addr = cc in rw same refl
  at_end-some (some (found, b ∷ text)) addr e = cc

  -- The port of a parsed address has 16 bits.
  pub parse_addr-port :
      (read_host : Bytes → Option Host) (text : Bytes) (addr : SocketAddr Host)
      → parse_addr read_host text ≡ some addr
      → port_of addr ≤ 65535
  unfolding parse_addr
  parse_addr-port read_host text addr e =
      let whole =
        at_end-some (or_else (read_socket_addr_v4 text) (read_socket_addr_v6 read_host text)) addr
          e in
      elim (Option-cases (read_socket_addr_v4 {Host = Host} text)) [
        | inl failed ↦ let w = rw failed at whole in read_v6-le read_host text addr [] w
        | inr (found, e4) ↦ let w = rw e4 at whole in read_v4-le text addr [] (e4 ∙ w)
      ]
