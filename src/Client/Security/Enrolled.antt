-- ===== src/Client/Security/Enrolled.antt =====
-- A client that gets its certificate from the bootstrap service, and its next start.
use harmonic.Prelude.{
  ℕ, suc, ◌-◌, ◌≤◌, true, ltb, ltb-false, bytes_eq, bytes_eq_refl, bytes_eq_sound, length, Option,
  none, some, List, [], ◌∷◌, ◌++◌, ◌≡◌, ◌≢◌, refl, ap, ◌∙◌, Bool-cases, inl, inr,
}
use harmonic.Text.{Bytes, codes}
use harmonic.Text.Trim.{trim}
use harmonic.Path.{FilePath}
use harmonic.Path.Keys.{path_ord}
use harmonic.Error.{Outcome, ok, err, HarmonicError, grpc_status}
use harmonic.Io.{Io, done}
use harmonic.Config.Address.{Hosts}
use harmonic.Net.{SocketAddr, parse_addr, show_addr, set_port}
use harmonic.State.Generate.{Entry}
use harmonic.BTree.{insert}
use harmonic.BTree.Laws.{get-insert_same}
use harmonic.Storage.{Contents, Faults, read, write}
use harmonic.Storage.Laws.{read-get}
use harmonic.Bootstrap.{
  BootstrapService, Reply, certificate, internal, deadline_exceeded, permission_denied, new,
  otp_lifetime, get_certificate,
}
use harmonic.Client.Security.{
  get_cert_path, load_cert, Stdin, otp_in, get_user_input_for_otp, port_in,
  get_user_input_for_bootstrap_server_port, format_bootstrap_address, asked, bootstrap_from_server,
}
use harmonic.Client.Security.Dialogues.{otp_in-full, ask_until-hit}

-- What the client gets for a reply.
abbrev pub answer_of : Reply → Outcome Bytes
answer_of (certificate pem) = ok pem
answer_of (internal message) = err (grpc_status message)
answer_of deadline_exceeded = err (grpc_status [])
answer_of permission_denied = err (grpc_status [])

-- A connection that reaches a service, at an instant.
abbrev pub reach : (FilePath → Io Bytes) → ℕ → BootstrapService → Bytes → Outcome Bytes
reach files now service otp = answer_of (get_certificate files now otp service).0

granted :
    (files : FilePath → Io Bytes) (cert_path : FilePath) (otp pem : Bytes) (created now : ℕ)
    → now - created ≤ otp_lifetime
    → files cert_path ≡ done pem
    → (get_certificate files now otp (new cert_path otp created)).0 ≡ certificate pem
unfolding get_certificate new
granted files cert_path otp pem created now in_time holds =
    rw (ltb-false otp_lifetime (now - created) in_time) (rw (bytes_eq_refl otp) (rw holds refl))

denied :
    (files : FilePath → Io Bytes) (cert_path : FilePath) (otp other : Bytes) (created now : ℕ)
    → otp ≢ other
    → answer_of (get_certificate files now other (new cert_path otp created)).0
      ≡ err (grpc_status [])
unfolding get_certificate new
denied files cert_path otp other created now differs =
    elim (Bool-cases (ltb otp_lifetime (now - created))) [
      | inl late ↦ rw late refl
      | inr in_time ↦ elim (Bool-cases (bytes_eq otp other)) [
        | inl same ↦ absurd (differs (bytes_eq_sound otp other same))
        | inr unlike ↦ rw in_time (rw unlike refl)
      ]
    ]

loads :
    (walk : FilePath → List (Option Entry)) (files : FilePath → Io Bytes) (pem : Bytes)
    → walk get_cert_path ≡ some (record { path = get_cert_path; is_file = some true }) ∷ []
    → files get_cert_path ≡ done pem
    → load_cert walk files ≡ ok pem
unfolding load_cert get_cert_path bytes_eq
loads walk files pem walked holds = rw walked (rw holds refl)

module _ (hosts : Hosts) (fuel : ℕ) (stdin : Stdin) (server_address otp_line port_line : Bytes)
    (port : ℕ) (addr : SocketAddr hosts.Host)
    (parsed : parse_addr hosts.read_host server_address ≡ some addr)
    (first_line : stdin 0 ≡ some otp_line) (full : length (trim otp_line) ≡ 64)
    (second_line : stdin 1 ≡ some port_line) (accepted : port_in port_line ≡ some port) where
  -- Where the client connects.
  abbrev uri : Bytes
  uri = codes "http://" ++ show_addr hosts.show_host (set_port port addr)

  asks : asked hosts (suc fuel) stdin server_address ≡ ok (uri, trim otp_line)
  unfolding asked get_user_input_for_otp get_user_input_for_bootstrap_server_port
      format_bootstrap_address
  asks =
      rw
        (ask_until-hit otp_in stdin fuel 0 (trim otp_line)
          (rw first_line (otp_in-full otp_line full)))
        (rw (ask_until-hit port_in stdin fuel 1 port (rw second_line accepted)) (rw parsed refl))

  module _ (faults : Faults) (connect : Bytes → Bytes → Outcome Bytes) (disk : Contents) where
    abbrev run : Outcome Bytes × Contents
    run = bootstrap_from_server hosts (suc fuel) stdin connect faults server_address disk

    answered :
        (pem : Bytes)
        → connect uri (trim otp_line) ≡ ok pem
        → faults.writes get_cert_path ≡ none
        → run ≡ (ok pem, insert get_cert_path pem disk)
    unfolding bootstrap_from_server write
    answered pem e h = rw asks (rw e (rw (h, write) refl))

    unanswered :
        (error : HarmonicError) → connect uri (trim otp_line) ≡ err error → run ≡ (err error, disk)
    unfolding bootstrap_from_server
    unanswered error e = rw asks (rw e refl)

-- What a client has after it asked for the certificate, and what its next start loads.
pub record Enrolled (hosts : Hosts) (stdin : Stdin) (connect : Bytes → Bytes → Outcome Bytes)
    (faults later : Faults) (walk : FilePath → List (Option Entry)) (server_address pem : Bytes)
    (fuel : ℕ) (disk : Contents) : Type 0 where
  pub returns :
      bootstrap_from_server hosts fuel stdin connect faults server_address disk
      ≡ (ok pem, insert get_cert_path pem disk)
  pub loads_again :
      load_cert walk (λ path. read later path (insert get_cert_path pem disk)) ≡ ok pem

-- Let a bootstrap service be made with a password of 64 bytes, and its certificate file be readable.
-- Let the user of a client enter that password and then a port, for a server address that parses,
-- and let that address with that port reach the service within 300 seconds. If the disk takes the file,
-- the client gets the server's certificate file, byte for byte, and stores it; and the
-- next start, which can read it and walks to it alone, loads the same.
pub bootstrap_from_server-Enrolled :
    (hosts : Hosts) (fuel : ℕ) (stdin : Stdin) (connect : Bytes → Bytes → Outcome Bytes)
    (faults later : Faults) (walk : FilePath → List (Option Entry)) (files : FilePath → Io Bytes)
    (server_address otp_line port_line pem : Bytes) (port created now : ℕ)
    (addr : SocketAddr hosts.Host) (cert_path : FilePath) (disk : Contents)
    → parse_addr hosts.read_host server_address ≡ some addr
    → stdin 0 ≡ some otp_line
    → length (trim otp_line) ≡ 64
    → stdin 1 ≡ some port_line
    → port_in port_line ≡ some port
    → connect (codes "http://" ++ show_addr hosts.show_host (set_port port addr)) (trim otp_line)
      ≡ reach files now (new cert_path (trim otp_line) created) (trim otp_line)
    → now - created ≤ otp_lifetime
    → files cert_path ≡ done pem
    → faults.writes get_cert_path ≡ none
    → later.reads get_cert_path ≡ none
    → walk get_cert_path ≡ some (record { path = get_cert_path; is_file = some true }) ∷ []
    → Enrolled hosts stdin connect faults later walk server_address pem (suc fuel) disk
bootstrap_from_server-Enrolled hosts fuel stdin connect faults later walk files server_address
      otp_line port_line pem port created now addr cert_path disk parsed first_line full second_line
      accepted reaches in_time holds writes reads walked =
    record {
      returns =
          answered hosts fuel stdin server_address otp_line port_line port addr parsed first_line
            full second_line accepted faults connect disk pem
            (reaches
              ∙ ap answer_of
                  (granted files cert_path (trim otp_line) pem created now in_time holds))
            writes;
      loads_again =
          loads walk (λ path. read later path (insert get_cert_path pem disk)) pem walked
            (read-get later get_cert_path pem (insert get_cert_path pem disk) reads
              (get-insert_same get_cert_path pem disk)).0;
    }

-- With a password that is not the service's, the client ends with the error of the request,
-- whether the password is still good or not, and its disk is as before.
pub bootstrap_from_server-denied :
    (hosts : Hosts) (fuel : ℕ) (stdin : Stdin) (connect : Bytes → Bytes → Outcome Bytes)
    (faults : Faults) (files : FilePath → Io Bytes) (server_address otp_line port_line otp : Bytes)
    (port created now : ℕ) (addr : SocketAddr hosts.Host) (cert_path : FilePath) (disk : Contents)
    → parse_addr hosts.read_host server_address ≡ some addr
    → stdin 0 ≡ some otp_line
    → length (trim otp_line) ≡ 64
    → stdin 1 ≡ some port_line
    → port_in port_line ≡ some port
    → connect (codes "http://" ++ show_addr hosts.show_host (set_port port addr)) (trim otp_line)
      ≡ reach files now (new cert_path otp created) (trim otp_line)
    → otp ≢ trim otp_line
    → bootstrap_from_server hosts (suc fuel) stdin connect faults server_address disk
      ≡ (err (grpc_status []), disk)
bootstrap_from_server-denied hosts fuel stdin connect faults files server_address otp_line port_line
      otp port created now addr cert_path disk parsed first_line full second_line accepted reaches
      differs =
    unanswered hosts fuel stdin server_address otp_line port_line port addr parsed first_line full
      second_line accepted faults connect disk (grpc_status [])
      (reaches ∙ denied files cert_path otp (trim otp_line) created now differs)
