-- ===== src/Client/Cert.antt =====
-- src/bin/client.rs: the certificate that the process keeps, and where it comes from.
pub mod Held
use harmonic.Prelude.{ℕ, Bool, true, false, if◌then◌else◌, Option, none, some, List}
use harmonic.Text.{Bytes}
use harmonic.Path.{FilePath}
use harmonic.Error.{Outcome, ok, err, panicked, unfinished}
use harmonic.Config.Address.{Hosts}
use harmonic.State.Generate.{Entry}
use harmonic.Storage.{Contents, Faults, Stored, read}
use harmonic.Client.Security.{Stdin, load_cert, bootstrap_from_server}

-- `CERT` and `FORCE_BOOTSTRAP`.
pub record Process : Type 0 where
  pub cert : Option Bytes
  pub force_bootstrap : Bool

-- A process that has no certificate yet: with `--bootstrap` or not.
abbrev pub started : Bool → Process
started bootstrap = record { cert = none; force_bootstrap = bootstrap }

-- What a call meets: the lines that the user enters from then on, and how many are read; the
-- service, by address and password; what the disk refuses, and how it is walked.
pub record Surroundings : Type 0 where
  pub fuel : ℕ
  pub stdin : Stdin
  pub get_certificate : Bytes → Bytes → Outcome Bytes
  pub faults : Faults
  pub walk : Contents → FilePath → List (Option Entry)

-- `expect`
abbrev pub expect {ℓ} : {A : Type ℓ} → Outcome A × Contents → Outcome A × Contents
expect (ok a, disk) = (ok a, disk)
expect (err e, disk) = (panicked, disk)
expect (panicked, disk) = (panicked, disk)
expect (unfinished, disk) = (unfinished, disk)

unfoldable pub bootstrapped : Hosts → Bytes → Surroundings → Stored Bytes
bootstrapped hosts server_address s disk =
    expect
      (bootstrap_from_server hosts s.fuel s.stdin s.get_certificate s.faults server_address disk)

abbrev pub loaded : Surroundings → Contents → Outcome Bytes
loaded s disk = load_cert (s.walk disk) (λ path. read s.faults path disk)

-- The `match` on the file: else the server.
abbrev pub or_bootstrapped :
    Outcome Bytes → Contents → Outcome Bytes × Contents → Outcome Bytes × Contents
or_bootstrapped (ok pem) disk bootstrapping = (ok pem, disk)
or_bootstrapped (err e) disk bootstrapping = bootstrapping
or_bootstrapped panicked disk bootstrapping = (panicked, disk)
or_bootstrapped unfinished disk bootstrapping = (unfinished, disk)

-- The branch without the flag.
unfoldable pub load_or_bootstrap : Hosts → Bytes → Surroundings → Stored Bytes
load_or_bootstrap hosts server_address s disk =
    or_bootstrapped (loaded s disk) disk (bootstrapped hosts server_address s disk)

-- `get_or_init`, with the flag that the initialisation leaves: only a value is kept, and a panic
-- leaves the cell empty, and comes before the flag is stored.
abbrev pub keep : Bool → Process → Outcome Bytes × Contents → Outcome Bytes × Process × Contents
keep flag p (ok pem, disk) = (ok pem, record { cert = some pem; force_bootstrap = flag }, disk)
keep flag p (err e, disk) = (err e, p, disk)
keep flag p (panicked, disk) = (panicked, p, disk)
keep flag p (unfinished, disk) = (unfinished, p, disk)

unfoldable pub get_cert :
    Hosts → Bytes → Surroundings → Process → Contents → Outcome Bytes × Process × Contents
get_cert hosts server_address s p disk = elim p.cert [
  | some pem ↦ (ok pem, p, disk)
  | none ↦
      if p.force_bootstrap
      then keep false p (bootstrapped hosts server_address s disk)
      else keep p.force_bootstrap p (load_or_bootstrap hosts server_address s disk)
]
