-- ===== src/Bootstrap.antt =====
-- `BootstrapService` of src/server/bootstrap.rs. Instants are nanoseconds; the lock makes each
-- request one step.
pub mod Once
use harmonic.Prelude.{
  ℕ, ◌-◌, ◌*◌, ◌^◌, ltb, if◌then◌else◌, bytes_eq, Option, none, some, List, [], ◌∷◌,
}
use harmonic.Text.{Bytes}
use harmonic.Path.{FilePath}
use harmonic.Io.{Io, done, not_found, failed}

pub record BootstrapService : Type 0 where
  pub otp : Option (Bytes × ℕ)
  pub cert_path : FilePath

-- The responses and the statuses.
pub data Reply : Type 0 where
  certificate : Bytes → Reply
  internal : Bytes → Reply
  deadline_exceeded permission_denied : Reply

unfoldable pub new : FilePath → Bytes → ℕ → BootstrapService
new cert_path otp now = record { otp = some (otp, now); cert_path = cert_path }

-- `Duration::from_secs(300)`
abbrev pub otp_lifetime : ℕ
otp_lifetime = 300 * 10 ^ 9

abbrev pub spent : BootstrapService → BootstrapService
spent service = record service { otp = none }

abbrev pub cert_reply : Io Bytes → Reply
cert_reply (done bytes) = certificate bytes
cert_reply not_found = internal []
cert_reply (failed message) = internal message

-- `get_certificate`, at the instant `now`. `duration_since` is zero for a later instant.
unfoldable pub get_certificate :
    (FilePath → Io Bytes) → ℕ → Bytes → BootstrapService → Reply × BootstrapService
get_certificate read now received_otp service = elim service.otp [
  | none ↦ (permission_denied, service)
  | some saved ↦
      if ltb otp_lifetime (now - saved.1)
      then (deadline_exceeded, spent service)
      else if bytes_eq saved.0 received_otp
      then (cert_reply (read service.cert_path), spent service)
      else (permission_denied, service)
]

-- The requests that a service gets, each with its instant, and the replies.
unfoldable pub serve : (FilePath → Io Bytes) → List (ℕ × Bytes) → BootstrapService → List Reply
serve read [] service = []
serve read (request ∷ requests) service =
    let answered = get_certificate read request.0 request.1 service in
    answered.0 ∷ serve read requests answered.1
