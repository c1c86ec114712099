-- ===== src/Bootstrap/Once.antt =====
-- The one-time password of src/server/bootstrap.rs is good for one request.
use harmonic.Prelude.{ℕ, ◌+◌, ◌-◌, ◌≤◌, ltb, bytes_eq, bytes_eq_sound}
use harmonic.Prelude.{Option, none, some, List, [], ◌∷◌, ◌≡◌, refl, sym, ap, arith}
use harmonic.Prelude.{Bool-cases, Option-cases, inl, inr, ltb-false_le}
use harmonic.Text.{Bytes}
use harmonic.Path.{FilePath}
use harmonic.Io.{Io, done, not_found, failed}
use harmonic.Bootstrap.{
  BootstrapService, Reply, certificate, internal, deadline_exceeded, permission_denied,
  otp_lifetime, cert_reply, get_certificate, serve,
}

-- How many of the replies carry a certificate.
abbrev pub is_certificate : Reply → ℕ
is_certificate (certificate bytes) = 1
is_certificate (internal message) = 0
is_certificate deadline_exceeded = 0
is_certificate permission_denied = 0

unfoldable pub certificates : List Reply → ℕ
certificates [] = 0
certificates (r ∷ replies) = is_certificate r + certificates replies

serve-spent :
    (read : FilePath → Io Bytes) (requests : List (ℕ × Bytes)) (service : BootstrapService)
    → service.otp ≡ none
    → certificates (serve read requests service) ≡ 0
unfolding serve certificates get_certificate
serve-spent read [] service h = refl
serve-spent read (r ∷ requests) service h =
    rw (h, get_certificate) (omega (arith, serve-spent read requests service h))

cert_reply-one : (io : Io Bytes) → is_certificate (cert_reply io) ≤ 1
cert_reply-one (done bytes) = omega arith
cert_reply-one not_found = omega arith
cert_reply-one (failed message) = omega arith

-- A reply of one request, with the service after it.
data Answered (service : BootstrapService) : Reply × BootstrapService → Type 0 where
  refused :
      (reply : Reply) (after : BootstrapService)
      → is_certificate reply ≡ 0
      → Answered service (reply, after)
  granted :
      (reply : Reply) (after : BootstrapService)
      → is_certificate reply ≤ 1
      → after.otp ≡ none
      → Answered service (reply, after)

get_certificate-Answered :
    (read : FilePath → Io Bytes) (now : ℕ) (received : Bytes) (service : BootstrapService)
    → Answered service (get_certificate read now received service)
unfolding get_certificate
get_certificate-Answered read now received service = elim (Option-cases service.otp) [
  | inl nothing ↦ rw (nothing, get_certificate) (refused _ _ refl)
  | inr (saved, e) ↦ elim (Bool-cases (ltb otp_lifetime (now - saved.1))) [
    | inl late ↦ rw (e, late, get_certificate) (refused _ _ refl)
    | inr in_time ↦ elim (Bool-cases (bytes_eq saved.0 received)) [
      | inl same ↦
          rw (e, in_time, same, get_certificate)
            (granted _ _ (cert_reply-one (read service.cert_path)) refl)
      | inr differs ↦ rw (e, in_time, differs, get_certificate) (refused _ _ refl)
    ]
  ]
]

at_most_one :
    (read : FilePath → Io Bytes) (requests : List (ℕ × Bytes)) (service : BootstrapService)
    (answer : Reply × BootstrapService)
    → Answered service answer
    → certificates (serve read requests answer.1) ≤ 1
    → is_certificate answer.0 + certificates (serve read requests answer.1) ≤ 1
at_most_one read requests service _ (refused reply after zero_now) later =
    omega (arith, zero_now, later)
at_most_one read requests service _ (granted reply after one gone) later =
    omega (arith, one, serve-spent read requests after gone)

-- Whatever requests a service gets, and when, it replies with its certificate at most once.
pub serve-certificates :
    (read : FilePath → Io Bytes) (requests : List (ℕ × Bytes)) (service : BootstrapService)
    → certificates (serve read requests service) ≤ 1
unfolding serve certificates get_certificate
serve-certificates read [] service = omega arith
serve-certificates read (r ∷ requests) service =
    at_most_one read requests service (get_certificate read r.0 r.1 service)
      (get_certificate-Answered read r.0 r.1 service)
      (serve-certificates read requests (get_certificate read r.0 r.1 service).1)

-- What a request that gets a certificate has shown.
pub record Shown (read : FilePath → Io Bytes) (now : ℕ) (received bytes : Bytes)
    (service after : BootstrapService) : Type 0 where
  pub saved : Bytes × ℕ
  pub was : service.otp ≡ some saved
  pub same : saved.0 ≡ received
  pub in_time : now - saved.1 ≤ otp_lifetime
  pub content : read service.cert_path ≡ done bytes
  pub used : after.otp ≡ none

abbrev as_certificate : Reply → Option Bytes
as_certificate (certificate bytes) = some bytes
as_certificate _ = none

cert_reply-done :
    (io : Io Bytes) (bytes : Bytes) → as_certificate (cert_reply io) ≡ some bytes → io ≡ done bytes
cert_reply-done (done b) bytes e = cc
cert_reply-done not_found bytes e = cc
cert_reply-done (failed message) bytes e = cc

-- A request gets the certificate only with the password that the service holds, at most 300 seconds
-- after the service was made, and what it gets is the certificate file; the password is used up.
pub get_certificate-Shown :
    (read : FilePath → Io Bytes) (now : ℕ) (received bytes : Bytes)
    (service after : BootstrapService)
    → get_certificate read now received service ≡ (certificate bytes, after)
    → Shown read now received bytes service after
unfolding get_certificate
get_certificate-Shown read now received bytes service after e = elim (Option-cases service.otp) [
  | inl nothing ↦ let e' = rw (nothing, get_certificate) at e in absurd (refused_reply _ e' refl)
  | inr (saved, was) ↦ elim (Bool-cases (ltb otp_lifetime (now - saved.1))) [
    | inl late ↦ let e' = rw (was, late, get_certificate) at e in absurd (refused_reply _ e' refl)
    | inr in_time ↦ elim (Bool-cases (bytes_eq saved.0 received)) [
      | inr differs ↦
          let e' = rw (was, in_time, differs, get_certificate) at e in
          absurd (refused_reply _ e' refl)
      | inl same ↦
          let e' = rw (was, in_time, same, get_certificate) at e in
          record {
            saved = saved;
            was = was;
            same = bytes_eq_sound saved.0 received same;
            in_time = ltb-false_le otp_lifetime (now - saved.1) in_time;
            content =
                cert_reply-done (read service.cert_path) bytes (ap (λ x. as_certificate x.0) e');
            used = sym (ap (λ x. x.1.otp) e');
          }
    ]
  ]
]
  where
    refused_reply :
        (answer : Reply × BootstrapService)
        → answer ≡ (certificate bytes, after)
        → as_certificate answer.0 ≡ none
        → ⊥
    refused_reply answer h none_given = cc (ap (λ x. as_certificate x.0) h, none_given)
