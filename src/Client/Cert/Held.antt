-- ===== src/Client/Cert/Held.antt =====
-- One certificate for a process, and what is left to try again.
use harmonic.Prelude.{
  Bool, true, false, length, replicate, some, List, [], ◌∷◌, ◌≡◌, ◌⊎◌, refl, sym, ap, ◌∙◌, inl, inr,
}
use harmonic.Text.{Bytes}
use harmonic.Path.Keys.{path_ord}
use harmonic.Error.{Outcome, ok, err, panicked, unfinished, ok-injective}
use harmonic.Config.Address.{Hosts}
use harmonic.BTree.{insert}
use harmonic.Storage.{Contents, write}
use harmonic.Storage.Laws.{then_on-ok, write-ok}
use harmonic.Client.Security.{get_cert_path, asked, bootstrap_from_server}
use harmonic.Client.Cert.{
  Process, started, Surroundings, expect, bootstrapped, loaded, or_bootstrapped, load_or_bootstrap,
  keep, get_cert,
}

-- Calls one after the other.
unfoldable pub calls :
    Hosts
    → Bytes
    → List Surroundings
    → Process
    → Contents
    → List (Outcome Bytes) × Process × Contents
calls hosts server_address [] p disk = ([], p, disk)
calls hosts server_address (s ∷ later) p disk =
    let this = get_cert hosts server_address s p disk in
    let rest = calls hosts server_address later this.1 this.2 in (this.0 ∷ rest.0, rest.1, rest.2)

expect-ok :
    (run : Outcome Bytes × Contents) (pem : Bytes)
    → (expect run).0 ≡ ok pem
    → (run ≡ (ok pem, (expect run).1))
expect-ok (ok a, disk) pem e = rw (ok-injective a pem e) refl
expect-ok (err x, disk) pem e = cc
expect-ok (panicked, disk) pem e = cc
expect-ok (unfinished, disk) pem e = cc

-- What returns is kept, with the disk that it left.
keep-ok :
    (flag : Bool) (p : Process) (run : Outcome Bytes × Contents) (pem : Bytes)
    → (keep flag p run).0 ≡ ok pem
    → (run ≡ (ok pem, run.1))
      × (keep flag p run ≡ (ok pem, record { cert = some pem; force_bootstrap = flag }, run.1))
keep-ok flag p (ok a, disk) pem e = let same = ok-injective a pem e in (rw same refl, rw same refl)
keep-ok flag p (err x, disk) pem e = cc
keep-ok flag p (panicked, disk) pem e = cc
keep-ok flag p (unfinished, disk) pem e = cc

-- A file that is loaded, or else what the server gave.
or_bootstrapped_source :
    (pem : Bytes) (disk : Contents) (found : Outcome Bytes)
    (bootstrapping : Outcome Bytes × Contents)
    → (bootstrapping.0 ≡ ok pem → bootstrapping.1 ≡ insert get_cert_path pem disk)
    → (or_bootstrapped found disk bootstrapping).0 ≡ ok pem
    → ((found ≡ ok pem) × ((or_bootstrapped found disk bootstrapping).1 ≡ disk))
      ⊎ ((or_bootstrapped found disk bootstrapping).1 ≡ insert get_cert_path pem disk)
or_bootstrapped_source pem disk (ok a) bootstrapping stores e = inl (e, refl)
or_bootstrapped_source pem disk (err x) bootstrapping stores e = inr (stores e)
or_bootstrapped_source pem disk panicked bootstrapping stores e = cc
or_bootstrapped_source pem disk unfinished bootstrapping stores e = cc

module _ (hosts : Hosts) (server_address : Bytes) (s : Surroundings) where
  -- A client that got a certificate from the server has stored it.
  bootstrap_from_server_stores :
      (disk after : Contents) (pem : Bytes)
      → bootstrap_from_server hosts s.fuel s.stdin s.get_certificate s.faults server_address disk
        ≡ (ok pem, after)
      → after ≡ insert get_cert_path pem disk
  unfolding bootstrap_from_server
  bootstrap_from_server_stores disk after pem e =
      let (request, was_asked, e1) =
        then_on-ok (asked hosts s.fuel s.stdin server_address, disk) _ pem after e in
      let (bytes, answered, e2) =
        then_on-ok (s.get_certificate request.0 request.1, disk) _ pem after e1 in
      let (wrote, written, e3) =
        then_on-ok (write s.faults get_cert_path bytes disk) _ pem after e2 in
      sym (ap (λ r. r.1) e3)
      ∙ write-ok s.faults get_cert_path bytes disk wrote written
      ∙ ap (λ b. insert get_cert_path b disk) (ok-injective bytes pem (ap (λ r. r.0) e3))

  bootstrapped_stores :
      (disk : Contents) (pem : Bytes)
      → (bootstrapped hosts server_address s disk).0 ≡ ok pem
      → (bootstrapped hosts server_address s disk).1 ≡ insert get_cert_path pem disk
  unfolding bootstrapped
  bootstrapped_stores disk pem e = bootstrap_from_server_stores disk _ pem (expect-ok _ pem e)

  -- Where a certificate without the flag comes from.
  load_or_bootstrap_source :
      (disk : Contents) (pem : Bytes)
      → (load_or_bootstrap hosts server_address s disk).0 ≡ ok pem
      → ((loaded s disk ≡ ok pem) × ((load_or_bootstrap hosts server_address s disk).1 ≡ disk))
        ⊎ ((load_or_bootstrap hosts server_address s disk).1 ≡ insert get_cert_path pem disk)
  unfolding load_or_bootstrap
  load_or_bootstrap_source disk pem e =
      or_bootstrapped_source pem disk (loaded s disk) (bootstrapped hosts server_address s disk)
        (bootstrapped_stores disk pem) e

-- Whatever is called after a call that returned.
calls_held :
    (hosts : Hosts) (server_address : Bytes) (later : List Surroundings) (flag : Bool) (pem : Bytes)
    (disk : Contents)
    → calls hosts server_address later (record { cert = some pem; force_bootstrap = flag }) disk ≡ (
      replicate (length later) (ok pem),
      record { cert = some pem; force_bootstrap = flag },
      disk,
    )
unfolding calls get_cert
calls_held hosts server_address [] flag pem disk = refl
calls_held hosts server_address (s ∷ later) flag pem disk =
    rw (calls_held hosts server_address later flag pem disk) refl

-- The first call that returns in a process: what it leaves, and what the calls after it get.
pub record Held (hosts : Hosts) (server_address : Bytes) (later : List Surroundings)
    (s : Surroundings) (bootstrap : Bool) (disk : Contents) (pem : Bytes) : Type 0 where
  pub held :
      (get_cert hosts server_address s (started bootstrap) disk).1
      ≡ record { cert = some pem; force_bootstrap = false }
  pub source :
      ((get_cert hosts server_address s (started bootstrap) disk).2 ≡ insert get_cert_path pem disk)
      ⊎ ((bootstrap ≡ false)
          × (loaded s disk ≡ ok pem)
          × ((get_cert hosts server_address s (started bootstrap) disk).2 ≡ disk))
  pub same : calls hosts server_address (s ∷ later) (started bootstrap) disk ≡ (
    ok pem ∷ replicate (length later) (ok pem),
    record { cert = some pem; force_bootstrap = false },
    (get_cert hosts server_address s (started bootstrap) disk).2,
  )

module _ (hosts : Hosts) (server_address : Bytes) (s : Surroundings) (later : List Surroundings)
    (disk : Contents) (pem : Bytes) where
  get_cert-keep :
      (bootstrap : Bool) (run : Outcome Bytes × Contents)
      → get_cert hosts server_address s (started bootstrap) disk
        ≡ keep false (started bootstrap) run
      → (get_cert hosts server_address s (started bootstrap) disk).0 ≡ ok pem
      → ((run.0 ≡ ok pem)
          → (run.1 ≡ insert get_cert_path pem disk)
            ⊎ ((bootstrap ≡ false) × (loaded s disk ≡ ok pem) × (run.1 ≡ disk)))
      → Held hosts server_address later s bootstrap disk pem
  unfolding calls
  get_cert-keep bootstrap run is_run e source =
      let (returned, kept) =
        keep-ok false (started bootstrap) run pem (sym (ap (λ r. r.0) is_run) ∙ e) in
      let all = is_run ∙ kept in
      record {
        held = ap (λ r. r.1) all;
        source = rw all (source (ap (λ r. r.0) returned));
        same = rw all (rw (calls_held hosts server_address later false pem run.1) refl);
      }

-- Let a process that holds no certificate yet, with the flag on or off, get one from a call of
-- `get_cert`. Then the flag is off, and the certificate either came from the server, and
-- is stored as the certificate file, or was loaded, which happens only without the flag and changes
-- nothing on the disk. All later calls, whatever the user, the server and the disk do by
-- then, return the same certificate and leave the process and the disk as they are.
pub get_cert-Held :
    (hosts : Hosts) (server_address : Bytes) (s : Surroundings) (later : List Surroundings)
    (disk : Contents) (pem : Bytes) (bootstrap : Bool)
    → (get_cert hosts server_address s (started bootstrap) disk).0 ≡ ok pem
    → Held hosts server_address later s bootstrap disk pem
unfolding get_cert
get_cert-Held hosts server_address s later disk pem true e =
    get_cert-keep hosts server_address s later disk pem true
      (bootstrapped hosts server_address s disk) refl e
      (λ returned. inl (bootstrapped_stores hosts server_address s disk pem returned))
get_cert-Held hosts server_address s later disk pem false e =
    get_cert-keep hosts server_address s later disk pem false
      (load_or_bootstrap hosts server_address s disk) refl e
      (λ returned. elim (load_or_bootstrap_source hosts server_address s disk pem returned) [
        | inl was_loaded ↦ inr (refl, was_loaded.0, was_loaded.1)
        | inr stored ↦ inl stored
      ])
