-- ===== src/Server/Identity/Files.antt =====
-- The two files of the identity of src/server/security.rs, read and written.
use harmonic.Prelude.{false, none, some, List, ◌⊎◌, ◌≡◌, ◌≢◌, refl, sym, ap, ◌∙◌}
use harmonic.Text.{Bytes}
use harmonic.Order.Lists.{lex}
use harmonic.Path.Keys.{path_ord}
use harmonic.Error.{ok, ok-injective}
use harmonic.Io.{from_io}
use harmonic.Config.{Config}
use harmonic.Config.Address.{Hosts}
use harmonic.BTree.{get, insert, ◌is◌}
use harmonic.BTree.Laws.{get-insert_same, get-insert_other, is_refl}
use harmonic.Storage.{Contents, Faults, read, write}
use harmonic.Storage.Laws.{read-get, read-done, then_on-ok, write-ok}
use harmonic.Server.Identity.{
  Identity, cert_path, private_key_path, from_crypto, subject_names, read_identity, write_identity,
  new_identity,
}

paths-differ : (cert_path is private_key_path) ≡ false
unfolding cert_path private_key_path lex
paths-differ = refl

pub cert_path-ne : cert_path ≢ private_key_path
cert_path-ne e = cc (paths-differ, ap (λ p. p is private_key_path) e, is_refl private_key_path)

-- Both files of an identity.
pub record Holds (identity : Identity) (disk : Contents) : Type 0 where
  pub cert : get cert_path disk ≡ some identity.cert
  pub key : get private_key_path disk ≡ some identity.key

pub Holds-read :
    (faults : Faults) (identity : Identity) (disk : Contents)
    → faults.reads cert_path ≡ none
    → faults.reads private_key_path ≡ none
    → Holds identity disk
    → read_identity faults disk ≡ (ok identity, disk)
unfolding read_identity
Holds-read faults identity disk h k holds =
    rw ((read-get faults cert_path identity.cert disk h holds.cert).0)
      (rw ((read-get faults private_key_path identity.key disk k holds.key).0) refl)

pub read_identity-Holds :
    (faults : Faults) (identity : Identity) (disk after : Contents)
    → read_identity faults disk ≡ (ok identity, after)
    → Holds identity disk × (after ≡ disk)
unfolding read_identity
read_identity-Holds faults identity disk after e =
    let (c, e1, rest) =
      then_on-ok (from_io (read faults cert_path disk), disk) _ identity after e in
    let (k, e2, last) =
      then_on-ok (from_io (read faults private_key_path disk), disk) _ identity after rest in
    let same : record { cert = c; key = k } ≡ identity = ok-injective _ _ (ap (λ r. r.0) last) in
    (
      record {
        cert = read-done faults cert_path disk c e1 ∙ ap (λ i. some i.cert) same;
        key = read-done faults private_key_path disk k e2 ∙ ap (λ i. some i.key) same;
      },
      sym (ap (λ r. r.1) last),
    )

unfoldable pub written : Identity → Contents → Contents
written identity disk = insert private_key_path identity.key (insert cert_path identity.cert disk)

write_identity-ok :
    (faults : Faults) (identity same : Identity) (disk after : Contents)
    → write_identity faults identity disk ≡ (ok same, after)
    → (same ≡ identity) × (after ≡ written identity disk)
unfolding write_identity written
write_identity-ok faults identity same disk after e =
    let (u, e1, rest) = then_on-ok (write faults cert_path identity.cert disk) _ same after e in
    let (v, e2, last) =
      then_on-ok
        (write faults private_key_path identity.key (write faults cert_path identity.cert disk).1) _
        same after rest in
    (
      sym (ok-injective _ _ (ap (λ r. r.0) last)),
      sym (ap (λ r. r.1) last)
          ∙ write-ok faults private_key_path identity.key _ v e2
          ∙ ap (insert private_key_path identity.key)
              (write-ok faults cert_path identity.cert disk u e1),
    )

pub new_identity-ok :
    (hosts : Hosts) (local_ip : Bytes ⊎ Bytes) (generate : List Bytes → Bytes ⊎ Identity)
    (faults : Faults) (config : Config) (identity : Identity) (disk after : Contents)
    → new_identity hosts local_ip generate faults config disk ≡ (ok identity, after)
    → after ≡ written identity disk
unfolding new_identity
new_identity-ok hosts local_ip generate faults config identity disk after e =
    let (names, e1, rest) =
      then_on-ok (subject_names hosts local_ip config, disk) _ identity after e in
    let (made, e2, last) = then_on-ok (from_crypto (generate names), disk) _ identity after rest in
    let (same, wrote) = write_identity-ok faults made identity disk after last in
    wrote ∙ ap (λ i. written i disk) (sym same)

pub written-Holds : (identity : Identity) (disk : Contents) → Holds identity (written identity disk)
unfolding written
written-Holds identity disk = record {
  cert =
      get-insert_other cert_path private_key_path identity.key (insert cert_path identity.cert disk)
        cert_path-ne
      ∙ get-insert_same cert_path identity.cert disk;
  key = get-insert_same private_key_path identity.key (insert cert_path identity.cert disk);
}
