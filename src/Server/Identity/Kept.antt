-- ===== src/Server/Identity/Kept.antt =====
-- An identity of the server, once made, is the identity of every later start.
use harmonic.Prelude.{
  Bool, true, false, not, ◌&&◌, none, List, ◌⊎◌, ◌≡◌, ◌≢◌, refl, sym, ap, ap₂, ◌∙◌, Bool-cases, inl,
  inr,
}
use harmonic.Text.{Bytes}
use harmonic.Path.{FilePath}
use harmonic.Path.Keys.{path_ord}
use harmonic.Error.{ok, ok-injective}
use harmonic.Config.{Config}
use harmonic.Config.Address.{Hosts}
use harmonic.BTree.{get, insert}
use harmonic.BTree.Laws.{get-insert_other}
use harmonic.Storage.{Contents, Faults, lift, exists}
use harmonic.Storage.Laws.{then_on-ok}
use harmonic.Server.Identity.{
  Identity, cert_path, private_key_path, read_identity, new_identity, get_identity,
}
use harmonic.Server.Identity.Files.{
  Holds, Holds-read, read_identity-Holds, written, new_identity-ok, written-Holds,
}

-- What a start that gets an identity has left, and what a later start on that disk gets.
pub record Kept (hosts : Hosts) (local_ip : Bytes ⊎ Bytes)
    (generate : List Bytes → Bytes ⊎ Identity) (faults : Faults) (config : Config)
    (identity : Identity) (generated : Bool) (disk after : Contents) : Type 0 where
  pub holds : Holds identity after
  pub made_if_missing : generated ≡ not (exists cert_path disk && exists private_key_path disk)
  pub again :
      get_identity hosts local_ip generate faults config after ≡ (ok (identity, false), after)
  pub others : (q : FilePath) → q ≢ cert_path → q ≢ private_key_path → get q after ≡ get q disk
  pub untouched : generated ≡ false → after ≡ disk

Holds-exists :
    (identity : Identity) (disk : Contents)
    → Holds identity disk
    → (exists cert_path disk && exists private_key_path disk) ≡ true
unfolding exists
Holds-exists identity disk holds = rw (holds.cert, exists) (rw (holds.key, exists) refl)

-- A run of `get_identity` that returns: read, or made and written.
data Ran (faults : Faults) (identity : Identity) (disk after : Contents) : Bool → Type 0 where
  was_read :
      (exists cert_path disk && exists private_key_path disk) ≡ true
      → Holds identity disk
      → after ≡ disk
      → Ran faults identity disk after false
  was_made :
      (exists cert_path disk && exists private_key_path disk) ≡ false
      → after ≡ written identity disk
      → Ran faults identity disk after true

get_identity-Ran :
    (hosts : Hosts) (local_ip : Bytes ⊎ Bytes) (generate : List Bytes → Bytes ⊎ Identity)
    (faults : Faults) (config : Config) (identity : Identity) (generated : Bool)
    (disk after : Contents)
    → get_identity hosts local_ip generate faults config disk ≡ (ok (identity, generated), after)
    → Ran faults identity disk after generated
unfolding get_identity
get_identity-Ran hosts local_ip generate faults config identity generated disk after e =
    elim (Bool-cases (exists cert_path disk && exists private_key_path disk)) [
      | inl there ↦
          let e' = rw there at e in
          let (found, e1, last) =
            then_on-ok (read_identity faults disk) (λ i. lift (ok (i, false))) (identity, generated)
              after e' in
          let pair : (found, false) ≡ (identity, generated) =
            ok-injective _ _ (ap (λ r. r.0) last) in
          let flag : generated ≡ false = sym (ap (λ r. r.1) pair) in
          let whole : read_identity faults disk ≡ (ok identity, after) =
            ap₂ (λ o d. (o, d)) (e1 ∙ ap (λ r. ok r.0) pair) (ap (λ r. r.1) last) in
          let (holds, same) = read_identity-Holds faults identity disk after whole in
          rw flag (was_read there holds same)
      | inr missing ↦
          let e' = rw missing at e in
          let (made, e1, last) =
            then_on-ok (new_identity hosts local_ip generate faults config disk)
              (λ i. lift (ok (i, true))) (identity, generated) after e' in
          let pair : (made, true) ≡ (identity, generated) = ok-injective _ _ (ap (λ r. r.0) last) in
          let flag : generated ≡ true = sym (ap (λ r. r.1) pair) in
          let whole : new_identity hosts local_ip generate faults config disk
              ≡ (ok identity, after) =
            ap₂ (λ o d. (o, d)) (e1 ∙ ap (λ r. ok r.0) pair) (ap (λ r. r.1) last) in
          rw flag (
            was_made missing
              (new_identity-ok hosts local_ip generate faults config identity disk after whole))
    ]

Holds-again :
    (hosts : Hosts) (local_ip : Bytes ⊎ Bytes) (generate : List Bytes → Bytes ⊎ Identity)
    (faults : Faults) (config : Config) (identity : Identity) (disk : Contents)
    → faults.reads cert_path ≡ none
    → faults.reads private_key_path ≡ none
    → Holds identity disk
    → get_identity hosts local_ip generate faults config disk ≡ (ok (identity, false), disk)
unfolding get_identity
Holds-again hosts local_ip generate faults config identity disk h k holds =
    rw (Holds-exists identity disk holds) (rw (Holds-read faults identity disk h k holds) refl)

Ran-Holds :
    (faults : Faults) (identity : Identity) (disk after : Contents) (generated : Bool)
    → Ran faults identity disk after generated
    → Holds identity after
Ran-Holds faults identity disk after _ (was_read there holds same) = rw same holds
Ran-Holds faults identity disk after _ (was_made missing wrote) =
    rw wrote (written-Holds identity disk)

-- What a start that gets an identity has left.
record Left (identity : Identity) (disk after : Contents) (generated : Bool) : Type 0 where
  flag : generated ≡ not (exists cert_path disk && exists private_key_path disk)
  others : (q : FilePath) → q ≢ cert_path → q ≢ private_key_path → get q after ≡ get q disk
  untouched : generated ≡ false → after ≡ disk

Ran-Left :
    (faults : Faults) (identity : Identity) (disk after : Contents) (generated : Bool)
    → Ran faults identity disk after generated
    → Left identity disk after generated
unfolding written
Ran-Left faults identity disk after _ (was_read there holds same) = record {
  flag = rw there refl;
  others = λ q h k. ap (get q) same;
  untouched = λ e. same;
}
Ran-Left faults identity disk after _ (was_made missing wrote) = record {
  flag = rw missing refl;
  others = λ q h k.
      ap (get q) wrote
      ∙ get-insert_other q private_key_path identity.key (insert cert_path identity.cert disk) k
      ∙ get-insert_other q cert_path identity.cert disk h;
  untouched = λ e. cc;
}

-- Let a start of the server get an identity, whatever the disk refuses to it elsewhere. It was made
-- now exactly if one of its two files was missing; both files hold it; no other file changed, and
-- none at all where it was not made. A later start, with whatever configuration and address and
-- a disk that lets it read the two files, gets the same identity and makes none.
pub get_identity-Kept :
    (hosts : Hosts) (local_ip : Bytes ⊎ Bytes) (generate : List Bytes → Bytes ⊎ Identity)
    (faults : Faults) (config : Config) (identity : Identity) (generated : Bool)
    (disk after : Contents) (later_ip : Bytes ⊎ Bytes)
    (later_generate : List Bytes → Bytes ⊎ Identity) (later : Faults) (later_config : Config)
    → get_identity hosts local_ip generate faults config disk ≡ (ok (identity, generated), after)
    → later.reads cert_path ≡ none
    → later.reads private_key_path ≡ none
    → Kept hosts later_ip later_generate later later_config identity generated disk after
get_identity-Kept hosts local_ip generate faults config identity generated disk after later_ip
      later_generate later later_config e h k =
    let ran =
      get_identity-Ran hosts local_ip generate faults config identity generated disk after e in
    let holds = Ran-Holds faults identity disk after generated ran in
    let left = Ran-Left faults identity disk after generated ran in
    record {
      holds = holds;
      made_if_missing = left.flag;
      again = Holds-again hosts later_ip later_generate later later_config identity after h k holds;
      others = left.others;
      untouched = left.untouched;
    }
