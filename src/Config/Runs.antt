-- ===== src/Config/Runs.antt =====
-- Two runs of `load_config` of src/sync/config.rs: the first asks and saves, the next loads.
use harmonic.Prelude.{Bool, true, ◌≡◌, refl, sym, ap, ◌∙◌}
use harmonic.Prelude.{Bool-cases, inl, inr}
use harmonic.Text.{Bytes, is_utf8}
use harmonic.Path.{FilePath}
use harmonic.Error.{Outcome, ok, >>=-eq-ok, ok-injective}
use harmonic.Io.{Io, done, not_found, failed, from_io}
use harmonic.Config.{Config}
use harmonic.Config.Load.{
  entered, config_dir_path, config_file_path, save_config, handle_no_config, check_level,
  read_config, load_config,
}

record Checked {ℓ} {Disk : Type ℓ} (valid_level : Bytes → Bool) (before after : Config × Disk)
    : Type ℓ where
  same : before ≡ after
  valid : valid_level (before.0).log_level ≡ true

check_level-Checked {ℓ} :
    {Disk : Type ℓ} (valid_level : Bytes → Bool) (before after : Config × Disk)
    → check_level valid_level before ≡ ok after
    → Checked valid_level before after
check_level-Checked valid_level before after e =
    elim (Bool-cases (valid_level (before.0).log_level)) [
      | inl valid ↦
          let e' = rw valid at e in record { same = ok-injective before after e'; valid = valid }
      | inr invalid ↦ let e' = rw invalid at e in cc
    ]

from_io-done {ℓ} : {A : Type ℓ} (result : Io A) (a : A) → from_io result ≡ ok a → result ≡ done a
from_io-done (done b) a e = ap done (ok-injective b a e)
from_io-done not_found a e = cc
from_io-done (failed message) a e = cc

module _ {ℓ} {Disk : Type ℓ} (from_toml : Bytes → Outcome Config) (valid_level : Bytes → Bool)
    (read : FilePath → Disk → Io Bytes) where
  load_config_lem :
      (ask : Disk → Outcome (Config × Disk)) (disk : Disk) (loaded : Config × Disk)
      → load_config from_toml valid_level read ask disk ≡ ok loaded
      → (read_config from_toml (ask disk) disk (read config_file_path disk) ≡ ok loaded)
        × (valid_level (loaded.0).log_level ≡ true)
  unfolding load_config
  load_config_lem ask disk loaded e =
      let (before, e1, e2) =
        >>=-eq-ok (read_config from_toml (ask disk) disk (read config_file_path disk)) _ e in
      let checked = check_level-Checked valid_level before loaded e2 in
      (
        e1 ∙ ap ok checked.same,
        ap (λ l. valid_level (l.0).log_level) (sym checked.same) ∙ checked.valid,
      )

-- A run that finds no file asks for its configuration and saves it; if what is written to the disk
-- is read back, and the codec reads back what it writes for it, which is UTF-8, then the next run loads the
-- same configuration from the file and leaves the disk as it is, whatever it would have asked. The
-- log level of both is valid.
pub load_config-again {ℓ} :
    {Disk : Type ℓ} (from_toml : Bytes → Outcome Config) (to_toml : Config → Outcome Bytes)
    (valid_level : Bytes → Bool) (read : FilePath → Disk → Io Bytes)
    (create_dirs : FilePath → Disk → Io Disk) (write : FilePath → Bytes → Disk → Io Disk)
    (home : FilePath) (path address : Bytes) (ask_again : Disk → Outcome (Config × Disk))
    (disk after : Disk) (c : Config)
    → ((p : FilePath) (text : Bytes) (d d' : Disk)
        → write p text d ≡ done d'
        → read p d' ≡ done text)
    → ((text : Bytes)
        → to_toml (entered home path address) ≡ ok text
        → (from_toml text ≡ ok (entered home path address)) × (is_utf8 text ≡ true))
    → read config_file_path disk ≡ not_found
    → load_config from_toml valid_level read
        (λ d. handle_no_config home path address (λ k. save_config to_toml create_dirs write k d))
        disk
      ≡ ok (c, after)
    → (load_config from_toml valid_level read ask_again after ≡ ok (c, after))
      × (valid_level c.log_level ≡ true)
unfolding load_config handle_no_config save_config
load_config-again from_toml to_toml valid_level read create_dirs write home path address ask_again
      disk after c keeps codec missing e =
    let (asked, valid) =
      load_config_lem from_toml valid_level read
        (λ d. handle_no_config home path address (λ k. save_config to_toml create_dirs write k d))
        disk (c, after) e in
    let answered = rw missing at asked in
    let k0 = entered home path address in
    let (d1, saved, pair) = >>=-eq-ok (save_config to_toml create_dirs write k0 disk) _ answered in
    let (text, coded, e3) = >>=-eq-ok (to_toml k0) _ saved in
    let (d2, created, e4) = >>=-eq-ok (from_io (create_dirs config_dir_path disk)) _ e3 in
    let same = ok-injective (k0, d1) (c, after) pair in
    (
      again text after c
          (keeps config_file_path text d2 after
            (from_io-done (write config_file_path text d2) d1 e4 ∙ ap (λ l. done l.1) same))
          ((codec text coded).0 ∙ ap (λ l. ok l.0) same) (codec text coded).1 valid,
      valid,
    )
  where
    again :
        (text : Bytes) (d : _) (k : Config)
        → read config_file_path d ≡ done text
        → from_toml text ≡ ok k
        → is_utf8 text ≡ true
        → valid_level k.log_level ≡ true
        → load_config from_toml valid_level read ask_again d ≡ ok (k, d)
    again text d k reads decodes utf8 valid =
        rw (reads, load_config) (rw utf8 (rw decodes (rw valid refl)))
