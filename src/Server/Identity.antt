-- ===== src/Server/Identity.antt =====
-- `get_identity` of src/server/security.rs: the server's certificate and its key, from the disk or
-- made now. `local_ip` and `generate` are the crates local_ip_address and rcgen.
pub mod Files
pub mod Kept
use harmonic.Prelude.{Bool, true, false, ◌&&◌, if◌then◌else◌, List, [], ◌∷◌, ◌++◌, ◌⊎◌, inl, inr}
use harmonic.Text.{Bytes, codes}
use harmonic.Path.{FilePath, normal}
use harmonic.Error.{Outcome, ok, err, crypto_error}
use harmonic.Error
use harmonic.Io.{from_io}
use harmonic.Config.{Config}
use harmonic.Config.Load.{config_dir_path}
use harmonic.Config.Address.{Hosts, socket_addr}
use harmonic.Net.{SocketAddr, v4, v6, show_ipv4}
use harmonic.Storage.{Contents, Faults, Stored, then_on, lift, ◌>>=◌, exists, read, write}

-- `Identity`: the certificate and the key in PEM.
pub record Identity : Type 0 where
  pub cert : Bytes
  pub key : Bytes

unfoldable pub cert_path : FilePath
unfolding config_dir_path
cert_path = config_dir_path ++ normal (codes "certificate.crt") ∷ []

unfoldable pub private_key_path : FilePath
unfolding config_dir_path
private_key_path = config_dir_path ++ normal (codes "certificate.pk") ∷ []

-- `map_err` into `CryptoError`, for a foreign result: the text of its error, or its value.
abbrev pub from_crypto {ℓ} : {A : Type ℓ} → Bytes ⊎ A → Outcome A
from_crypto (inl message) = err (crypto_error message)
from_crypto (inr a) = ok a

-- `addr.ip().to_string()`
unfoldable pub ip_text : (hosts : Hosts) → SocketAddr hosts.Host → Bytes
ip_text hosts (v4 ip port) = show_ipv4 ip []
ip_text hosts (v6 host port) = hosts.show_ip host

-- The names that the certificate is for.
unfoldable pub subject_names : Hosts → Bytes ⊎ Bytes → Config → Outcome (List Bytes)
unfolding ip_text
subject_names hosts local_ip config =
    Error.◌>>=◌ (socket_addr hosts config)
      (λ addr. Error.◌>>=◌ (from_crypto local_ip) (λ ip. ok (ip_text hosts addr ∷ ip ∷ [])))

-- The files of an identity.
unfoldable pub read_identity : Faults → Stored Identity
read_identity faults = do
  cert ← (λ disk. (from_io (read faults cert_path disk), disk))
  key ← (λ disk. (from_io (read faults private_key_path disk), disk))
  lift (ok (record { cert = cert; key = key }))

unfoldable pub write_identity : Faults → Identity → Stored Identity
write_identity faults identity = do
  wrote_cert ← write faults cert_path identity.cert
  wrote_key ← write faults private_key_path identity.key
  lift (ok identity)

unfoldable pub new_identity :
    Hosts → Bytes ⊎ Bytes → (List Bytes → Bytes ⊎ Identity) → Faults → Config → Stored Identity
unfolding write_identity subject_names
new_identity hosts local_ip generate faults config = do
  names ← lift (subject_names hosts local_ip config)
  identity ← lift (from_crypto (generate names))
  write_identity faults identity

-- The identity, and whether it was made now.
unfoldable pub get_identity :
    Hosts
    → Bytes ⊎ Bytes
    → (List Bytes → Bytes ⊎ Identity)
    → Faults
    → Config
    → Stored (Identity × Bool)
unfolding read_identity new_identity
get_identity hosts local_ip generate faults config disk =
    if exists cert_path disk && exists private_key_path disk
    then then_on (read_identity faults disk) (λ identity. lift (ok (identity, false)))
    else then_on (new_identity hosts local_ip generate faults config disk)
        (λ identity. lift (ok (identity, true)))
