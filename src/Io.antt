-- ===== src/Io.antt =====
-- Results of `std::fs` and `tokio::fs`, with the one error kind that the program asks for.
use harmonic.Prelude.{[]}
use harmonic.Text.{Bytes}
use harmonic.Error.{Outcome, ok, err, io}

pub data Io {ℓ} (A : Type ℓ) : Type ℓ where
  done : A → Io A
  not_found : Io A
  failed : Bytes → Io A

-- `?` on an `io::Error`, into `HarmonicError::Io`.
abbrev pub from_io {ℓ} : {A : Type ℓ} → Io A → Outcome A
from_io (done a) = ok a
from_io not_found = err (io [])
from_io (failed message) = err (io message)
