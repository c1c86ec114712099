-- ===== src/State/Saved.antt =====
-- How src/sync/state.rs keeps a state between runs: `timestamp_proto`, `save_state` and
-- `load_state`. The JSON codec is foreign.
pub mod Micros
use harmonic.Prelude.{ℕ, suc, ◌+◌, ◌-◌, ◌*◌, ◌/◌, ◌%◌, ◌^◌, Bool, ltb, if◌then◌else◌}
use harmonic.Prelude.{Option, none, some, List, [], ◌∷◌}
use harmonic.Prelude.Int.{ℤ, pos, negsuc, pos_part, neg_part, wrap}
use harmonic.Text.{Bytes, is_utf8}
use harmonic.Path.{FilePath, cur_dir, normal, join}
use harmonic.Error.{Outcome, ok, err, config_error, ◌>>=◌}
use harmonic.Io.{Io, done, not_found, failed, from_io}
use harmonic.Proto.{Timestamp}
use harmonic.State.{SyncState}

-- The integer `a - b` for natural numbers.
abbrev pub difference : ℕ → ℕ → ℤ
difference a b = if ltb a b then negsuc (b - a - 1) else pos (a - b)

abbrev pub add_ℤ : ℤ → ℤ → ℤ
add_ℤ a b = difference (pos_part a + pos_part b) (neg_part a + neg_part b)

abbrev pub scale : ℤ → ℕ → ℤ
scale a k = difference (pos_part a * k) (neg_part a * k)

-- `/` and `%` round toward zero.
abbrev pub quotient : ℤ → ℕ → ℤ
quotient a k = difference (pos_part a / k) (neg_part a / k)

abbrev pub remainder : ℤ → ℕ → ℤ
remainder a k = difference (pos_part a % k) (neg_part a % k)

abbrev pub wrap_ℤ : ℕ → ℤ → ℤ
wrap_ℤ w (pos n) = wrap w n
wrap_ℤ w (negsuc n) = wrap w (2 ^ w - 1 - n % 2 ^ w)

-- `timestamp_proto::serialize`: the number that is written.
unfoldable pub serialize : Timestamp → ℤ
serialize ts = wrap_ℤ 64 (add_ℤ (wrap_ℤ 64 (scale ts.seconds 1000000)) (quotient ts.nanos 1000))

-- `timestamp_proto::deserialize`, from the number that is read.
unfoldable pub deserialize : ℤ → Timestamp
deserialize micros = record {
  seconds = quotient micros 1000000;
  nanos = wrap_ℤ 32 (scale (remainder micros 1000000) 1000);
}

unfoldable pub state_file_path : FilePath
state_file_path =
    cur_dir
    ∷ normal (b'.' ∷ b'h' ∷ b'a' ∷ b'r' ∷ b'm' ∷ b'o' ∷ b'n' ∷ b'i' ∷ b'c' ∷ [])
    ∷ normal (b's' ∷ b't' ∷ b'a' ∷ b't' ∷ b'e' ∷ b'.' ∷ b'j' ∷ b's' ∷ b'o' ∷ b'n' ∷ [])
    ∷ []

-- `save_state`, on a disk that can be written with `write`.
unfoldable pub save_state {ℓ} :
    {Disk : Type ℓ}
    → (SyncState → Outcome Bytes)
    → (FilePath → Bytes → Disk → Io Disk)
    → SyncState
    → Disk
    → Outcome Disk
save_state to_json write state disk =
    to_json state >>= λ state_json. from_io (write state_file_path state_json disk)

abbrev pub empty_state : SyncState
empty_state = record { last_sync_timestamp_micros = pos 0; tree = [] }

-- `load_state`. Reading a file as a string fails where it is not UTF-8.
unfoldable pub load_state : (Bytes → Outcome SyncState) → (FilePath → Io Bytes) → Outcome SyncState
load_state from_json read = elim (read state_file_path) [
  | done state_json ↦ if is_utf8 state_json then from_json state_json else err config_error
  | not_found ↦ ok empty_state
  | failed message ↦ err config_error
]
