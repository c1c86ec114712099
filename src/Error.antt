-- ===== src/Error.antt =====
-- src/utils/error.rs, and the ways in which a handler can end.
use harmonic.Prelude.{◌≡◌, refl, ap}
use harmonic.Path.{FilePath}
use harmonic.Text.{Bytes}

-- The sources of foreign errors are kept as their messages.
pub data HarmonicError : Type 0 where
  path_error : FilePath → HarmonicError
  path_integrity_error : FilePath → FilePath → HarmonicError
  uuid json toml_deser_error toml_ser_error : Bytes → HarmonicError
  config_error : HarmonicError
  io : Bytes → HarmonicError
  string_invalid : HarmonicError
  system_time : Bytes → HarmonicError
  file_metadata_error : FilePath → HarmonicError
  invalid_input_error : HarmonicError
  send_error crypto_error uri_error transport_error grpc_status not_found : Bytes → HarmonicError

-- `panicked` is a Rust panic. `unfinished` is a loop that has not ended within its fuel.
pub data Outcome {ℓ} (A : Type ℓ) : Type ℓ where
  ok : A → Outcome A
  err : HarmonicError → Outcome A
  panicked unfinished : Outcome A

infixl 5 ◌>>=◌ ◌>>◌
-- `?` in front of the rest of a function.
abbrev pub ◌>>=◌ {ℓ κ} : {A : Type ℓ} {B : Type κ} → Outcome A → (A → Outcome B) → Outcome B
unfinished >>= next = unfinished
panicked >>= next = panicked
err e >>= next = err e
ok a >>= next = next a

abbrev pub ◌>>◌ {ℓ κ} : {A : Type ℓ} {B : Type κ} → Outcome A → Outcome B → Outcome B
first >> second = first >>= λ _. second

-- Code with a `?` that returns a value: the value behind the `?`, and what comes of it.
pub >>=-eq-ok {ℓ κ} :
    {A : Type ℓ} {B : Type κ} (first : Outcome A) (next : A → Outcome B) {result : B}
    → (first >>= next) ≡ ok result
    → (value : A) × (first ≡ ok value) × (next value ≡ ok result)
>>=-eq-ok unfinished next h = cc
>>=-eq-ok panicked next h = cc
>>=-eq-ok (err e) next h = cc
>>=-eq-ok (ok value) next h = (value, refl, h)

ok_value {ℓ} : {A : Type ℓ} → A → Outcome A → A
ok_value default (ok a) = a
ok_value default _ = default

pub ok-injective {ℓ} : {A : Type ℓ} (a b : A) → ok a ≡ ok b → a ≡ b
unfolding ok_value
ok-injective a b e = ap (ok_value a) e
