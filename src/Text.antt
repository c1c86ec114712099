-- ===== src/Text.antt =====
-- Rust's strings and paths as byte strings, and the test that a byte string is UTF-8.
pub mod Trim
use Prim.Native.Char.{code}
use Prim.Native.String.{String}
use harmonic.Prelude.{ℕ, suc, zero, Bool, true, false, ◌&&◌, ltb, leb, ◌==◌, if◌then◌else◌}
use harmonic.Prelude.{List, [], ◌∷◌}

abbrev pub Bytes : Type 0
Bytes = List ℕ

-- The bytes of an ASCII text.
abbrev pub codes : String → Bytes
codes String.[] = []
codes (String.◌∷◌ c s) = code c ∷ codes s

-- What the first byte of a character says: how many bytes follow, and the range of the next one.
-- A count of 4 marks a byte that starts no character.
abbrev pub lead : ℕ → record { more : ℕ; low : ℕ; high : ℕ }
lead b =
    if ltb b 0x80
    then record { more = 0; low = 0; high = 0 }
    else if ltb b 0xc2
    then record { more = 4; low = 0; high = 0 }
    else if ltb b 0xe0
    then record { more = 1; low = 0x80; high = 0xbf }
    else if b == 0xe0
    then record { more = 2; low = 0xa0; high = 0xbf }
    else if b == 0xed
    then record { more = 2; low = 0x80; high = 0x9f }
    else if ltb b 0xf0
    then record { more = 2; low = 0x80; high = 0xbf }
    else if b == 0xf0
    then record { more = 3; low = 0x90; high = 0xbf }
    else if ltb b 0xf4
    then record { more = 3; low = 0x80; high = 0xbf }
    else if b == 0xf4
    then record { more = 3; low = 0x80; high = 0x8f }
    else record { more = 4; low = 0; high = 0 }

-- The rest of a text of which `more` bytes of a character are still to come.
unfoldable pub utf8_from : ℕ → ℕ → ℕ → Bytes → Bool
utf8_from zero low high [] = true
utf8_from (suc more) low high [] = false
utf8_from zero low high (b ∷ rest) =
    let l = lead b in ltb l.more 4 && utf8_from l.more l.low l.high rest
utf8_from (suc more) low high (b ∷ rest) = leb low b && leb b high && utf8_from more 0x80 0xbf rest

-- `str::from_utf8(bytes).is_ok()`
unfoldable pub is_utf8 : Bytes → Bool
unfolding utf8_from
is_utf8 text = utf8_from 0 0 0 text
