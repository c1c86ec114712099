-- ===== src/Text/Trim.antt =====
-- `str::trim` on the bytes of a text.
use harmonic.Prelude.{ℕ, zero, suc, if◌then◌else◌, ◌==◌}
use harmonic.Prelude.{Option, none, some, List, [], ◌∷◌, length}
use mathlib.Core.List.{reverse}
use harmonic.Text.{Bytes}

-- `char::is_whitespace`, by the UTF-8 encodings.
abbrev pub whitespace : List Bytes
whitespace =
    (9 ∷ [])
    ∷ (10 ∷ [])
    ∷ (11 ∷ [])
    ∷ (12 ∷ [])
    ∷ (13 ∷ [])
    ∷ (32 ∷ [])
    ∷ (0xc2 ∷ 0x85 ∷ [])
    ∷ (0xc2 ∷ 0xa0 ∷ [])
    ∷ (0xe1 ∷ 0x9a ∷ 0x80 ∷ [])
    ∷ (0xe2 ∷ 0x80 ∷ 0x80 ∷ [])
    ∷ (0xe2 ∷ 0x80 ∷ 0x81 ∷ [])
    ∷ (0xe2 ∷ 0x80 ∷ 0x82 ∷ [])
    ∷ (0xe2 ∷ 0x80 ∷ 0x83 ∷ [])
    ∷ (0xe2 ∷ 0x80 ∷ 0x84 ∷ [])
    ∷ (0xe2 ∷ 0x80 ∷ 0x85 ∷ [])
    ∷ (0xe2 ∷ 0x80 ∷ 0x86 ∷ [])
    ∷ (0xe2 ∷ 0x80 ∷ 0x87 ∷ [])
    ∷ (0xe2 ∷ 0x80 ∷ 0x88 ∷ [])
    ∷ (0xe2 ∷ 0x80 ∷ 0x89 ∷ [])
    ∷ (0xe2 ∷ 0x80 ∷ 0x8a ∷ [])
    ∷ (0xe2 ∷ 0x80 ∷ 0xa8 ∷ [])
    ∷ (0xe2 ∷ 0x80 ∷ 0xa9 ∷ [])
    ∷ (0xe2 ∷ 0x80 ∷ 0xaf ∷ [])
    ∷ (0xe2 ∷ 0x81 ∷ 0x9f ∷ [])
    ∷ (0xe3 ∷ 0x80 ∷ 0x80 ∷ [])
    ∷ []

-- The rest of a text behind a prefix.
unfoldable pub behind : Bytes → Bytes → Option Bytes
behind [] text = some text
behind (b ∷ prefix) [] = none
behind (b ∷ prefix) (c ∷ text) = let rest = behind prefix text in if b == c then rest else none

unfoldable pub behind_any : List Bytes → Bytes → Option Bytes
unfolding behind
behind_any [] text = none
behind_any (prefix ∷ prefixes) text = elim (behind prefix text) [
  | some rest ↦ some rest
  | none ↦ behind_any prefixes text
]

-- On fuel: each round takes at least one byte.
unfoldable pub strip : ℕ → List Bytes → Bytes → Bytes
unfolding behind_any
strip zero prefixes text = text
strip (suc fuel) prefixes text = elim (behind_any prefixes text) [
  | none ↦ text
  | some rest ↦ strip fuel prefixes rest
]

abbrev pub reversed : List Bytes → List Bytes
reversed [] = []
reversed (text ∷ texts) = reverse text ∷ reversed texts

-- `str::trim`
unfoldable pub trim : Bytes → Bytes
unfolding strip
trim text =
    let front = strip (length text) whitespace text in
    reverse (strip (length front) (reversed whitespace) (reverse front))
