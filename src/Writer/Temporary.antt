-- ===== src/Writer/Temporary.antt =====
-- The name of the temporary file in `delta_writer` of src/utils/writer.rs.
use harmonic.Prelude.{Bool, true, false, ◌==◌, if◌then◌else◌, bytes_eq}
use harmonic.Prelude.{Option, none, some, [], ◌∷◌, ◌++◌, length, length-append}
use harmonic.Prelude.{◌≡◌, ◌≢◌, refl, ap, ◌∙◌, arith, Option-cases, inl, inr, ==_iff, Bool-cases}
use harmonic.Text.{Bytes, is_utf8, utf8_from}
use harmonic.Path.{Component, FilePath, normal, root_dir, cur_dir, parent_dir}

-- A name in two at its last dot.
unfoldable pub last_dot : Bytes → Option (Bytes × Bytes)
last_dot [] = none
last_dot (b ∷ name) = elim (last_dot name) [
  | some parts ↦ some (b ∷ parts.0, parts.1)
  | none ↦ if b == b'.' then some ([], name) else none
]

-- `Path::file_stem` and `Path::extension` of a path that ends in the name: a dot at the very front
-- starts no extension.
unfoldable pub stem_and_extension : Bytes → Bytes × Option Bytes
unfolding last_dot
stem_and_extension name = elim (last_dot name) [
  | none ↦ (name, none)
  | some parts ↦ if bytes_eq parts.0 [] then (name, none) else (parts.0, some parts.1)
]

abbrev pub tmp : Bytes
tmp = b't' ∷ b'm' ∷ b'p' ∷ []

abbrev pub tmp_extension : Option Bytes → Bytes
tmp_extension none = tmp
tmp_extension (some e) = if is_utf8 e then e ++ b'.' ∷ tmp else tmp

-- `set_extension` on the name.
unfoldable pub tmp_name : Bytes → Bytes
tmp_name name = let parts = stem_and_extension name in parts.0 ++ b'.' ∷ tmp_extension parts.1

-- `tmp_file`: a path that ends in no name stays as it is.
unfoldable pub tmp_file : FilePath → FilePath
tmp_file [] = []
tmp_file (root_dir ∷ []) = root_dir ∷ []
tmp_file (cur_dir ∷ []) = cur_dir ∷ []
tmp_file (parent_dir ∷ []) = parent_dir ∷ []
tmp_file (normal name ∷ []) = normal (tmp_name name) ∷ []
tmp_file (c ∷ d ∷ p) = c ∷ tmp_file (d ∷ p)

last_dot_lem :
    (name : Bytes) (parts : Bytes × Bytes)
    → last_dot name ≡ some parts
    → name ≡ parts.0 ++ b'.' ∷ parts.1
unfolding last_dot
last_dot_lem [] parts e = cc
last_dot_lem (b ∷ name) parts e = elim (Option-cases (last_dot name)) [
  | inl none_left ↦ ground (arith, ==_iff b b'.')
  | inr (q, found) ↦ ground (arith, last_dot_lem name q found)
]

longer : (a b : Bytes) → a ≢ [] → b ++ a ≢ b
longer [] b h e = h refl
longer (x ∷ a) b h e = omega (arith, ap length e, length-append b (x ∷ a))

append-cancel : (a b c : Bytes) → a ++ b ≡ a ++ c → b ≡ c
append-cancel [] b c e = e
append-cancel (x ∷ a) b c e = append-cancel a b c (ap tail e)
  where
    tail : Bytes → Bytes
    tail [] = []
    tail (y ∷ ys) = ys

tmp-is_utf8 : is_utf8 tmp ≡ true
unfolding is_utf8 utf8_from
tmp-is_utf8 = refl

abbrev IsOther : Bytes → Bytes × Option Bytes → Type 0
IsOther name parts = parts.0 ++ b'.' ∷ tmp_extension parts.1 ≢ name

IsOther-whole : (name : Bytes) → IsOther name (name, none)
IsOther-whole name = longer (b'.' ∷ tmp) name (λ e. cc)

IsOther-parts : (name stem e : Bytes) → name ≡ stem ++ b'.' ∷ e → IsOther name (stem, some e)
IsOther-parts name stem e split = elim (Bool-cases (is_utf8 e)) [
  | inl text ↦
      rw (split, text)
        (λ same. longer (b'.' ∷ tmp) e (λ h. cc) (ap tail (append-cancel stem _ _ same)))
  | inr broken ↦
      rw (split, broken) (λ same. not_text broken (ap tail (append-cancel stem _ _ same)))
]
  where
    tail : Bytes → Bytes
    tail [] = []
    tail (y ∷ ys) = ys

    not_text : is_utf8 e ≡ false → tmp ≡ e → ⊥
    not_text broken same = cc (broken, ap is_utf8 same, tmp-is_utf8)

parts-IsOther : (name : Bytes) → IsOther name (stem_and_extension name)
unfolding stem_and_extension
parts-IsOther name = elim (Option-cases (last_dot name)) [
  | inl whole ↦ rw (whole, stem_and_extension) (IsOther-whole name)
  | inr (parts, found) ↦ elim (Bool-cases (bytes_eq parts.0 [])) [
    | inl hidden ↦ rw (found, hidden, stem_and_extension) (IsOther-whole name)
    | inr visible ↦
        rw (found, visible, stem_and_extension)
          (IsOther-parts name parts.0 parts.1 (last_dot_lem name parts found))
  ]
]

tmp_name-differs : (name : Bytes) → tmp_name name ≢ name
unfolding tmp_name
tmp_name-differs name = parts-IsOther name

-- Whether a path ends in a name.
unfoldable pub has_file_name : FilePath → Bool
has_file_name [] = false
has_file_name (root_dir ∷ []) = false
has_file_name (cur_dir ∷ []) = false
has_file_name (parent_dir ∷ []) = false
has_file_name (normal name ∷ []) = true
has_file_name (c ∷ d ∷ p) = has_file_name (d ∷ p)

normal_name : FilePath → Bytes
normal_name (normal name ∷ p) = name
normal_name _ = []

rest_of : FilePath → FilePath
rest_of [] = []
rest_of (c ∷ p) = p

-- If the path of a target ends in a name, its temporary file has another path.
pub tmp_file-differs : (p : FilePath) → has_file_name p ≡ true → tmp_file p ≢ p
unfolding tmp_file has_file_name normal_name rest_of
tmp_file-differs [] h = cc
tmp_file-differs (root_dir ∷ []) h = cc
tmp_file-differs (cur_dir ∷ []) h = cc
tmp_file-differs (parent_dir ∷ []) h = cc
tmp_file-differs (normal name ∷ []) h = λ e. tmp_name-differs name (ap normal_name e)
tmp_file-differs (c ∷ d ∷ p) h = λ e. tmp_file-differs (d ∷ p) h (ap rest_of e)

tmp_file-cons : (c d : Component) (p : FilePath) → tmp_file (c ∷ d ∷ p) ≡ c ∷ tmp_file (d ∷ p)
unfolding tmp_file
tmp_file-cons root_dir d p = refl
tmp_file-cons cur_dir d p = refl
tmp_file-cons parent_dir d p = refl
tmp_file-cons (normal name) d p = refl

-- The temporary file of a path below a directory is below it too.
pub tmp_file-append :
    (base : FilePath) (c : Component) (p : FilePath)
    → tmp_file (base ++ c ∷ p) ≡ base ++ tmp_file (c ∷ p)
tmp_file-append [] c p = refl
tmp_file-append (b ∷ []) c p = tmp_file-cons b c p
tmp_file-append (b ∷ d ∷ base) c p =
    tmp_file-cons b d (base ++ c ∷ p) ∙ ap (λ q. b ∷ q) (tmp_file-append (d ∷ base) c p)
