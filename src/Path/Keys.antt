-- ===== src/Path/Keys.antt =====
-- `Ord` of `Path`: components are compared one by one, in the order in which the enum lists them,
-- and names by their bytes.
use harmonic.Prelude.{ℕ, zero, suc, compare, Ordering, ◌≡◌, refl, ap, List, [], ◌∷◌}
use harmonic.Order.{Ord, IsLawful, compare-IsLawful}
use harmonic.Order.Lists.{lex, lex-IsLawful, by_key-IsLawful}
use harmonic.Path.{Component, FilePath, root_dir, cur_dir, parent_dir, normal}

-- A component as the numbers that decide its place.
abbrev pub rank : Component → List ℕ
rank root_dir = 0 ∷ []
rank cur_dir = 1 ∷ []
rank parent_dir = 2 ∷ []
rank (normal name) = 3 ∷ name

unrank : List ℕ → Component
unrank [] = root_dir
unrank (zero ∷ ns) = root_dir
unrank (suc zero ∷ ns) = cur_dir
unrank (suc (suc zero) ∷ ns) = parent_dir
unrank (suc (suc (suc n)) ∷ ns) = normal ns

unrank-rank : (c : Component) → unrank (rank c) ≡ c
unfolding unrank
unrank-rank root_dir = refl
unrank-rank cur_dir = refl
unrank-rank parent_dir = refl
unrank-rank (normal name) = refl

rank-injective : (a b : Component) → rank a ≡ rank b → a ≡ b
rank-injective a b e = cc (ap unrank e, unrank-rank a, unrank-rank b)

abbrev pub component_cmp : Component → Component → Ordering
component_cmp a b = lex compare (rank a) (rank b)

pub component_cmp-IsLawful : IsLawful component_cmp
component_cmp-IsLawful =
    by_key-IsLawful rank (lex compare) (lex-IsLawful compare compare-IsLawful) rank-injective

instance abbrev pub path_ord : Ord FilePath
path_ord = record {
  cmp = lex component_cmp;
  lawful = lex-IsLawful component_cmp component_cmp-IsLawful;
}
