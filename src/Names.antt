-- ===== src/Names.antt =====
-- Environment variable names in app/runtime_environment.go: their pattern, and the sorted lists of
-- distinct names that the records keep.
pub mod Laws
use mini_deploy.Prelude.{
  ℕ, Bool, true, false, ◌&&◌, ◌||◌, not, List, [], ◌∷◌, every, keep_if, eqb, ltb, leb,
  if◌then◌else◌,
}
use mini_deploy.Text.{Text, codes, ◌==◌}

-- Go's < on strings, the order of sort.Strings. The order of code points is that of their UTF-8.
unfoldable pub text_lt : Text → Text → Bool
text_lt [] [] = false
text_lt [] (y ∷ ys) = true
text_lt (x ∷ xs) [] = false
text_lt (x ∷ xs) (y ∷ ys) = let rest = text_lt xs ys in if eqb x y then rest else ltb x y

abbrev pub is_name_start : ℕ → Bool
is_name_start c = leb b'A' c && leb c b'Z' || leb b'a' c && leb c b'z' || eqb c b'_'

abbrev pub is_name_rune : ℕ → Bool
is_name_rune c = is_name_start c || leb b'0' c && leb c b'9'

-- runtimeEnvironmentNamePattern, ^[A-Za-z_][A-Za-z0-9_]*$
unfoldable pub matches_name : Text → Bool
matches_name [] = false
matches_name (c ∷ cs) = is_name_start c && every is_name_rune cs

-- A name enters a set of names that is listed in order.
unfoldable pub insert_name : Text → List Text → List Text
unfolding ◌==◌ text_lt
insert_name n [] = n ∷ []
insert_name n (m ∷ ms) =
    let later = m ∷ insert_name n ms in
    if n == m then m ∷ ms else if text_lt n m then n ∷ m ∷ ms else later

-- The keys of a map of these names, sorted.
unfoldable pub sorted_names : List Text → List Text
unfolding insert_name
sorted_names [] = []
sorted_names (n ∷ ns) = insert_name n (sorted_names ns)

abbrev pub is_managed_name : Text → Bool
is_managed_name n = not (n == codes "PORT") && matches_name n

unfoldable pub normalize_runtime_environment_names : List Text → List Text
unfolding sorted_names matches_name ◌==◌
normalize_runtime_environment_names names = sorted_names (keep_if is_managed_name names)
