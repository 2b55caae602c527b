-- ===== src/Text/Search.antt =====
-- strings.HasPrefix, TrimPrefix, HasSuffix, TrimSuffix, ContainsAny, IndexByte and Split.
use mini_deploy.Prelude.{
  ℕ, ◌≡◌, refl, Bool, true, false, Option, none, some, List, [], ◌∷◌, ◌++◌, any, arith, eqb,
  if◌then◌else◌,
}
use mini_deploy.Text.Equality.{Text, ◌==◌}

-- The rest of a text behind a prefix.
unfoldable pub after_prefix : Text → Text → Option Text
after_prefix [] s = some s
after_prefix (p ∷ ps) [] = none
after_prefix (p ∷ ps) (c ∷ cs) = if eqb p c then after_prefix ps cs else none

unfoldable pub has_prefix : Text → Text → Bool
unfolding after_prefix
has_prefix s prefix = elim (after_prefix prefix s) [ none ↦ false | some _ ↦ true ]

unfoldable pub trim_prefix : Text → Text → Text
unfolding after_prefix
trim_prefix s prefix = elim (after_prefix prefix s) [ none ↦ s | some rest ↦ rest ]

-- strings.TrimSuffix: the suffix is dropped once, where the rest of the text is the suffix.
unfoldable pub trim_suffix : Text → Text → Text
unfolding ◌==◌
trim_suffix [] suffix = []
trim_suffix (c ∷ cs) suffix =
    let rest = trim_suffix cs suffix in if (c ∷ cs) == suffix then [] else c ∷ rest

-- strings.ContainsAny, and ContainsRune for a set of one
unfoldable pub contains_any : Text → Text → Bool
contains_any s set = any (λ c. any (eqb c) set) s

abbrev pub cons_first : ℕ → List Text → List Text
cons_first c [] = (c ∷ []) ∷ []
cons_first c (p ∷ ps) = (c ∷ p) ∷ ps

-- strings.Split for a separator of one code point
unfoldable pub split : ℕ → Text → List Text
split sep [] = [] ∷ []
split sep (c ∷ cs) = let rest = split sep cs in if eqb c sep then [] ∷ rest else cons_first c rest

-- strings.SplitN(s, sep, 2): the text before the first separator and, if there is one, what follows.
unfoldable pub cut : ℕ → Text → Text × Option Text
cut sep [] = ([], none)
cut sep (c ∷ cs) =
    let rest = cut sep cs in if eqb c sep then ([], some cs) else (c ∷ rest.0, rest.1)

pub after_prefix-append : (p s : Text) → after_prefix p (p ++ s) ≡ some s
unfolding after_prefix
after_prefix-append [] s = refl
after_prefix-append (p ∷ ps) s = ground (arith, after_prefix-append ps s)

-- A text is cut at its first separator.
pub cut-append :
    (sep : ℕ) (s t : Text) → any (eqb sep) s ≡ false → cut sep (s ++ sep ∷ t) ≡ (s, some t)
unfolding cut
cut-append sep [] t h = ground arith
cut-append sep (c ∷ cs) t h = ground (arith, cut-append sep cs t)
