-- ===== src/Text/Split.antt =====
-- The parts into which strings.Split takes a text.
use mini_deploy.Prelude.{
  ℕ, ◌≡◌, ◌≢◌, refl, false, List, [], ◌∷◌, ◌++◌, any, arith, eqb, Bool-cases, inl, inr,
}
use mini_deploy.Text.Equality.{Text}
use mini_deploy.Text.Search.{split, cons_first}

cons_first-append :
    (c : ℕ) (ps qs : List Text) → ps ≢ [] → cons_first c (ps ++ qs) ≡ cons_first c ps ++ qs
cons_first-append c [] qs h = absurd (h refl)
cons_first-append c (p ∷ ps) qs h = refl

cons_first-ne-nil : (c : ℕ) (ps : List Text) → cons_first c ps ≢ []
cons_first-ne-nil c [] h = cc
cons_first-ne-nil c (p ∷ ps) h = cc

split-ne-nil : (sep : ℕ) (s : Text) → split sep s ≢ []
unfolding split
split-ne-nil sep [] h = cc
split-ne-nil sep (c ∷ cs) h = elim (Bool-cases (eqb c sep)) [
  | inl e ↦ ground arith
  | inr e ↦ cons_first-ne-nil c (split sep cs) (ground arith)
]

-- A separator splits a text into the parts before it and the parts behind it.
pub split-append : (sep : ℕ) (s t : Text) → split sep (s ++ sep ∷ t) ≡ split sep s ++ split sep t
unfolding split
split-append sep [] t = ground arith
split-append sep (c ∷ cs) t = ground (
  arith,
  split-append sep cs t,
  cons_first-append c (split sep cs) (split sep t) (split-ne-nil sep cs),
)

pub split_whole : (sep : ℕ) (s : Text) → any (λ c. eqb c sep) s ≡ false → split sep s ≡ s ∷ []
unfolding split
split_whole sep [] h = refl
split_whole sep (c ∷ cs) h = ground (arith, split_whole sep cs)
