-- ===== src/Text/Trim.antt =====
-- strings.TrimSpace and strings.Trim.
use mini_deploy.Prelude.{
  ℕ, suc, ◌≤◌, length, ◌≡◌, refl, Bool, true, false, ◌&&◌, ◌||◌, not, [], ◌∷◌, every, arith, eqb,
  leb, if◌then◌else◌,
}
use mini_deploy.Text.Equality.{Text}

-- unicode.IsSpace: the white space of Latin-1 and the other code points with that property.
unfoldable pub is_space : ℕ → Bool
is_space c =
    leb 9 c && leb c 13
    || eqb c 32
    || eqb c 0x85
    || eqb c 0xA0
    || eqb c 0x1680
    || leb 0x2000 c && leb c 0x200A
    || eqb c 0x2028
    || eqb c 0x2029
    || eqb c 0x202F
    || eqb c 0x205F
    || eqb c 0x3000

unfoldable pub trim_left : (ℕ → Bool) → Text → Text
trim_left p [] = []
trim_left p (c ∷ cs) = let rest = trim_left p cs in if p c then rest else c ∷ cs

-- The last code points that pass the test go: a code point stays if one behind it stays.
abbrev pub cons_unless : Bool → ℕ → Text → Text
cons_unless drop c [] = if drop then [] else c ∷ []
cons_unless drop c (d ∷ ds) = c ∷ d ∷ ds

unfoldable pub trim_right : (ℕ → Bool) → Text → Text
trim_right p [] = []
trim_right p (c ∷ cs) = cons_unless (p c) c (trim_right p cs)

unfoldable pub trim : (ℕ → Bool) → Text → Text
unfolding trim_left trim_right
trim p s = trim_right p (trim_left p s)

unfoldable pub trim_space : Text → Text
unfolding trim is_space
trim_space s = trim is_space s

-- The text does not begin with a code point that passes the test.
abbrev pub starts_clean : (ℕ → Bool) → Text → Bool
starts_clean p [] = true
starts_clean p (c ∷ cs) = not (p c)

-- The text does not end with one.
abbrev pub ends_clean : (ℕ → Bool) → Text → Bool
ends_clean p [] = true
ends_clean p (c ∷ []) = not (p c)
ends_clean p (c ∷ d ∷ ds) = ends_clean p (d ∷ ds)

module _ (p : ℕ → Bool) where
  pub trim_left-clean : (s : Text) → starts_clean p (trim_left p s) ≡ true
  unfolding trim_left
  trim_left-clean [] = refl
  trim_left-clean (c ∷ cs) = ground (arith, trim_left-clean cs)

  cons_unless-ends :
      (c : ℕ) (r : Text) → ends_clean p r ≡ true → ends_clean p (cons_unless (p c) c r) ≡ true
  cons_unless-ends c [] h = ground arith
  cons_unless-ends c (d ∷ ds) h = h

  pub trim_right-ends : (s : Text) → ends_clean p (trim_right p s) ≡ true
  unfolding trim_right
  trim_right-ends [] = refl
  trim_right-ends (c ∷ cs) = cons_unless-ends c (trim_right p cs) (trim_right-ends cs)

  cons_unless-starts :
      (c : ℕ) (r : Text) → p c ≡ false → starts_clean p (cons_unless (p c) c r) ≡ true
  cons_unless-starts c [] h = ground arith
  cons_unless-starts c (d ∷ ds) h = ground arith

  pub trim_right-starts :
      (s : Text) → starts_clean p s ≡ true → starts_clean p (trim_right p s) ≡ true
  unfolding trim_right
  trim_right-starts [] h = refl
  trim_right-starts (c ∷ cs) h = cons_unless-starts c (trim_right p cs) (ground arith)

  -- What the cutset left has no end in the cutset.
  pub trim-clean :
      (s : Text) → (starts_clean p (trim p s) ≡ true) × (ends_clean p (trim p s) ≡ true)
  unfolding trim
  trim-clean s =
      (trim_right-starts (trim_left p s) (trim_left-clean s), trim_right-ends (trim_left p s))

  trim_left_idle : (s : Text) → starts_clean p s ≡ true → trim_left p s ≡ s
  unfolding trim_left
  trim_left_idle [] h = refl
  trim_left_idle (c ∷ cs) h = ground arith

  trim_right_idle : (s : Text) → ends_clean p s ≡ true → trim_right p s ≡ s
  unfolding trim_right
  trim_right_idle [] h = refl
  trim_right_idle (c ∷ []) h = ground arith
  trim_right_idle (c ∷ d ∷ ds) h = ground (arith, trim_right_idle (d ∷ ds) h)

  pub trim_idle : (s : Text) → starts_clean p s ≡ true → ends_clean p s ≡ true → trim p s ≡ s
  unfolding trim
  trim_idle s h k = ground (arith, trim_left_idle s h, trim_right_idle s k)

  pub trim-trim : (s : Text) → trim p (trim p s) ≡ trim p s
  trim-trim s = trim_idle (trim p s) (trim-clean s).0 (trim-clean s).1

  -- A property that every code point of a text has, every code point of the trimmed text has.
  every-cons_unless :
      (q : ℕ → Bool) (b : Bool) (c : ℕ) (r : Text)
      → q c ≡ true
      → every q r ≡ true
      → every q (cons_unless b c r) ≡ true
  every-cons_unless q b c [] h k = ground arith
  every-cons_unless q b c (d ∷ ds) h k = ground arith

  every-trim_right : (q : ℕ → Bool) (s : Text) → every q s ≡ true → every q (trim_right p s) ≡ true
  unfolding trim_right
  every-trim_right q [] h = refl
  every-trim_right q (c ∷ cs) h =
      every-cons_unless q (p c) c (trim_right p cs) (ground arith)
        (every-trim_right q cs (ground arith))

  every-trim_left : (q : ℕ → Bool) (s : Text) → every q s ≡ true → every q (trim_left p s) ≡ true
  unfolding trim_left
  every-trim_left q [] h = refl
  every-trim_left q (c ∷ cs) h = ground (arith, every-trim_left q cs)

  pub every-trim : (q : ℕ → Bool) (s : Text) → every q s ≡ true → every q (trim p s) ≡ true
  unfolding trim
  every-trim q s h = every-trim_right q (trim_left p s) (every-trim_left q s h)

pub trim_space-trim_space : (s : Text) → trim_space (trim_space s) ≡ trim_space s
unfolding trim_space
trim_space-trim_space s = trim-trim is_space s

module _ (p : ℕ → Bool) where
  length-cons_unless : (b : Bool) (c : ℕ) (r : Text) → length (cons_unless b c r) ≤ suc (length r)
  length-cons_unless b c [] = ground arith
  length-cons_unless b c (d ∷ ds) = omega arith

  length-trim_right : (s : Text) → length (trim_right p s) ≤ length s
  unfolding trim_right
  length-trim_right [] = omega arith
  length-trim_right (c ∷ cs) =
      omega (arith, length-cons_unless (p c) c (trim_right p cs), length-trim_right cs)

  length-trim_left : (s : Text) → length (trim_left p s) ≤ length s
  unfolding trim_left
  length-trim_left [] = omega arith
  length-trim_left (c ∷ cs) = ground (arith, length-trim_left cs)

  pub length-trim : (s : Text) → length (trim p s) ≤ length s
  unfolding trim
  length-trim s = omega (arith, length-trim_right (trim_left p s), length-trim_left s)
