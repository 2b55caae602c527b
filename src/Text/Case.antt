-- ===== src/Text/Case.antt =====
-- strings.ToLower, and strings.EqualFold against an ASCII literal.
use mini_deploy.Prelude.{ℕ, ◌+◌, Bool, ◌&&◌, map, eqb, leb, ltb, if◌then◌else◌}
use mini_deploy.Text.Equality.{Text, ◌==◌}

-- unicode.ToLower. Above ASCII it is the table of the Unicode database, the argument `beyond`.
unfoldable pub lower_rune : (ℕ → ℕ) → ℕ → ℕ
lower_rune beyond c =
    if ltb c 128 then (if leb b'A' c && leb c b'Z' then c + 32 else c) else beyond c

unfoldable pub to_lower : (ℕ → ℕ) → Text → Text
unfolding lower_rune
to_lower beyond s = map (lower_rune beyond) s

-- The ASCII letter that simple folding takes a code point to. Two letters above ASCII fold into it:
-- the long s, and the Kelvin sign.
unfoldable pub fold_rune : ℕ → ℕ
fold_rune c =
    if leb b'A' c && leb c b'Z'
    then c + 32
    else if eqb c 0x17F
    then b's'
    else if eqb c 0x212A
    then b'k'
    else c

-- strings.EqualFold(s, word), where `word` is in lower-case ASCII.
unfoldable pub equal_fold : Text → Text → Bool
unfolding fold_rune ◌==◌
equal_fold s word = map fold_rune s == word
