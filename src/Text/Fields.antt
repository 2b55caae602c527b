-- ===== src/Text/Fields.antt =====
-- strings.Fields, strings.Join, and strings.Split at "&&".
use mini_deploy.Prelude.{ℕ, ◌&&◌, List, [], ◌∷◌, ◌++◌, eqb, if◌then◌else◌}
use mini_deploy.Text.Equality.{Text}
use mini_deploy.Text.Search.{cons_first}
use mini_deploy.Text.Trim.{is_space}

abbrev pub unless_empty : Text → List Text → List Text
unless_empty [] ws = ws
unless_empty (c ∷ cs) ws = (c ∷ cs) ∷ ws

-- The words of a text, with the one that has begun.
unfoldable pub words : Text → Text → List Text
unfolding is_space
words word [] = unless_empty word []
words word (c ∷ cs) =
    let next = words [] cs in
    let more = words (word ++ c ∷ []) cs in if is_space c then unless_empty word next else more

unfoldable pub fields : Text → List Text
unfolding words
fields s = words [] s

unfoldable pub join_with : ℕ → List Text → Text
join_with sep [] = []
join_with sep (w ∷ []) = w
join_with sep (w ∷ v ∷ ws) = w ++ sep ∷ join_with sep (v ∷ ws)

-- strings.Split(s, "&&")
unfoldable pub split_commands : Text → List Text
split_commands [] = [] ∷ []
split_commands (c ∷ []) = (c ∷ []) ∷ []
split_commands (c ∷ d ∷ rest) =
    let behind = split_commands rest in
    let more = split_commands (d ∷ rest) in
    if eqb c b'&' && eqb d b'&' then [] ∷ behind else cons_first c more
