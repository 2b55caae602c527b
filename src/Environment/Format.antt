-- ===== src/Environment/Format.antt =====
-- app/runtime_environment.go: valid environments, and the lines name=value of their file.
use mini_deploy.Prelude.{
  ℕ, Bool, ◌&&◌, not, Option, none, some, List, [], ◌∷◌, ◌++◌, map, every, eqb, if◌then◌else◌,
}
use mini_deploy.Text.{Text, ◌==◌, is_empty, split, cut}
use mini_deploy.Result.{Result, ok, err, invalid_environment}
use mini_deploy.Names.{matches_name, is_managed_name, sorted_names}
use mini_deploy.World.{Environment}

abbrev pub is_line_rune : ℕ → Bool
is_line_rune c = not (eqb c 0) && not (eqb c 13) && not (eqb c 10)

-- A name of the pattern that is not PORT, with a value of one line and no NUL.
unfoldable pub is_valid_value : Text × Text → Bool
unfolding matches_name ◌==◌
is_valid_value (name, value) = is_managed_name name && every is_line_rune value

unfoldable pub validate_runtime_environment : Environment → Result (Unit {0})
unfolding is_valid_value
validate_runtime_environment values =
    if every is_valid_value values then ok tt else err invalid_environment

unfoldable pub runtime_environment_names : Environment → List Text
unfolding sorted_names
runtime_environment_names values = sorted_names (map (λ v. v.0) values)

-- values[name], with its second result
unfoldable pub lookup : Text → Environment → Option Text
unfolding ◌==◌
lookup name [] = none
lookup name ((key, value) ∷ rest) = if key == name then some value else lookup name rest

abbrev pub or_empty : Option Text → Text
or_empty none = []
or_empty (some value) = value

-- name, '=', value, '\n'
abbrev pub line_of : Text → Text → Text
line_of name value = name ++ b'=' ∷ value

unfoldable pub encode_names : List Text → Environment → Text
unfolding lookup
encode_names [] values = []
encode_names (n ∷ ns) values = line_of n (or_empty (lookup n values)) ++ 10 ∷ encode_names ns values

unfoldable pub encode_runtime_environment : Environment → Text
unfolding encode_names runtime_environment_names
encode_runtime_environment values = encode_names (runtime_environment_names values) values

abbrev add_value : Environment → Text → Option Text → Option Text → Result Environment
add_value values name none found = err invalid_environment
add_value values name (some value) none = ok (values ++ (name, value) ∷ [])
add_value values name (some value) (some old) = err invalid_environment

-- One line of the file onto the values so far.
unfoldable pub parse_line : Environment → Text → Result Environment
unfolding cut lookup
parse_line values line =
    let parts = cut b'=' line in
    if is_empty line then ok values else add_value values parts.0 parts.1 (lookup parts.0 values)

unfoldable pub parse_lines : Environment → List Text → Result Environment
parse_lines values [] = ok values
parse_lines values (line ∷ lines) = elim (parse_line values line) [
  | ok more ↦ parse_lines more lines
  | err e ↦ err e
]

abbrev validated : Result Environment → Result Environment
validated (ok values) = if every is_valid_value values then ok values else err invalid_environment
validated (err e) = err e

unfoldable pub parse_runtime_environment : Text → Result Environment
unfolding parse_lines is_valid_value
parse_runtime_environment bytes = validated (parse_lines [] (split 10 bytes))
