-- ===== src/Environment/Laws.antt =====
-- The round trip of the environment file.
use mini_deploy.Prelude.{
  ℕ, ◌≡◌, refl, ap, ◌∙◌, sym, Bool, true, false, ◌||◌, none, some, List, [], ◌∷◌, ◌++◌, map, every,
  any, append_assoc, append-nil, arith, eqb, if◌then◌else◌,
}
use mini_deploy.Text.{Text, ◌==◌, eq_iff, is_empty, split, split-append, split_whole, cut-append}
use mini_deploy.Result.{ok}
use mini_deploy.Names.{matches_name, is_name_rune, is_managed_name, insert_name, sorted_names}
use mini_deploy.Names.Laws.{
  is_apart, is_distinct, is_sorted-sorted_names, distinct_of_sorted, every-sorted_names,
}
use mini_deploy.World.{Environment}
use mini_deploy.Environment.Format.{
  is_line_rune, is_valid_value, validate_runtime_environment, runtime_environment_names, lookup,
  or_empty, line_of, encode_names, encode_runtime_environment, parse_line, parse_lines,
  parse_runtime_environment,
}

-- The values of `names`, in that order.
abbrev pub select : List Text → Environment → Environment
select names values = map (λ n. (n, or_empty (lookup n values))) names

lookup-snoc :
    (m n v : Text) (values : Environment)
    → lookup m values ≡ none
    → lookup m (values ++ (n, v) ∷ []) ≡ (if n == m then some v else none)
unfolding lookup
lookup-snoc m n v [] h = refl
lookup-snoc m n v ((k, w) ∷ rest) h = ground (arith, lookup-snoc m n v rest)

abbrev is_absent : Environment → Text → Bool
is_absent values n = elim (lookup n values) [ none ↦ true | some _ ↦ false ]

absent_snoc :
    (n v : Text) (values : Environment) (ms : List Text)
    → every (is_absent values) ms ≡ true
    → is_apart n ms ≡ true
    → every (is_absent (values ++ (n, v) ∷ [])) ms ≡ true
absent_snoc n v values [] h k = refl
absent_snoc n v values (m ∷ ms) h k =
    ground (arith, lookup-snoc m n v values, absent_snoc n v values ms)

-- A rune of a name is none of the separators.
name_rune_plain : (c : ℕ) → is_name_rune c ≡ true → (eqb b'=' c ≡ false) × (eqb c 10 ≡ false)
name_rune_plain c h = (ground arith, ground arith)

name_runes_plain :
    (s : Text)
    → every is_name_rune s ≡ true
    → (any (eqb b'=') s ≡ false) × (any (λ c. eqb c 10) s ≡ false)
name_runes_plain [] h = (refl, refl)
name_runes_plain (c ∷ cs) h = ground (arith, name_rune_plain c, name_runes_plain cs)

name_runes : (s : Text) → is_managed_name s ≡ true → every is_name_rune s ≡ true
unfolding matches_name
name_runes [] h = refl
name_runes (c ∷ cs) h = ground arith

line_runes_plain : (s : Text) → every is_line_rune s ≡ true → any (λ c. eqb c 10) s ≡ false
line_runes_plain [] h = refl
line_runes_plain (c ∷ cs) h = ground (arith, line_runes_plain cs)

any-append :
    (p : ℕ → Bool) (s t : Text) → any p s ≡ false → any p t ≡ false → any p (s ++ t) ≡ false
any-append p [] t h k = k
any-append p (c ∷ cs) t h k = ground (arith, any-append p cs t)

-- The line of a valid pair has no line break.
line_plain :
    (n v : Text)
    → is_managed_name n ≡ true
    → every is_line_rune v ≡ true
    → any (λ c. eqb c 10) (line_of n v) ≡ false
line_plain n v h k =
    any-append (λ c. eqb c 10) n (b'=' ∷ v) (name_runes_plain n (name_runes n h)).1
      (ground (arith, line_runes_plain v k))

line_not_empty : (n v : Text) → is_empty (line_of n v) ≡ false
line_not_empty [] v = refl
line_not_empty (c ∷ cs) v = refl

parse_line_lem :
    (values : Environment) (n v : Text)
    → is_managed_name n ≡ true
    → lookup n values ≡ none
    → parse_line values (line_of n v) ≡ ok (values ++ (n, v) ∷ [])
unfolding parse_line
parse_line_lem values n v h k =
    rw (line_not_empty, cut-append b'=' n v (name_runes_plain n (name_runes n h)).0, k)

value_plain :
    (n : Text) (values : Environment)
    → every is_valid_value values ≡ true
    → every is_line_rune (or_empty (lookup n values)) ≡ true
unfolding lookup is_valid_value
value_plain n [] h = refl
value_plain n ((k, v) ∷ rest) h = ground (arith, value_plain n rest)

lines_of_encoded :
    (n : Text) (ns : List Text) (values : Environment)
    → is_managed_name n ≡ true
    → every is_valid_value values ≡ true
    → split 10 (encode_names (n ∷ ns) values)
      ≡ line_of n (or_empty (lookup n values)) ∷ split 10 (encode_names ns values)
unfolding encode_names
lines_of_encoded n ns values h k =
    let line = line_of n (or_empty (lookup n values)) in
    split-append 10 line (encode_names ns values)
    ∙ ap (λ parts. parts ++ split 10 (encode_names ns values)) {y = line ∷ []}
        (split_whole 10 line (line_plain n (or_empty (lookup n values)) h (value_plain n values k)))

parse_lines-encode_names :
    (done : Environment) (ns : List Text) (values : Environment)
    → every is_valid_value values ≡ true
    → every is_managed_name ns ≡ true
    → is_distinct ns ≡ true
    → every (is_absent done) ns ≡ true
    → parse_lines done (split 10 (encode_names ns values)) ≡ ok (done ++ select ns values)
unfolding parse_lines
parse_lines-encode_names done [] values h m d a =
    unfold encode_names split parse_line in ap ok (sym (append-nil done))
parse_lines-encode_names done (n ∷ ns) values h m d a =
    let v = or_empty (lookup n values) in
    rw
      (
        lines_of_encoded n ns values (ground arith) h,
        parse_lines,
        parse_line_lem done n v (ground arith) (ground arith),
      )
      (parse_lines-encode_names (done ++ (n, v) ∷ []) ns values h (ground arith) (ground arith)
          (absent_snoc n v done ns (ground arith) (ground arith))
        ∙ ap ok (append_assoc done ((n, v) ∷ []) (select ns values)))

keys_managed :
    (values : Environment)
    → every is_valid_value values ≡ true
    → every is_managed_name (map (λ v. v.0) values) ≡ true
unfolding is_valid_value
keys_managed [] h = refl
keys_managed ((k, v) ∷ rest) h = ground (arith, keys_managed rest)

all_absent : (ns : List Text) → every (is_absent []) ns ≡ true
unfolding lookup
all_absent [] = refl
all_absent (n ∷ ns) = all_absent ns

select_valid :
    (ns : List Text) (values : Environment)
    → every is_valid_value values ≡ true
    → every is_managed_name ns ≡ true
    → every is_valid_value (select ns values) ≡ true
unfolding is_valid_value
select_valid [] values h k = refl
select_valid (n ∷ ns) values h k = ground (arith, value_plain n values h, select_valid ns values)

-- Reading the file of a valid environment gives its names in order, each with its value.
pub parse-encode :
    (values : Environment)
    → validate_runtime_environment values ≡ ok tt
    → parse_runtime_environment (encode_runtime_environment values)
      ≡ ok (select (runtime_environment_names values) values)
unfolding parse_runtime_environment encode_runtime_environment validate_runtime_environment
parse-encode values h =
    let ns = runtime_environment_names values in
    let valid : every is_valid_value values ≡ true = ground arith in
    let managed : every is_managed_name ns ≡ true =
      every-sorted_names is_managed_name (map (λ v. v.0) values) (keys_managed values valid) in
    let parsed =
      parse_lines-encode_names [] ns values valid managed
        (distinct_of_sorted ns (is_sorted-sorted_names (map (λ v. v.0) values))) (all_absent ns) in
    rw (parsed, select_valid ns values valid managed)

lookup-select :
    (n : Text) (ns : List Text) (values : Environment)
    → lookup n (select ns values)
      ≡ (if any (λ m. m == n) ns then some (or_empty (lookup n values)) else none)
unfolding lookup
lookup-select n [] values = refl
lookup-select n (m ∷ ns) values = ground (arith, eq_iff m n, lookup-select n ns values)

has_name-insert_name :
    (n k : Text) (ms : List Text)
    → any (λ m. m == n) (insert_name k ms) ≡ (k == n || any (λ m. m == n) ms)
unfolding insert_name
has_name-insert_name n k [] = refl
has_name-insert_name n k (m ∷ ms) = ground (arith, eq_iff k m, has_name-insert_name n k ms)

has_name-names :
    (n : Text) (values : Environment)
    → any (λ m. m == n) (runtime_environment_names values)
      ≡ elim (lookup n values) [ none ↦ false | some _ ↦ true ]
unfolding runtime_environment_names lookup sorted_names
has_name-names n [] = refl
has_name-names n ((k, v) ∷ rest) =
    ground
      (arith, has_name-insert_name n k (sorted_names (map (λ x. x.0) rest)), has_name-names n rest)

-- The environment that is read back from the file of a valid environment has the same value, or
-- none, under every name.
pub parse-encode_lookup :
    (values : Environment)
    → validate_runtime_environment values ≡ ok tt
    → (back : Environment) × (parse_runtime_environment (encode_runtime_environment values)
        ≡ ok back)
      × ((n : Text) → lookup n back ≡ lookup n values)
parse-encode_lookup values h = (
  select (runtime_environment_names values) values,
  parse-encode values h,
  λ n.
      ground
        (arith, lookup-select n (runtime_environment_names values) values, has_name-names n values),
)
