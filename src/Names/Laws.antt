-- ===== src/Names/Laws.antt =====
-- A normalised list of names is strictly sorted and holds managed names only, and normalising it
-- again changes nothing.
use mini_deploy.Prelude.{
  ◌≡◌, refl, ap, Bool, true, false, ◌&&◌, not, List, [], ◌∷◌, every, keep_if, every-keep_if, arith,
  ◌∙◌,
}
use mini_deploy.Text.{Text, ◌==◌, eq_iff}
use mini_deploy.Names.{
  text_lt, insert_name, sorted_names, is_managed_name, normalize_runtime_environment_names,
}

pub text_lt_irrefl : (s : Text) → text_lt s s ≡ false
unfolding text_lt
text_lt_irrefl [] = refl
text_lt_irrefl (c ∷ cs) = ground (arith, text_lt_irrefl cs)

-- Of two different texts one is before the other.
pub text_lt_total : (s t : Text) → (s == t) ≡ false → text_lt s t ≡ false → text_lt t s ≡ true
unfolding text_lt ◌==◌
text_lt_total [] [] h k = ground arith
text_lt_total [] (y ∷ ys) h k = ground arith
text_lt_total (x ∷ xs) [] h k = refl
text_lt_total (x ∷ xs) (y ∷ ys) h k = ground (arith, text_lt_total xs ys)

-- `n` is before the first of `ms`.
abbrev pub is_below : Text → List Text → Bool
is_below n [] = true
is_below n (m ∷ ms) = text_lt n m

abbrev pub is_sorted : List Text → Bool
is_sorted [] = true
is_sorted (n ∷ ns) = is_below n ns && is_sorted ns

is_below-insert_name :
    (k n : Text) (ms : List Text)
    → text_lt k n ≡ true
    → is_below k ms ≡ true
    → is_below k (insert_name n ms) ≡ true
unfolding insert_name
is_below-insert_name k n [] h b = h
is_below-insert_name k n (m ∷ ms) h b = ground arith

is_sorted-insert_name :
    (n : Text) (ms : List Text) → is_sorted ms ≡ true → is_sorted (insert_name n ms) ≡ true
unfolding insert_name
is_sorted-insert_name n [] h = refl
is_sorted-insert_name n (m ∷ ms) h =
    ground (arith, is_sorted-insert_name n ms, text_lt_total n m, is_below-insert_name m n ms)

pub is_sorted-sorted_names : (ns : List Text) → is_sorted (sorted_names ns) ≡ true
unfolding sorted_names
is_sorted-sorted_names [] = refl
is_sorted-sorted_names (n ∷ ns) =
    is_sorted-insert_name n (sorted_names ns) (is_sorted-sorted_names ns)

insert_name-below : (n : Text) (ms : List Text) → is_below n ms ≡ true → insert_name n ms ≡ n ∷ ms
unfolding insert_name
insert_name-below n [] h = refl
insert_name-below n (m ∷ ms) h = ground (arith, eq_iff n m, text_lt_irrefl n)

pub sorted_names_idle : (ns : List Text) → is_sorted ns ≡ true → sorted_names ns ≡ ns
unfolding sorted_names
sorted_names_idle [] h = refl
sorted_names_idle (n ∷ ns) h = ground (arith, sorted_names_idle ns, insert_name-below n ns)

every-insert_name :
    (p : Text → Bool) (n : Text) (ms : List Text)
    → p n ≡ true
    → every p ms ≡ true
    → every p (insert_name n ms) ≡ true
unfolding insert_name
every-insert_name p n [] h k = ground arith
every-insert_name p n (m ∷ ms) h k = ground (arith, every-insert_name p n ms)

pub every-sorted_names :
    (p : Text → Bool) (ns : List Text) → every p ns ≡ true → every p (sorted_names ns) ≡ true
unfolding sorted_names
every-sorted_names p [] h = refl
every-sorted_names p (n ∷ ns) h =
    every-insert_name p n (sorted_names ns) (ground arith) (every-sorted_names p ns (ground arith))

keep_if_idle : (p : Text → Bool) (ns : List Text) → every p ns ≡ true → keep_if p ns ≡ ns
keep_if_idle p [] h = refl
keep_if_idle p (n ∷ ns) h = ground (arith, keep_if_idle p ns)

pub every-normalize :
    (ns : List Text) → every is_managed_name (normalize_runtime_environment_names ns) ≡ true
unfolding normalize_runtime_environment_names
every-normalize ns =
    every-sorted_names is_managed_name (keep_if is_managed_name ns)
      (every-keep_if is_managed_name ns)

-- Normalising the names of an environment twice is normalising them once.
pub normalize_names-normalize_names :
    (ns : List Text)
    → normalize_runtime_environment_names (normalize_runtime_environment_names ns)
      ≡ normalize_runtime_environment_names ns
unfolding normalize_runtime_environment_names
normalize_names-normalize_names ns =
    ap sorted_names
      (keep_if_idle is_managed_name (normalize_runtime_environment_names ns) (every-normalize ns))
    ∙ sorted_names_idle _ (is_sorted-sorted_names (keep_if is_managed_name ns))

text_lt_trans : (s t u : Text) → text_lt s t ≡ true → text_lt t u ≡ true → text_lt s u ≡ true
unfolding text_lt
text_lt_trans [] [] u h k = cc
text_lt_trans [] (y ∷ ys) [] h k = cc
text_lt_trans [] (y ∷ ys) (z ∷ zs) h k = refl
text_lt_trans (x ∷ xs) [] u h k = cc
text_lt_trans (x ∷ xs) (y ∷ ys) [] h k = cc
text_lt_trans (x ∷ xs) (y ∷ ys) (z ∷ zs) h k = ground (arith, text_lt_trans xs ys zs)

below_all :
    (n m : Text) (ms : List Text)
    → text_lt n m ≡ true
    → is_sorted (m ∷ ms) ≡ true
    → every (text_lt n) (m ∷ ms) ≡ true
below_all n m [] h k = ground arith
below_all n m (l ∷ ls) h k = ground (arith, text_lt_trans n m l, below_all n l ls)

-- `n` is none of `ms`.
abbrev pub is_apart : Text → List Text → Bool
is_apart n ms = every (λ m. not (n == m)) ms

abbrev pub is_distinct : List Text → Bool
is_distinct [] = true
is_distinct (n ∷ ns) = is_apart n ns && is_distinct ns

apart_of_below : (n : Text) (ms : List Text) → every (text_lt n) ms ≡ true → is_apart n ms ≡ true
apart_of_below n [] h = refl
apart_of_below n (m ∷ ms) h = ground (arith, eq_iff n m, text_lt_irrefl n, apart_of_below n ms)

pub distinct_of_sorted : (ns : List Text) → is_sorted ns ≡ true → is_distinct ns ≡ true
distinct_of_sorted [] h = refl
distinct_of_sorted (n ∷ []) h = refl
distinct_of_sorted (n ∷ m ∷ ms) h =
    ground (arith, distinct_of_sorted (m ∷ ms), below_all n m ms, apart_of_below n (m ∷ ms))
