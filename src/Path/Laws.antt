-- ===== src/Path/Laws.antt =====
-- The containment of managed paths.
use mathlib.Core.List.{reverse, reverse-cons}
use mini_deploy.Prelude.{
  ◌≡◌, ◌≢◌, refl, ap, ◌∙◌, true, false, List, [], ◌∷◌, ◌++◌, any, arith, eqb, Bool-cases, inl, inr,
}
use mini_deploy.Text.{
  Text, codes, ◌==◌, eq_iff, eq_refl, is_empty, trim_space, split, split-append, split_whole,
  contains_any,
}
use mini_deploy.Result.{ok}
use mini_deploy.Path.{
  FilePath, validate_application_name, is_parent, clean_step, clean_steps, clean, join, relative,
  goes_down, strict_child_path, deployments_dir, managed_deployment_path,
}

-- A relative path that goes down starts at the base.
pub relative-down :
    (base target : FilePath)
    → goes_down (relative base target) ≡ true
    → (target ≡ base ++ relative base target) × (relative base target ≢ [])
unfolding relative ◌==◌
relative-down [] [] h = ground arith
relative-down [] (t ∷ ts) h = ground arith
relative-down (b ∷ bs) [] h = ground arith
relative-down (b ∷ bs) (t ∷ ts) h = ground (arith, eq_iff b t, relative-down bs ts)

-- Of two absolute paths, an accepted one is the clean candidate, and lies strictly below the
-- clean root.
pub strict_child_path-below :
    (root candidate : Text) (p : FilePath)
    → strict_child_path root candidate ≡ ok p
    → (p ≡ clean candidate) × ((rest : FilePath) × (rest ≢ []) × (p ≡ clean root ++ rest))
unfolding strict_child_path
strict_child_path-below root candidate p h =
    let rel = relative (clean root) (clean candidate) in
    let down = relative-down (clean root) (clean candidate) in
    elim (Bool-cases (goes_down rel)) [
      | inl e ↦ (ground arith, (rel, (down e).1, ground (arith, (down e).0)))
      | inr e ↦ ground arith
    ]

clean_steps-append :
    (done : FilePath) (xs ys : List Text)
    → clean_steps done (xs ++ ys) ≡ clean_steps (clean_steps done xs) ys
unfolding clean_steps
clean_steps-append done [] ys = refl
clean_steps-append done (x ∷ xs) ys = clean_steps-append (clean_step done x) xs ys

-- What a valid name is not.
pub record IsPlain (name : Text) : Type 0 where
  pub named : is_empty name ≡ false
  pub not_here : (name == codes ".") ≡ false
  pub not_parent : is_parent name ≡ false
  pub no_slash : any (λ c. eqb c b'/') name ≡ false

no_slash-contains :
    (s : Text) → contains_any s (codes "/\\") ≡ false → any (λ c. eqb c b'/') s ≡ false
unfolding contains_any
no_slash-contains [] h = refl
no_slash-contains (c ∷ cs) h = ground (arith, no_slash-contains cs)

trim_space-named : (s : Text) → is_empty (trim_space s) ≡ false → is_empty s ≡ false
unfolding trim_space
trim_space-named [] h = h
trim_space-named (c ∷ cs) h = refl

pub validate-IsPlain : (name : Text) → validate_application_name name ≡ ok tt → IsPlain name
unfolding validate_application_name
validate-IsPlain name h = record {
  named = trim_space-named name (ground arith);
  not_here = ground arith;
  not_parent = ground arith;
  no_slash = no_slash-contains name (ground arith);
}

clean_step_plain :
    (done : FilePath) (name : Text) → IsPlain name → clean_step done name ≡ name ∷ done
unfolding clean_step
clean_step_plain [] name h = ground arith
clean_step_plain (d ∷ ds) name h = ground arith

clean_steps_plain :
    (done : FilePath) (name : Text) → IsPlain name → clean_steps done (name ∷ []) ≡ name ∷ done
unfolding clean_steps
clean_steps_plain done name h = clean_step_plain done name h

-- A plain name below a root is one more component.
pub clean-join :
    (root name : Text) → IsPlain name → clean (join root name) ≡ clean root ++ name ∷ []
unfolding join
clean-join root name h =
    unfold clean in
    ap (λ parts. reverse (clean_steps [] parts)) {y = split b'/' root ++ name ∷ []}
      (split-append b'/' root name
        ∙ ap (λ r. split b'/' root ++ r) (split_whole b'/' name h.no_slash))
    ∙ ap reverse (
        clean_steps-append [] (split b'/' root) (name ∷ [])
        ∙ clean_steps_plain (clean_steps [] (split b'/' root)) name h)
    ∙ reverse-cons name (clean_steps [] (split b'/' root))

relative-append : (bs rest : FilePath) → relative bs (bs ++ rest) ≡ rest
unfolding relative
relative-append [] rest = refl
relative-append (b ∷ bs) rest = ground (arith, eq_refl b, relative-append bs rest)

-- The managed path of a valid application name is that name, directly below the managed root.
pub managed_deployment_path_lem :
    (app : Text)
    → validate_application_name app ≡ ok tt
    → managed_deployment_path app ≡ ok (clean deployments_dir ++ app ∷ [])
unfolding managed_deployment_path strict_child_path
managed_deployment_path_lem app h =
    let plain = validate-IsPlain app h in
    ground (
      arith,
      clean-join deployments_dir app plain,
      relative-append (clean deployments_dir) (app ∷ []),
      plain.not_parent,
    )

validate_of_managed :
    (app : Text) (p : FilePath)
    → managed_deployment_path app ≡ ok p
    → validate_application_name app ≡ ok tt
unfolding managed_deployment_path
validate_of_managed app p h = ground arith

snoc_injective : (xs : FilePath) (a b : Text) → xs ++ a ∷ [] ≡ xs ++ b ∷ [] → a ≡ b
snoc_injective [] a b h = cc
snoc_injective (x ∷ xs) a b h = snoc_injective xs a b (cc)

-- Two applications never share a managed path.
pub managed_path_injective :
    (a b : Text) (p : FilePath)
    → managed_deployment_path a ≡ ok p
    → managed_deployment_path b ≡ ok p
    → a ≡ b
managed_path_injective a b p h k = snoc_injective (clean deployments_dir) a b (
    cc (
      managed_deployment_path_lem a (validate_of_managed a p h),
      managed_deployment_path_lem b (validate_of_managed b p k),
    ))
