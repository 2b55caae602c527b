-- ===== src/Checkout/Laws.antt =====
-- What app/repository_files.go resolves lies below the resolved root of the checkout.
use mini_deploy.Prelude.{
  ◌≡◌, ◌≢◌, sym, ap, ◌∙◌, Bool, true, Bool-cases, inl, inr, Option, some, [], ◌++◌, arith,
  if◌then◌else◌,
}
use mini_deploy.Text.{Text, codes, has_prefix}
use mini_deploy.Result.{Result, ok, err, >>=-eq-ok, not_a_regular_file}
use mini_deploy.Path.{FilePath, relative, goes_down}
use mini_deploy.Path.Laws.{relative-down}
use mini_deploy.Checkout.{
  Disk, Lookup, found, missing, failed, Mode, is_regular, required, strict_child, resolve_below,
  if_exists, escapes, clean_relative, repository_regular_file,
}

-- The file is what the candidate resolves to, strictly below what the root resolves to, and of the kind.
pub record IsBelow (disk : Disk) (root candidate : FilePath) (kind : Mode → Bool) (file : FilePath)
    : Type 0 where
  pub resolves_to : disk.eval_symlinks candidate ≡ found file
  pub resolved_root : FilePath
  pub resolves : disk.eval_symlinks root ≡ found resolved_root
  pub rest : FilePath
  pub inner : rest ≢ []
  pub below : file ≡ resolved_root ++ rest
  pub mode : Mode
  pub stated : disk.stat file ≡ found mode
  pub kind_of_mode : kind mode ≡ true

required_found {ℓ} : {A : Type ℓ} (l : Lookup A) {a : A} → required l ≡ ok a → l ≡ found a
required_found (found b) h = cc
required_found missing h = cc
required_found failed h = cc

strict_child_same :
    (root candidate p : FilePath) → strict_child root candidate ≡ ok p → candidate ≡ p
unfolding strict_child
strict_child_same root candidate p h = elim (Bool-cases (goes_down (relative root candidate))) [
  | inl e ↦ ground (arith, h, e)
  | inr e ↦ ground (arith, h, e)
]

strict_child_lem :
    (root candidate p : FilePath)
    → strict_child root candidate ≡ ok p
    → (relative root candidate ≢ []) × (p ≡ root ++ relative root candidate)
unfolding strict_child
strict_child_lem root candidate p h = elim (Bool-cases (goes_down (relative root candidate))) [
  | inl e ↦ let down = relative-down root candidate e in (down.1, ground (arith, down.0))
  | inr e ↦ ground arith
]

last_check :
    (disk : Disk) (root candidate file resolved_root target inside : FilePath) (kind : Mode → Bool)
    (mode : Mode)
    → disk.eval_symlinks root ≡ found resolved_root
    → disk.eval_symlinks candidate ≡ found target
    → strict_child resolved_root target ≡ ok inside
    → disk.stat inside ≡ found mode
    → (if kind mode then ok (some inside) else err not_a_regular_file) ≡ ok (some file)
    → IsBelow disk root candidate kind file
last_check disk root candidate file resolved_root target inside kind mode e t k l h =
    elim (Bool-cases (kind mode)) [
      | inl b ↦
          let same : inside ≡ file = ground (arith, h, b) in
          let below = strict_child_lem resolved_root target inside k in
          record {
            resolves_to = t ∙ ap found (strict_child_same resolved_root target inside k ∙ same);
            resolved_root = resolved_root;
            resolves = e;
            rest = relative resolved_root target;
            inner = below.0;
            below = sym same ∙ below.1;
            mode = mode;
            stated = ap disk.stat (sym same) ∙ l;
            kind_of_mode = b;
          }
      | inr b ↦ ground arith
    ]

pub resolve_below-IsBelow :
    (disk : Disk) (root candidate file : FilePath) (kind : Mode → Bool)
    → resolve_below disk root candidate kind ≡ ok (some file)
    → IsBelow disk root candidate kind file
unfolding resolve_below
resolve_below-IsBelow disk root candidate file kind h =
    let (resolved_root, e1, h1) = >>=-eq-ok (required (disk.eval_symlinks root)) _ h in
    let (target, e2, h2) = >>=-eq-ok (required (disk.eval_symlinks candidate)) _ h1 in
    let (inside, e3, h3) = >>=-eq-ok (strict_child resolved_root target) _ h2 in
    let (mode, e4, h4) = >>=-eq-ok (required (disk.stat inside)) _ h3 in
    last_check disk root candidate file resolved_root target inside kind mode (required_found _ e1)
      (required_found _ e2) e3 (required_found _ e4) h4

if_exists_found :
    (l : Lookup (Unit {0})) (r : Result (Option FilePath)) {file : FilePath}
    → if_exists l r ≡ ok (some file)
    → r ≡ ok (some file)
if_exists_found (found _) r h = h
if_exists_found missing r h = cc
if_exists_found failed r h = cc

-- A file that is found is what the path of its name below the root of the checkout resolves to, it lies strictly
-- below what the root resolves to, and is a regular file.
pub repository_regular_file-IsBelow :
    (disk : Disk) (root file : FilePath) (name : Text)
    → repository_regular_file disk root name ≡ ok (some file)
    → IsBelow disk root (root ++ clean_relative name) is_regular file
unfolding repository_regular_file
repository_regular_file-IsBelow disk root file name h =
    elim (Bool-cases (has_prefix name (codes "/"))) [
      | inl a ↦ ground arith
      | inr a ↦ elim (Bool-cases (escapes (clean_relative name))) [
        | inl b ↦ ground arith
        | inr b ↦
            let h' = rw (a, b) at h in
            let (c, e, k) = >>=-eq-ok (strict_child root (root ++ clean_relative name)) _ h' in
            let same = strict_child_same root (root ++ clean_relative name) c e in
            rw same (resolve_below-IsBelow disk root c file is_regular (if_exists_found _ _ k))
      ]
    ]
