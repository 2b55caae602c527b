-- ===== src/Checkout.antt =====
-- A checkout as package os and path/filepath show it, and app/repository_files.go: the resolution of a
-- file that a repository controls, which no symbolic link takes out of the checkout. What is on the disk
-- does not change while one detection reads it. Paths are absolute and clean.
pub mod Laws
use mini_deploy.Prelude.{
  ℕ, ℤ, Bool, true, false, ◌&&◌, ◌||◌, Option, none, some, List, [], ◌∷◌, ◌++◌, if◌then◌else◌,
}
use mathlib.Core.List.{reverse}
use mini_deploy.Text.{Text, codes, ◌==◌, is_empty, has_prefix, split}
use mini_deploy.Result.{
  Result, ok, err, ◌>>=◌, invalid_repository_path, inspect_repository, not_a_strict_child,
  not_a_regular_file,
}
use mini_deploy.Path.{FilePath, is_parent, relative, goes_down}

-- An answer of the file system: os.ErrNotExist is told apart from every other error.
pub data Lookup {ℓ} (A : Type ℓ) : Type ℓ where
  found : A → Lookup A
  missing failed : Lookup A

pub data Mode : Type 0 where
  regular directory other_mode : Mode

-- nodePackageManifest, as json.Unmarshal yields it
pub record Manifest : Type 0 where
  pub scripts : List (Text × Text)
  pub dependencies : List (Text × Text)
  pub dev_dependencies : List (Text × Text)
  pub package_manager : Text
  pub workspaces : Text

pub record Disk : Type 0 where
  -- os.Lstat
  pub lstat : FilePath → Lookup (Unit {0})
  -- os.Stat
  pub stat : FilePath → Lookup Mode
  -- filepath.EvalSymlinks
  pub eval_symlinks : FilePath → Lookup FilePath
  -- os.ReadFile and json.Unmarshal of a package.json, and of the version in a package-lock.json
  pub read_manifest : FilePath → Result Manifest
  pub read_lock_version : FilePath → Result ℤ

-- filepath.Clean of a relative path, the last element first: a ".." stays where nothing is above it.
unfoldable pub clean_relative_step : FilePath → Text → FilePath
unfolding ◌==◌
clean_relative_step [] c = if is_empty c || c == codes "." then [] else c ∷ []
clean_relative_step (d ∷ ds) c =
    if is_empty c || c == codes "."
    then d ∷ ds
    else if is_parent c
    then (if is_parent d then c ∷ d ∷ ds else ds)
    else c ∷ d ∷ ds

unfoldable pub clean_relative_steps : FilePath → List Text → FilePath
unfolding clean_relative_step
clean_relative_steps done [] = reverse done
clean_relative_steps done (c ∷ cs) = clean_relative_steps (clean_relative_step done c) cs

unfoldable pub clean_relative : Text → FilePath
unfolding clean_relative_steps split
clean_relative path = clean_relative_steps [] (split b'/' path)

-- strictChildPath, for paths that are absolute and clean.
unfoldable pub strict_child : FilePath → FilePath → Result FilePath
unfolding relative ◌==◌
strict_child root candidate =
    if goes_down (relative root candidate) then ok candidate else err not_a_strict_child

abbrev pub required {ℓ} : {A : Type ℓ} → Lookup A → Result A
required (found a) = ok a
required missing = err inspect_repository
required failed = err inspect_repository

abbrev pub is_regular : Mode → Bool
is_regular regular = true
is_regular directory = false
is_regular other_mode = false

abbrev pub is_directory : Mode → Bool
is_directory regular = false
is_directory directory = true
is_directory other_mode = false

-- What repositoryRegularFile and resolvedRepositoryServiceDirectory do with a path that exists: its
-- target must lie below the root and be of the right kind.
unfoldable pub resolve_below : Disk → FilePath → FilePath → (Mode → Bool) → Result (Option FilePath)
unfolding strict_child
resolve_below disk root candidate kind = do
  resolved_root ← required (disk.eval_symlinks root)
  target ← required (disk.eval_symlinks candidate)
  inside ← strict_child resolved_root target
  mode ← required (disk.stat inside)
  if kind mode then ok (some inside) else err not_a_regular_file

abbrev pub if_exists : Lookup (Unit {0}) → Result (Option FilePath) → Result (Option FilePath)
if_exists missing resolved = ok none
if_exists failed resolved = err inspect_repository
if_exists (found _) resolved = resolved

-- The relative path is that of the checkout itself, or leads out of it.
abbrev pub escapes : FilePath → Bool
escapes [] = true
escapes (c ∷ cs) = is_parent c

-- `none` where there is no such file.
unfoldable pub repository_regular_file : Disk → FilePath → Text → Result (Option FilePath)
unfolding resolve_below has_prefix clean_relative
repository_regular_file disk root relative_path =
    if has_prefix relative_path (codes "/")
    then err invalid_repository_path
    else if escapes (clean_relative relative_path)
    then err invalid_repository_path
    else do
      candidate ← strict_child root (root ++ clean_relative relative_path)
      if_exists (disk.lstat candidate) (resolve_below disk root candidate is_regular)
