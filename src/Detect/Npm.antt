-- ===== src/Detect/Npm.antt =====
-- package.json and package-lock.json, in app/deployment_strategy.go.
use mini_deploy.Prelude.{
  ℤ, at_least, Bool, true, false, ◌&&◌, ◌||◌, not, Option, none, some, List, [], ◌∷◌, ◌++◌,
  if◌then◌else◌,
}
use mini_deploy.Text.{Text, codes, ◌==◌, is_empty, has_prefix, trim_space}
use mini_deploy.Result.{
  Result, ok, err, ◌>>=◌, ◌>>◌, inspect_repository, package_lock, unsupported_strategy,
}
use mini_deploy.Path.{FilePath}
use mini_deploy.Environment.Format.{lookup, or_empty}
use mini_deploy.Checkout.{Disk, Manifest, found, missing, failed, repository_regular_file}
use mini_deploy.Detect.Plan.{install_ci, install_setup}

abbrev manifest_at : Disk → Option FilePath → Result (Option Manifest)
manifest_at disk none = ok none
manifest_at disk (some path) = do manifest ← disk.read_manifest path; ok (some manifest)

unfoldable pub read_node_package_manifest : Disk → FilePath → Result (Option Manifest)
read_node_package_manifest disk root = do
  path ← repository_regular_file disk root (codes "package.json")
  manifest_at disk path

-- manifest.Scripts[name]: "" where there is none.
abbrev pub script : Text → Manifest → Text
script name manifest = or_empty (lookup name manifest.scripts)

abbrev pub is_some {ℓ} : {A : Type ℓ} → Option A → Bool
is_some none = false
is_some (some a) = true

unfoldable pub has_node_dependency : Manifest → Text → Bool
unfolding lookup
has_node_dependency manifest name =
    is_some (lookup name manifest.dependencies) || is_some (lookup name manifest.dev_dependencies)

-- Whether one of the files is in the checkout.
unfoldable pub has_regular_file : Disk → FilePath → List Text → Result Bool
has_regular_file disk root [] = ok false
has_regular_file disk root (name ∷ names) =
    let rest = has_regular_file disk root names in
    repository_regular_file disk root name >>= λ path. if is_some path then ok true else rest

unfoldable pub repository_has_vite_config : Disk → FilePath → Result Bool
unfolding has_regular_file
repository_has_vite_config disk root = has_regular_file disk root (
    codes "vite.config.js"
    ∷ codes "vite.config.mjs"
    ∷ codes "vite.config.cjs"
    ∷ codes "vite.config.ts"
    ∷ codes "vite.config.mts"
    ∷ codes "vite.config.cts"
    ∷ [])

abbrev lock_at : Disk → Option FilePath → Result ℤ
lock_at disk none = err package_lock
lock_at disk (some path) = do
  version ← disk.read_lock_version path
  if at_least 1 version then ok version else err package_lock

unfoldable pub validated_package_lock : Disk → FilePath → Result ℤ
validated_package_lock disk root = do
  path ← repository_regular_file disk root (codes "package-lock.json")
  lock_at disk path

unfoldable pub npm_install_mode : Disk → FilePath → Result Text
npm_install_mode disk root = do
  path ← repository_regular_file disk root (codes "package-lock.json")
  if is_some path then (do validated_package_lock disk root; ok install_ci) else ok install_setup

-- os.Stat of each name, as the loop of repositoryUsesNPM asks for it: whether one exists.
unfoldable pub exists_any : Disk → FilePath → List Text → Result Bool
exists_any disk root [] = ok false
exists_any disk root (name ∷ names) =
    let rest = exists_any disk root names in
    elim (disk.stat (root ++ name ∷ [])) [
      | missing ↦ rest
      | failed ↦ err inspect_repository
      | found _ ↦ ok true
    ]

unfoldable pub repository_uses_npm : Disk → FilePath → Manifest → Result Bool
unfolding exists_any ◌==◌ has_prefix trim_space
repository_uses_npm disk root manifest =
    let manager = trim_space manifest.package_manager in
    if not (is_empty manager)
      && not (manager == codes "npm")
      && not (has_prefix manager (codes "npm@"))
    then ok false
    else do
      other ←
          exists_any disk root
            (codes "yarn.lock" ∷ codes "pnpm-lock.yaml" ∷ codes "bun.lock" ∷ codes "bun.lockb" ∷ [])
      ok (not other)

-- The check of the install mode that a record persists.
unfoldable pub check_install_mode : Disk → FilePath → Text → Result (Unit {0})
unfolding ◌==◌
check_install_mode disk root install_mode =
    if install_mode == install_ci
    then (do validated_package_lock disk root; ok tt)
    else if install_mode == install_setup
    then ok tt
    else err unsupported_strategy
