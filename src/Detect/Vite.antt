-- ===== src/Detect/Vite.antt =====
-- The Vite part of app/deployment_strategy.go.
use mini_deploy.Prelude.{
  Bool, true, false, ◌&&◌, ◌||◌, not, Option, none, some, List, [], ◌∷◌, if◌then◌else◌,
}
use mini_deploy.Text.{Text, codes, ◌==◌, trim_space, fields, join_with, split_commands}
use mini_deploy.Result.{Result, ok, err, ◌>>=◌, ◌>>◌, unsupported_strategy, read_manifest}
use mini_deploy.Records.{DeploymentRecord}
use mini_deploy.Strategy
use mini_deploy.Path.{FilePath}
use mini_deploy.Checkout.{Disk, Manifest}
use mini_deploy.Detect.Plan.{BuildPlan, vite_static_build_plan}
use mini_deploy.Detect.Npm.{
  read_node_package_manifest, script, has_node_dependency, repository_has_vite_config,
  npm_install_mode, check_install_mode,
}

-- (appendBuildSubcommand, true) is `some append`, and (_, false) is `none`.
abbrev classify_fields : List Text → Option Bool
unfolding ◌==◌
classify_fields (f ∷ []) = if f == codes "vite" then some true else none
classify_fields (f ∷ g ∷ []) = if f == codes "vite" && g == codes "build" then some false else none
classify_fields _ = none

unfoldable pub classify_vite_command : Text → Option Bool
unfolding classify_fields fields
classify_vite_command command = classify_fields (fields command)

classify_commands : List Text → Option Bool
unfolding classify_vite_command join_with fields ◌==◌
classify_commands (c ∷ []) = classify_vite_command c
classify_commands (c ∷ d ∷ []) =
    if join_with 32 (fields c) == codes "tsc -b" then classify_vite_command d else none
classify_commands _ = none

unfoldable pub classify_vite_build_script : Text → Option Bool
unfolding classify_commands split_commands
classify_vite_build_script build_script = classify_commands (split_commands build_script)

abbrev pub vite_plan : Disk → FilePath → Option Bool → Bool → Result (Option BuildPlan)
vite_plan disk root none is_vite = ok none
vite_plan disk root (some append) is_vite =
    if is_vite
    then (do mode ← npm_install_mode disk root; ok (some (vite_static_build_plan mode append)))
    else ok none

detect_vite_in : Disk → FilePath → Option Manifest → Result (Option BuildPlan)
unfolding trim_space classify_vite_build_script has_node_dependency
detect_vite_in disk root none = ok none
detect_vite_in disk root (some manifest) = do
  has_vite_configuration ← repository_has_vite_config disk root
  vite_plan disk root (classify_vite_build_script (trim_space (script (codes "build") manifest)))
      (has_node_dependency manifest (codes "vite") || has_vite_configuration)

-- viteStaticStrategyDetector.Detect; `none` where the checkout is not detected.
unfoldable pub detect_vite : Disk → FilePath → Result (Option BuildPlan)
unfolding detect_vite_in
detect_vite disk root = do
  manifest ← read_node_package_manifest disk root
  detect_vite_in disk root manifest

abbrev pub persisted_vite_plan : Disk → FilePath → Text → Option Bool → Result BuildPlan
persisted_vite_plan disk root install_mode none = err unsupported_strategy
persisted_vite_plan disk root install_mode (some append) = do
  check_install_mode disk root install_mode
  ok (vite_static_build_plan install_mode append)

persisted_vite_in : Disk → FilePath → Text → Option Manifest → Result BuildPlan
unfolding trim_space classify_vite_build_script
persisted_vite_in disk root install_mode none = err read_manifest
persisted_vite_in disk root install_mode (some manifest) =
    persisted_vite_plan disk root install_mode
      (classify_vite_build_script (trim_space (script (codes "build") manifest)))

-- The case deploymentStrategyViteStatic of deploymentStrategyForRecord.
unfoldable pub persisted_vite : Disk → FilePath → DeploymentRecord → Result BuildPlan
unfolding persisted_vite_in ◌==◌
persisted_vite disk root r =
    if not (r.package_manager == Strategy.npm) then err unsupported_strategy else do
      manifest ← read_node_package_manifest disk root
      persisted_vite_in disk root r.package_install_mode manifest
