-- ===== src/Detect/Node.antt =====
-- The Node and Express part of app/deployment_strategy.go.
use mini_deploy.Prelude.{
  ℕ, ℤ, is_zero, Bool, true, false, ◌&&◌, ◌||◌, not, Option, none, some, List, [], ◌∷◌, ◌++◌, any,
  every, eqb, leb, if◌then◌else◌,
}
use mini_deploy.Text.{
  Text, codes, ◌==◌, is_empty, trim_space, trim, trim_left, trim_prefix, after_prefix, to_lower,
  fields, split,
}
use mini_deploy.Result.{
  Result, ok, err, ◌>>=◌, ◌>>◌, unsupported_strategy, read_manifest, inspect_repository,
}
use mini_deploy.Records.{DeploymentRecord}
use mini_deploy.Strategy
use mini_deploy.Config.{default_node_container_port, normalized_health_path}
use mini_deploy.Path.{FilePath}
use mini_deploy.Environment.Format.{lookup, or_empty}
use mini_deploy.Checkout.{
  Disk, Manifest, found, missing, failed, is_regular, required, strict_child,
}
use mini_deploy.Detect.Plan.{BuildPlan, DeploymentConfig, node_express_build_plan}
use mini_deploy.Detect.Npm.{
  read_node_package_manifest, script, has_node_dependency, repository_has_vite_config,
  repository_uses_npm, npm_install_mode, check_install_mode,
}

abbrev is_blank : ℕ → Bool
is_blank c = eqb c 32 || eqb c 9

-- [A-Za-z0-9._-]
abbrev is_segment_rune : ℕ → Bool
is_segment_rune c =
    leb b'a' c && leb c b'z'
    || leb b'A' c && leb c b'Z'
    || leb b'0' c && leb c b'9'
    || eqb c b'.'
    || eqb c b'_'
    || eqb c b'-'

abbrev is_segment : Text → Bool
is_segment s = not (is_empty s) && every is_segment_rune s

-- strings.HasSuffix
unfoldable pub has_suffix : Text → Text → Bool
unfolding ◌==◌
has_suffix [] suffix = is_empty suffix
has_suffix (c ∷ cs) suffix = (c ∷ cs) == suffix || has_suffix cs suffix

-- [A-Za-z0-9._-]+\.(js|cjs|mjs), for a segment: one rune stands before the extension.
abbrev is_script_name : Text → Bool
unfolding has_suffix
is_script_name [] = false
is_script_name (c ∷ cs) =
    has_suffix cs (codes ".js") || has_suffix cs (codes ".cjs") || has_suffix cs (codes ".mjs")

is_script_path : List Text → Bool
unfolding is_script_name
is_script_path [] = false
is_script_path (s ∷ []) = is_segment s && is_script_name s
is_script_path (s ∷ t ∷ ss) = is_segment s && is_script_path (t ∷ ss)

abbrev is_entrypoint : Option Text → Bool
unfolding is_script_path split trim_left
is_entrypoint none = false
is_entrypoint (some []) = false
is_entrypoint (some (c ∷ cs)) = is_blank c && is_script_path (split b'/' (trim_left is_blank cs))

-- directNodeStartScriptPattern. Its group (\./)? adds nothing: "." is a segment too.
unfoldable pub matches_start_script : Text → Bool
unfolding is_entrypoint after_prefix
matches_start_script command = is_entrypoint (after_prefix (codes "node") command)

abbrev is_plain_segment : Text → Bool
unfolding ◌==◌
is_plain_segment s = not (is_empty s) && not (s == codes ".") && not (s == codes "..")

-- The relative file of a start script that matches.
unfoldable pub entrypoint_segments : Text → List Text
unfolding split trim_prefix trim_left
entrypoint_segments command =
    split b'/' (trim_prefix (trim_left is_blank (trim_prefix command (codes "node"))) (codes "./"))

abbrev is_regular_target : Disk → Result FilePath → Result Bool
is_regular_target disk (err e) = ok false
is_regular_target disk (ok target) = elim (disk.stat target) [
  | missing ↦ ok false
  | failed ↦ err inspect_repository
  | found mode ↦ ok (is_regular mode)
]

abbrev entrypoint_at : Disk → FilePath → Result FilePath → Result Bool
unfolding strict_child
entrypoint_at disk root (err e) = ok false
entrypoint_at disk root (ok path) = do
  resolved_root ← required (disk.eval_symlinks root)
  elim (disk.eval_symlinks path) [
    | missing ↦ ok false
    | failed ↦ err inspect_repository
    | found target ↦ is_regular_target disk (strict_child resolved_root target)
  ]

unfoldable pub repository_has_supported_node_entrypoint : Disk → FilePath → Text → Result Bool
unfolding matches_start_script entrypoint_segments entrypoint_at trim_space
repository_has_supported_node_entrypoint disk root start_script =
    let command = trim_space start_script in
    if not (matches_start_script command)
    then ok false
    else if not (every is_plain_segment (entrypoint_segments command))
    then ok false
    else entrypoint_at disk root (strict_child root (root ++ entrypoint_segments command))

abbrev pub unsupported_node_express_dependencies : List Text
unsupported_node_express_dependencies =
    codes "vite"
    ∷ codes "next"
    ∷ codes "@nestjs/core"
    ∷ codes "fastify"
    ∷ codes "koa"
    ∷ codes "typescript"
    ∷ codes "ts-node"
    ∷ codes "tsx"
    ∷ []

-- A word of the start script that runs Deno or TypeScript.
unfoldable pub is_foreign_word : Text → Bool
unfolding ◌==◌ has_suffix trim
is_foreign_word word =
    let f = trim (λ c. eqb c b'\'' || eqb c b'"') word in
    f == codes "deno"
    || has_suffix f (codes ".ts")
    || has_suffix f (codes ".mts")
    || has_suffix f (codes ".cts")

-- Whether one of the names is a regular file, by os.Stat.
unfoldable pub stat_regular_any : Disk → FilePath → List Text → Result Bool
stat_regular_any disk root [] = ok false
stat_regular_any disk root (name ∷ names) =
    let rest = stat_regular_any disk root names in
    elim (disk.stat (root ++ name ∷ [])) [
      | missing ↦ rest
      | failed ↦ err inspect_repository
      | found mode ↦ if is_regular mode then ok true else rest
    ]

unfoldable pub repository_is_conventional_javascript_express :
    (ℕ → ℕ) → Disk → FilePath → Manifest → Result Bool
unfolding has_node_dependency is_foreign_word stat_regular_any fields to_lower trim_space ◌==◌
repository_is_conventional_javascript_express beyond disk root manifest =
    let workspaces = trim_space manifest.workspaces in
    if not (is_empty workspaces) && not (workspaces == codes "null")
    then ok false
    else if any (has_node_dependency manifest) unsupported_node_express_dependencies
    then ok false
    else do
      has_vite_configuration ← repository_has_vite_config disk root
      if has_vite_configuration
          then ok false
          else if any is_foreign_word (fields (to_lower beyond (script (codes "start") manifest)))
          then ok false
          else do
            foreign ←
                stat_regular_any disk root
                  (codes "tsconfig.json" ∷ codes "deno.json" ∷ codes "deno.jsonc" ∷ [])
            ok (not foreign)

-- The express version is there, and not blank.
abbrev pub has_express : Manifest → Bool
unfolding lookup trim_space
has_express manifest =
    not (is_empty (trim_space (or_empty (lookup (codes "express") manifest.dependencies))))

-- The conditions that a Node and Express checkout meets, in the order in which they are looked at. Every
-- error but these stops the detection; the first that fails is told.
pub data NodeCheck : Type 0 where
  supported unconventional no_express no_entrypoint other_manager : NodeCheck

unfoldable pub check_node : (ℕ → ℕ) → Disk → FilePath → Manifest → Result NodeCheck
unfolding has_express
check_node beyond disk root manifest = do
  conventional ← repository_is_conventional_javascript_express beyond disk root manifest
  if not conventional
      then ok unconventional
      else if not (has_express manifest)
      then ok no_express
      else do
        entrypoint ←
            repository_has_supported_node_entrypoint disk root (script (codes "start") manifest)
        if not entrypoint then ok no_entrypoint else do
          uses_npm ← repository_uses_npm disk root manifest
          if uses_npm then ok supported else ok other_manager

unfoldable pub migrates : Manifest → Bool
unfolding trim_space
migrates manifest = not (is_empty (trim_space (script (codes "reactorlab:migrate") manifest)))

unfoldable pub node_plan : Manifest → Text → ℤ → Text → BuildPlan
unfolding migrates
node_plan manifest install_mode port health_path =
    record (node_express_build_plan install_mode port health_path) {
      reactor_lab_migration = migrates manifest;
    }

abbrev pub requested_node_port : ℤ → ℤ
requested_node_port port = if is_zero port then default_node_container_port else port

unfoldable pub detected_node :
    Disk → FilePath → DeploymentConfig → Manifest → NodeCheck → Result (Option BuildPlan)
unfolding normalized_health_path node_plan
detected_node disk root requested manifest supported = do
  mode ← npm_install_mode disk root
  ok (
      some (
        node_plan manifest mode (requested_node_port requested.container_port)
          (normalized_health_path requested.health_path)))
detected_node disk root requested manifest unconventional = ok none
detected_node disk root requested manifest no_express = ok none
detected_node disk root requested manifest no_entrypoint = ok none
detected_node disk root requested manifest other_manager = ok none

detect_node_in :
    (ℕ → ℕ) → Disk → FilePath → DeploymentConfig → Option Manifest → Result (Option BuildPlan)
unfolding detected_node
detect_node_in beyond disk root requested none = ok none
detect_node_in beyond disk root requested (some manifest) = do
  check ← check_node beyond disk root manifest
  detected_node disk root requested manifest check

-- nodeExpressStrategyDetector.Detect
unfoldable pub detect_node :
    (ℕ → ℕ) → Disk → FilePath → DeploymentConfig → Result (Option BuildPlan)
unfolding detect_node_in
detect_node beyond disk root requested = do
  manifest ← read_node_package_manifest disk root
  detect_node_in beyond disk root requested manifest

unfoldable pub persisted_node_plan :
    Disk → FilePath → DeploymentRecord → Manifest → NodeCheck → Result BuildPlan
unfolding node_plan
persisted_node_plan disk root r manifest supported = do
  check_install_mode disk root r.package_install_mode
  ok (node_plan manifest r.package_install_mode r.container_port r.health_path)
persisted_node_plan disk root r manifest unconventional = err unsupported_strategy
persisted_node_plan disk root r manifest no_express = err unsupported_strategy
persisted_node_plan disk root r manifest no_entrypoint = err unsupported_strategy
persisted_node_plan disk root r manifest other_manager = err unsupported_strategy

persisted_node_in :
    (ℕ → ℕ) → Disk → FilePath → DeploymentRecord → Option Manifest → Result BuildPlan
unfolding persisted_node_plan
persisted_node_in beyond disk root r none = err read_manifest
persisted_node_in beyond disk root r (some manifest) = do
  check ← check_node beyond disk root manifest
  persisted_node_plan disk root r manifest check

-- The case deploymentStrategyNodeExpress of deploymentStrategyForRecord.
unfoldable pub persisted_node : (ℕ → ℕ) → Disk → FilePath → DeploymentRecord → Result BuildPlan
unfolding persisted_node_in ◌==◌
persisted_node beyond disk root r =
    if not (r.package_manager == Strategy.npm) then err unsupported_strategy else do
      manifest ← read_node_package_manifest disk root
      persisted_node_in beyond disk root r manifest
