-- ===== src/Lifecycle/Retire.antt =====
-- What follows a cutover, in app/deploy.go and app/rollback.go: pruned images go, the checkout moves
-- into place, and the container that was live before is removed.
pub mod Total
use mini_deploy.Prelude.{
  ℕ, Bool, true, false, ◌&&◌, ◌||◌, not, List, [], ◌∷◌, ◌++◌, every, any, leb, eqb, if◌then◌else◌,
}
use mini_deploy.Text.{Text, codes, ◌==◌, is_empty, member, has_prefix, trim_prefix}
use mini_deploy.Records.{DeploymentRecord, DeploymentServiceRecord, DeploymentVersion}
use mini_deploy.Result.{Result, ok, err, move_source, start_container}
use mini_deploy.Strategy
use mini_deploy.Path.{
  FilePath, clean, validate_application_name, strict_child_path, deployments_dir,
  managed_deployment_path,
}
use mini_deploy.Checkout.{strict_child}
use mini_deploy.History.{version_record}
use mini_deploy.Proxy.Fullstack.{validate_fullstack_service_metadata}
use mini_deploy.Docker.{container_exists, remove_container}
use mini_deploy.World.{
  Io, Event.image_rm, Event.remove_all, Event.rename_path, run, pure, lift, ignore, ◌>>=◌, ◌>>◌,
}

-- `_, _ = runCommand("", "docker", "image", "rm", image)`
unfoldable pub remove_image : Text → Io (Unit {0})
remove_image image = ignore (run (image_rm image) start_container)

abbrev pub is_identifier_rune : ℕ → Bool
is_identifier_rune c =
    leb b'a' c && leb c b'z'
    || leb b'A' c && leb c b'Z'
    || leb b'0' c && leb c b'9'
    || eqb c b'_'
    || eqb c b'.'
    || eqb c b'-'

-- strings.Contains(value, "..")
unfoldable pub has_dots : Text → Bool
unfolding has_prefix
has_dots [] = false
has_dots (c ∷ cs) = has_prefix (c ∷ cs) (codes "..") || has_dots cs

unfoldable pub is_trusted_docker_identifier : Text → Bool
unfolding has_dots ◌==◌
is_trusted_docker_identifier value =
    not (is_empty value)
    && not (value == codes ".")
    && not (value == codes "..")
    && every is_identifier_rune value
    && not (has_dots value)

-- validateFullstackImageRecord
unfoldable pub is_fullstack_image : Text → Text → Text → Bool
unfolding validate_application_name is_trusted_docker_identifier has_prefix trim_prefix ◌==◌
is_fullstack_image app service image =
    let prefix = codes "minideploy-" ++ app ++ codes "-" ++ service ++ codes ":" in
    elim (validate_application_name app) [
      | ok _ ↦
          (service == Strategy.frontend_service || service == Strategy.backend_service)
          && has_prefix image prefix
          && is_trusted_docker_identifier (trim_prefix image prefix)
      | err _ ↦ false
    ]

-- removeFullstackImage, where its error is only logged
unfoldable pub remove_fullstack_image : Text → Text → Text → Io (Unit {0})
remove_fullstack_image app service image =
    if is_empty image || not (is_fullstack_image app service image)
    then pure tt
    else remove_image image

-- The inner loop of removePrunedHistoryImages.
unfoldable pub remove_service_images :
    List Text → Text → List DeploymentServiceRecord → Io (Unit {0})
unfolding member
remove_service_images keep app [] = pure tt
remove_service_images keep app (s ∷ ss) =
    (if member s.image keep then pure tt else remove_fullstack_image app s.name s.image)
    >> remove_service_images keep app ss

-- The body of its outer loop.
unfoldable pub remove_version_images : List Text → DeploymentVersion → Io (Unit {0})
unfolding ◌==◌ member
remove_version_images keep v =
    let r = version_record v in
    if r.strategy == Strategy.fullstack_vite_node
    then elim (validate_fullstack_service_metadata r.services) [
      | ok _ ↦ remove_service_images keep r.app r.services
      | err _ ↦ pure tt
    ]
    else if is_empty v.image || member v.image keep
    then pure tt
    else remove_image v.image

unfoldable pub remove_pruned_history_images : List Text → List DeploymentVersion → Io (Unit {0})
remove_pruned_history_images keep [] = pure tt
remove_pruned_history_images keep (v ∷ vs) =
    remove_version_images keep v >> remove_pruned_history_images keep vs

-- strictChildPath(deploymentsDir, path), for a path that is absolute and clean
unfoldable pub managed_child : FilePath → Result FilePath
unfolding clean strict_child
managed_child path = strict_child (clean deployments_dir) path

-- removeManagedDeploymentPath
unfoldable pub remove_managed_deployment_path : FilePath → Io (Unit {0})
remove_managed_deployment_path path = do
  safe_path ← lift (managed_child path)
  run (remove_all safe_path) move_source
  pure tt

unfoldable pub replace_deployment_source : FilePath → FilePath → Io (Unit {0})
replace_deployment_source path new_path = do
  current ← lift (managed_child path)
  candidate ← lift (managed_child new_path)
  remove_managed_deployment_path current
  run (rename_path candidate current) move_source
  pure tt

-- The removal of the container that was live before the cutover.
unfoldable pub retire_container : Text → Text → Io (Unit {0})
unfolding ◌==◌
retire_container old candidate =
    if is_empty old || old == candidate
    then pure tt
    else do found ← container_exists old; if found then remove_container old else pure tt
