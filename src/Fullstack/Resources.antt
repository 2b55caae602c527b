-- ===== src/Fullstack/Resources.antt =====
-- The Docker resources of a full-stack release, in app/fullstack_runtime.go: a container or network is
-- removed only if its labels say that it belongs to the application.
pub mod Ownership
pub mod Keeps
use mini_deploy.Prelude.{ℕ, Bool, true, false, ◌&&◌, ◌||◌, not, List, [], ◌∷◌, ◌++◌, if◌then◌else◌}
use mini_deploy.Text.{Text, codes, ◌==◌, is_empty, has_prefix, to_lower, trim_space}
use mini_deploy.Records.{DeploymentRecord, DeploymentServiceRecord}
use mini_deploy.Result.{
  Result, ok, err, Error, inspect_resource, invalid_application_name, unowned_resource,
  remove_resource, create_resource,
}
use mini_deploy.Fullstack.{
  validate_fullstack_active_resources, validate_fullstack_container_record,
  validate_fullstack_image_record, validate_fullstack_network_record,
}
use mini_deploy.World.{
  World, Io, Event, Event.container_labels, Event.docker_rm, Event.image_rm, Event.network_create,
  Event.network_labels, Event.network_rm, run, pure, fail, lift, try, gets, ◌>>=◌, ◌>>◌,
}

-- strings.Contains
unfoldable pub contains : Text → Text → Bool
unfolding has_prefix
contains [] part = is_empty part
contains (c ∷ cs) part = has_prefix (c ∷ cs) part || contains cs part

unfoldable pub docker_resource_is_missing : (ℕ → ℕ) → Text → Bool
unfolding contains to_lower
docker_resource_is_missing beyond output =
    let normalized = to_lower beyond output in
    contains normalized (codes "no such") || contains normalized (codes "not found")

-- Whether an operation, if it fails now, prints that the resource is missing.
abbrev pub would_be_missing : Event → World → Bool
would_be_missing e w = docker_resource_is_missing w.host.lower_beyond (w.host.complaint w.trace e)

abbrev pub network_owner : Text → Text
network_owner app = codes "true|" ++ app

abbrev pub container_owner : Text → Text → Text
container_owner app service = codes "true|" ++ app ++ codes "|" ++ service

unfoldable pub create_fullstack_network : Text → Text → Io (Unit {0})
create_fullstack_network app network = do
  lift (validate_fullstack_network_record app network)
  run (network_create app network) create_resource
  pure tt

unfoldable pub remove_labelled_network : Text → Text → Bool → Result Text → Io (Unit {0})
unfolding ◌==◌ trim_space
remove_labelled_network app network missing (err e) = if missing then pure tt else fail e
remove_labelled_network app network missing (ok labels) =
    if not (trim_space labels == network_owner app)
    then fail unowned_resource
    else (run (network_rm network) remove_resource >> pure tt)

unfoldable pub remove_fullstack_network : Text → Text → Io (Unit {0})
remove_fullstack_network app network = if is_empty network then pure tt else do
  lift (validate_fullstack_network_record app network)
  missing ← gets (would_be_missing (network_labels network))
  labels ← try (run (network_labels network) inspect_resource)
  remove_labelled_network app network missing labels

unfoldable pub verify_fullstack_container_ownership : Text → Text → Text → Io (Unit {0})
unfolding ◌==◌ trim_space
verify_fullstack_container_ownership app service container = do
  lift (validate_fullstack_container_record app service container)
  labels ← run (container_labels container) inspect_resource
  if trim_space labels == container_owner app service then pure tt else fail unowned_resource

-- What the text of an error of verifyFullstackContainerOwnership says beside the words of the program: what a
-- failed inspection printed, or a name.
abbrev pub error_text : Text → Text → Text → Error → Text
error_text app container complaint inspect_resource = complaint
error_text app container complaint unowned_resource = container
error_text app container complaint invalid_application_name = app
error_text app container complaint _ = []

-- dockerResourceIsMissing(err.Error())
abbrev pub says_missing : Text → Text → World → Error → Bool
says_missing app container w e =
    docker_resource_is_missing w.host.lower_beyond
      (error_text app container (w.host.complaint w.trace (container_labels container)) e)

unfoldable pub remove_verified : Text → (Error → Bool) → Result (Unit {0}) → Io (Unit {0})
remove_verified container missing (ok _) = run (docker_rm container) remove_resource >> pure tt
remove_verified container missing (err e) = if missing e then pure tt else fail e

unfoldable pub remove_fullstack_container : Text → Text → Text → Io (Unit {0})
remove_fullstack_container app service container = if is_empty container then pure tt else do
  missing ← gets (says_missing app container)
  verified ← try (verify_fullstack_container_ownership app service container)
  remove_verified container missing verified

unfoldable pub remove_fullstack_image : Text → Text → Text → Io (Unit {0})
remove_fullstack_image app service image = if is_empty image then pure tt else do
  lift (validate_fullstack_image_record app service image)
  run (image_rm image) remove_resource
  pure tt

-- errors.Join: an error remains an error.
abbrev pub joined : Result (Unit {0}) → Result (Unit {0}) → Result (Unit {0})
joined (ok _) later = later
joined (err e) later = err e

-- Every step runs, and the errors are joined at the end.
unfoldable pub for_services :
    (DeploymentServiceRecord → Io (Unit {0})) → List DeploymentServiceRecord → Io (Unit {0})
for_services step [] = pure tt
for_services step (s ∷ ss) = do
  first ← try (step s)
  later ← try (for_services step ss)
  lift (joined first later)

unfoldable pub cleanup_fullstack_release : DeploymentRecord → Bool → Io (Unit {0})
cleanup_fullstack_release r remove_images = do
  lift (validate_fullstack_active_resources r)
  containers ←
      try (for_services (λ s. remove_fullstack_container r.app s.name s.container) r.services)
  network ← try (remove_fullstack_network r.app r.network)
  images ← try (
      if remove_images
      then for_services (λ s. remove_fullstack_image r.app s.name s.image) r.services
      else pure tt)
  lift (joined containers (joined network images))
