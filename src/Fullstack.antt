-- ===== src/Fullstack.antt =====
-- app/fullstack_runtime.go: the names of the network, the containers and the images of a full-stack release,
-- and the checks of the names in a record.
pub mod Laws
pub mod Resources
pub mod Release
pub mod Publish
pub mod Deploy
pub mod Redeploy
pub mod Rollback
pub mod Platform
pub mod Unchanged
pub mod Settled
pub mod Apart
pub mod Failure
pub mod Safety
pub mod Delete
pub mod Status
use mini_deploy.Prelude.{Bool, true, false, ◌&&◌, ◌||◌, not, List, [], ◌∷◌, ◌++◌, if◌then◌else◌}
use mini_deploy.Text.{Text, codes, ◌==◌, has_prefix, trim_prefix}
use mini_deploy.Records.{DeploymentRecord, DeploymentServiceRecord}
use mini_deploy.Result.{Result, ok, err, Error, fullstack_metadata, ◌>>=◌, ◌>>◌, guard}
use mini_deploy.Strategy
use mini_deploy.Config.{normalize_deployment_record}
use mini_deploy.Path.{validate_application_name}
use mini_deploy.Proxy.Fullstack.{validate_fullstack_service_metadata}
use mini_deploy.Lifecycle.Retire.{is_trusted_docker_identifier}

unfoldable pub is_fullstack_service_name : Text → Bool
unfolding ◌==◌
is_fullstack_service_name name =
    name == Strategy.frontend_service || name == Strategy.backend_service

unfoldable pub is_fullstack_container_kind : Text → Bool
unfolding ◌==◌
is_fullstack_container_kind kind =
    kind == codes "release" || kind == codes "candidate" || kind == codes "rollback"

abbrev pub network_prefix : Text → Text
network_prefix app = codes "minideploy-" ++ app ++ codes "-release-"

abbrev pub container_prefix : Text → Text → Text
container_prefix app service = codes "minideploy-" ++ app ++ codes "-" ++ service ++ codes "-"

abbrev pub image_prefix : Text → Text → Text
image_prefix app service = codes "minideploy-" ++ app ++ codes "-" ++ service ++ codes ":"

unfoldable pub fullstack_release_network_name : Text → Text → Result Text
fullstack_release_network_name app release = do
  validate_application_name app
  guard (is_trusted_docker_identifier release) fullstack_metadata
  ok (network_prefix app ++ release)

unfoldable pub fullstack_service_container_name : Text → Text → Text → Text → Result Text
fullstack_service_container_name app service kind release = do
  validate_application_name app
  guard
      (is_fullstack_service_name service
        && is_fullstack_container_kind kind
        && is_trusted_docker_identifier release)
      fullstack_metadata
  ok (container_prefix app service ++ (kind ++ codes "-" ++ release))

unfoldable pub fullstack_service_image_name : Text → Text → Text → Result Text
fullstack_service_image_name app service release = do
  validate_application_name app
  guard (is_fullstack_service_name service && is_trusted_docker_identifier release)
      fullstack_metadata
  ok (image_prefix app service ++ release)

-- A name is a prefix and a trusted identifier.
abbrev pub is_named : Text → Text → Bool
is_named prefix name =
    has_prefix name prefix && is_trusted_docker_identifier (trim_prefix name prefix)

unfoldable pub validate_fullstack_network_record : Text → Text → Result (Unit {0})
validate_fullstack_network_record app network = do
  validate_application_name app
  guard (is_named (network_prefix app) network) fullstack_metadata

unfoldable pub validate_fullstack_container_record : Text → Text → Text → Result (Unit {0})
validate_fullstack_container_record app service container = do
  validate_application_name app
  guard (is_fullstack_service_name service) fullstack_metadata
  guard (is_named (container_prefix app service) container) fullstack_metadata

unfoldable pub validate_fullstack_image_record : Text → Text → Text → Result (Unit {0})
validate_fullstack_image_record app service image = do
  validate_application_name app
  guard (is_fullstack_service_name service && is_named (image_prefix app service) image)
      fullstack_metadata

-- The loop over the services of a record.
unfoldable pub validate_services : Text → List DeploymentServiceRecord → Result (Unit {0})
validate_services app [] = ok tt
validate_services app (s ∷ ss) =
    validate_fullstack_container_record app s.name s.container
    >> validate_fullstack_image_record app s.name s.image
    >> validate_services app ss

unfoldable pub validate_fullstack_active_resources : DeploymentRecord → Result (Unit {0})
unfolding ◌==◌
validate_fullstack_active_resources record_of_app = do
  let r = normalize_deployment_record record_of_app
  validate_application_name r.app
  guard (r.strategy == Strategy.fullstack_vite_node) fullstack_metadata
  validate_fullstack_service_metadata r.services
  validate_fullstack_network_record r.app r.network
  validate_services r.app r.services
