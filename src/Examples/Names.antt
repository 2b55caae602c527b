-- ===== src/Examples/Names.antt =====
-- A free port, and the names of a full-stack release, at concrete inputs.
use mini_deploy.Prelude.{refl, ◌≡◌, ◌⊎◌, [], keep_if, pos, suc}
use mini_deploy.Text.{Text, codes, ◌==◌, has_prefix, trim_space}
use mini_deploy.Text.{after_prefix}
use mini_deploy.Result.{ok}
use mini_deploy.Path.{validate_application_name}
use mini_deploy.World.{io}
use mini_deploy.Docker.{find_available_port, find_deploy_port, min_deploy_port, max_deploy_port}
use mini_deploy.Docker.Port.{IsFree, find_deploy_port-IsFree}
use mini_deploy.Lifecycle.Retire.{is_trusted_docker_identifier, has_dots}
use mini_deploy.Fullstack.{
  fullstack_release_network_name, fullstack_service_container_name, fullstack_service_image_name,
  is_fullstack_container_kind, is_fullstack_service_name, validate_fullstack_container_record,
  validate_fullstack_image_record, validate_fullstack_network_record,
}
use mini_deploy.Fullstack.Resources.{remove_fullstack_container}
use mini_deploy.Fullstack.Resources.Ownership.{IsOwned, removes, remove_fullstack_container-IsOwned}
use mini_deploy.Fullstack.Laws.{fullstack_names-valid}
use mini_deploy.Examples.Values.{world}

port_found : (find_deploy_port world).0 ≡ ok (pos 8081)
unfolding io find_deploy_port find_available_port
port_found = refl

find_deploy_port-IsFree_example :
    IsFree world.host [] min_deploy_port (suc max_deploy_port) (pos 8081)
find_deploy_port-IsFree_example = find_deploy_port-IsFree world (pos 8081) port_found

abbrev network : Text
network = codes "minideploy-shop-release-7"

abbrev container : Text
container = codes "minideploy-shop-backend-candidate-7"

abbrev image : Text
image = codes "minideploy-shop-backend:7"

unfoldable naming : Unit {0}
unfolding validate_application_name ◌==◌ trim_space is_trusted_docker_identifier has_dots has_prefix
    after_prefix is_fullstack_service_name is_fullstack_container_kind
naming = tt

network_named : fullstack_release_network_name (codes "shop") (codes "7") ≡ ok network
unfolding naming fullstack_release_network_name
network_named = refl

container_named :
    fullstack_service_container_name
      (codes "shop")
      (codes "backend")
      (codes "candidate")
      (codes "7")
    ≡ ok container
unfolding naming fullstack_service_container_name
container_named = refl

image_named : fullstack_service_image_name (codes "shop") (codes "backend") (codes "7") ≡ ok image
unfolding naming fullstack_service_image_name
image_named = refl

fullstack_names-valid_example :
    (validate_fullstack_network_record (codes "shop") network ≡ ok tt)
    × (validate_fullstack_container_record (codes "shop") (codes "backend") container ≡ ok tt)
    × (validate_fullstack_image_record (codes "shop") (codes "backend") image ≡ ok tt)
fullstack_names-valid_example =
    fullstack_names-valid (codes "shop") (codes "7") (codes "backend") (codes "candidate") network
      container image network_named container_named image_named

remove_fullstack_container-IsOwned_example :
    (keep_if removes
        (remove_fullstack_container (codes "shop") (codes "backend") container world).1.trace
      ≡ keep_if removes world.trace)
    ⊎ IsOwned (codes "shop") (codes "backend") container world
remove_fullstack_container-IsOwned_example =
    remove_fullstack_container-IsOwned (codes "shop") (codes "backend") container world
