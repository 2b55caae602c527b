-- ===== src/Config.antt =====
-- app/deployment_config.go: defaults, validation, and the normal form that every reader of a stored
-- record passes it through.
pub mod Laws
use mini_deploy.Prelude.{
  ℤ, pos, is_zero, at_least, at_most, Bool, true, false, ◌&&◌, not, Option, none, some, List, [],
  ◌∷◌, map, if◌then◌else◌,
}
use mini_deploy.Text.{Text, codes, ◌==◌, is_empty, has_prefix, trim_space}
use mini_deploy.Strategy
use mini_deploy.Records.{DeploymentRecord, DeploymentServiceRecord}
use mini_deploy.Result.{Result, ok, err, container_port_out_of_range, health_path_without_slash}
use mini_deploy.Names.{normalize_runtime_environment_names}

abbrev pub default_container_port : ℤ
default_container_port = pos 80

abbrev pub default_node_container_port : ℤ
default_node_container_port = pos 3000

abbrev pub default_health_path : Text
default_health_path = codes "/"

unfoldable pub normalized_container_port : ℤ → ℤ
normalized_container_port port = if is_zero port then default_container_port else port

unfoldable pub normalized_health_path : Text → Text
normalized_health_path path =
    let trimmed = trim_space path in if is_empty trimmed then default_health_path else trimmed

abbrev pub is_tcp_port : ℤ → Bool
is_tcp_port port = at_least 1 port && at_most 65535 port

unfoldable pub validate_deployment_config : ℤ → Text → Result (Unit {0})
unfolding has_prefix
validate_deployment_config container_port health_path =
    if not (is_tcp_port container_port)
    then err container_port_out_of_range
    else if not (has_prefix health_path (codes "/"))
    then err health_path_without_slash
    else ok tt

unfoldable pub validate_requested_deployment_config : ℤ → Text → Result (Unit {0})
unfolding has_prefix
validate_requested_deployment_config container_port health_path =
    let path = trim_space health_path in
    if not (is_zero container_port) && not (is_tcp_port container_port)
    then err container_port_out_of_range
    else if not (is_empty path) && not (has_prefix path (codes "/"))
    then err health_path_without_slash
    else ok tt

unfoldable pub normalized_service_container_port : Text → ℤ → ℤ
normalized_service_container_port strategy port =
    if not (is_zero port)
    then port
    else if strategy == Strategy.node_express
    then default_node_container_port
    else default_container_port

-- The body of the loop over record.Services.
unfoldable pub normalize_service : DeploymentServiceRecord → DeploymentServiceRecord
unfolding normalized_service_container_port normalized_health_path
normalize_service s = record s {
  container_port = normalized_service_container_port s.strategy s.container_port;
  health_path = normalized_health_path s.health_path;
}

unfoldable pub find_service : Text → List DeploymentServiceRecord → Option DeploymentServiceRecord
find_service name [] = none
find_service name (s ∷ ss) = if s.name == name then some s else find_service name ss

unfoldable pub deployment_service_by_name : DeploymentRecord → Text → Option DeploymentServiceRecord
unfolding find_service
deployment_service_by_name r name = find_service name r.services

-- A full-stack record shows the fields of its frontend service.
abbrev pub project_frontend : DeploymentRecord → Option DeploymentServiceRecord → DeploymentRecord
project_frontend r none = r
project_frontend r (some f) = record r {
  container = f.container;
  image = f.image;
  image_id = f.image_id;
  port = f.port;
  container_port = f.container_port;
  health_path = f.health_path;
  package_manager = [];
  package_install_mode = [];
}

abbrev pub strategy_or_default : Text → Text
strategy_or_default s = if is_empty (trim_space s) then Strategy.dockerfile else s

-- The fields of one record, before the projection.
unfoldable pub normalize_fields : DeploymentRecord → DeploymentRecord
unfolding normalized_container_port normalized_health_path normalize_service
normalize_fields r = record r {
  strategy = strategy_or_default r.strategy;
  container_port = normalized_container_port r.container_port;
  health_path = normalized_health_path r.health_path;
  environment_variables = normalize_runtime_environment_names r.environment_variables;
  services = map normalize_service r.services;
}

-- The last step: a full-stack record that has a frontend service takes its fields.
unfoldable pub project_fullstack : DeploymentRecord → DeploymentRecord
unfolding deployment_service_by_name
project_fullstack n =
    if n.strategy == Strategy.fullstack_vite_node
    then project_frontend n (deployment_service_by_name n Strategy.frontend_service)
    else n

unfoldable pub normalize_deployment_record : DeploymentRecord → DeploymentRecord
unfolding normalize_fields project_fullstack
normalize_deployment_record r = project_fullstack (normalize_fields r)
