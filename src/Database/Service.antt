-- ===== src/Database/Service.antt =====
-- stopDeploymentForDatabaseDetach and startDeploymentAfterDatabaseAttach of app/minibase_lifecycle.go.
use mini_deploy.Prelude.{false, not, if◌then◌else◌}
use mini_deploy.Text.{◌==◌, is_empty}
use mini_deploy.Records.{DeploymentRecord}
use mini_deploy.Result.{lifecycle_unsupported, unknown_container}
use mini_deploy.Strategy
use mini_deploy.Config.{normalize_deployment_record}
use mini_deploy.Environment
use mini_deploy.Environment.{verify_runtime_environment_metadata}
use mini_deploy.Docker.{
  find_deploy_port, start_managed_deployment_container, verify_container_startup,
  verify_http_health_path,
}
use mini_deploy.Database.{resolve_database_runtime}
use mini_deploy.Database.Migration.{run_reactor_lab_migration}
use mini_deploy.Fullstack.Publish.{start_or_clean_up}
use mini_deploy.Fullstack.Resources.{cleanup_fullstack_release}
use mini_deploy.Lifecycle.Delete.{remove_existing}
use mini_deploy.World.{Io, Environment as Values, pure, fail, lift, ignore, ◌>>=◌, ◌>>◌}
use mini_deploy.World.Handle.{on_error}

unfoldable pub stop_deployment_for_database_detach : DeploymentRecord → Io (Unit {0})
unfolding ◌==◌
stop_deployment_for_database_detach record_of_app =
    let r = normalize_deployment_record record_of_app in
    if r.strategy == Strategy.fullstack_vite_node
    then cleanup_fullstack_release r false
    else if not (r.strategy == Strategy.node_express)
    then fail lifecycle_unsupported
    else if is_empty r.container
    then fail unknown_container
    else remove_existing r.container

-- The container of a single service that fails a check is removed, if there is one.
unfoldable pub start_node_service : DeploymentRecord → Values → Io DeploymentRecord
start_node_service r environment = do
  runtime ← resolve_database_runtime r environment
  run_reactor_lab_migration r.app r.image r.package_manager r.reactor_lab_migration runtime
  port ← find_deploy_port
  start_managed_deployment_container r.app r.container r.image port r.container_port r.strategy
      runtime.environment runtime.data_network
  on_error (verify_container_startup r.container) (ignore (remove_existing r.container))
  on_error (verify_http_health_path port r.health_path) (ignore (remove_existing r.container))
  pure (normalize_deployment_record (record r { port = port }))

unfoldable pub start_deployment_after_database_attach : DeploymentRecord → Io DeploymentRecord
unfolding ◌==◌
start_deployment_after_database_attach record_of_app = do
  let r = normalize_deployment_record record_of_app
  environment ← Environment.load r.app
  lift (verify_runtime_environment_metadata r environment)
  if r.strategy == Strategy.fullstack_vite_node
      then start_or_clean_up r environment false
      else if r.strategy == Strategy.node_express
      then start_node_service r environment
      else fail lifecycle_unsupported
