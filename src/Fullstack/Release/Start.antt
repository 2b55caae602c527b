-- ===== src/Fullstack/Release/Start.antt =====
-- startAndVerifyFullstackRelease of app/fullstack_lifecycle.go. It returns the record as far as it has come
-- also with an error, for the caller to clean up.
use mini_deploy.Prelude.{ℤ, Option, none, some, [], if◌then◌else◌}
use mini_deploy.Text.{Text, ◌==◌}
use mini_deploy.Records.{DeploymentRecord, DeploymentServiceRecord}
use mini_deploy.Result.{Result, ok, err, missing_service, start_container}
use mini_deploy.Strategy
use mini_deploy.Config.{deployment_service_by_name, find_service, normalize_deployment_record}
use mini_deploy.Docker.{
  find_deploy_port, start_managed_deployment_container_with_options, verify_container_startup,
  verify_http_health_path,
}
use mini_deploy.Database.{DatabaseRuntime, resolve_database_runtime}
use mini_deploy.Database.Migration.{run_reactor_lab_migration}
use mini_deploy.Fullstack.Resources.{create_fullstack_network}
use mini_deploy.Fullstack.Release.{service_of, with_service}
use mini_deploy.World.{
  Io, Environment, ContainerOptions, Event.container_logs, run, pure, fail, try, ignore, ◌>>=◌,
  ◌>>◌,
}
use mini_deploy.World.Handle.{on_error}

-- The record, and how the start has ended.
pub record Start : Type 0 where
  pub release : DeploymentRecord
  pub outcome : Result (Unit {0})

unfoldable pub migrate_backend :
    DeploymentRecord → DatabaseRuntime → Option DeploymentServiceRecord → Io (Unit {0})
migrate_backend r runtime none = fail missing_service
migrate_backend r runtime (some backend) =
    run_reactor_lab_migration r.app backend.image backend.package_manager
      backend.reactor_lab_migration runtime

-- Up to the creation of the network.
unfoldable pub prepare_release : DeploymentRecord → Environment → Io DatabaseRuntime
prepare_release r environment = do
  runtime ← resolve_database_runtime r environment
  migrate_backend r runtime (deployment_service_by_name r Strategy.backend_service)
  create_fullstack_network r.app r.network
  pure runtime

-- fullstackServiceRuntimeEnvironment
unfoldable pub fullstack_service_runtime_environment : Text → Environment → Environment
unfolding ◌==◌
fullstack_service_runtime_environment service environment =
    if service == Strategy.backend_service then environment else []

-- options.DataNetwork
unfoldable pub service_data_network : Text → DatabaseRuntime → Text
unfolding ◌==◌
service_data_network name runtime =
    if name == Strategy.backend_service then runtime.data_network else []

abbrev pub service_options : DeploymentRecord → Text → ContainerOptions
service_options r name = record { network = r.network; service = name; app = r.app }

abbrev pub with_port : ℤ → DeploymentServiceRecord → DeploymentServiceRecord
with_port port s = record s { port = port }

unfoldable pub start_on_port : DatabaseRuntime → Text → DeploymentRecord → Result ℤ → Io Start
start_on_port runtime name r (err e) = pure (record { release = r; outcome = err e })
start_on_port runtime name r (ok port) = do
  let r = with_service name (with_port port) r
  let s = service_of name r
  started ← try (
      start_managed_deployment_container_with_options r.app s.container s.image s.port
        s.container_port s.strategy (fullstack_service_runtime_environment name runtime.environment)
        (service_data_network name runtime) (service_options r name))
  pure (record { release = r; outcome = started })

-- The body of the loop that starts the services.
unfoldable pub start_service : DatabaseRuntime → Text → DeploymentRecord → Io Start
start_service runtime name r = elim (find_service name r.services) [
  | none ↦ pure (record { release = r; outcome = err missing_service })
  | some s ↦ try find_deploy_port >>= start_on_port runtime name r
]

-- The rest of the function, unless an error has ended it.
abbrev pub unless_failed :
    (DeploymentRecord → Io Start) → DeploymentRecord → Result (Unit {0}) → Io Start
unless_failed next r (ok _) = next r
unless_failed next r (err e) = pure (record { release = r; outcome = err e })

unfoldable pub read_logs : Text → Io (Unit {0})
read_logs container = ignore (run (container_logs container) start_container)

-- The body of the loop that checks the services.
unfoldable pub verify_service : DeploymentRecord → Text → Io (Unit {0})
verify_service r name = do
  let s = service_of name r
  on_error (verify_container_startup s.container) (read_logs s.container)
  on_error (verify_http_health_path s.port s.health_path) (read_logs s.container)

abbrev pub end_start : DeploymentRecord → Result (Unit {0}) → Start
end_start r (ok _) = record { release = normalize_deployment_record r; outcome = ok tt }
end_start r (err e) = record { release = r; outcome = err e }

unfoldable pub verify_release : DeploymentRecord → Io Start
verify_release r = do
  verified ←
      try (verify_service r Strategy.frontend_service >> verify_service r Strategy.backend_service)
  pure (end_start r verified)

unfoldable pub start_frontend : DatabaseRuntime → DeploymentRecord → Io Start
start_frontend runtime r = do
  frontend ← start_service runtime Strategy.frontend_service r
  unless_failed verify_release frontend.release frontend.outcome

abbrev pub start_prepared : DeploymentRecord → Result DatabaseRuntime → Io Start
start_prepared r (err e) = pure (record { release = r; outcome = err e })
start_prepared r (ok runtime) = do
  backend ← start_service runtime Strategy.backend_service r
  unless_failed (start_frontend runtime) backend.release backend.outcome

unfoldable pub start_and_verify_fullstack_release : DeploymentRecord → Environment → Io Start
start_and_verify_fullstack_release r environment =
    try (prepare_release r environment) >>= start_prepared r
