-- ===== src/Detect/Project.antt =====
-- app/fullstack_strategy.go: a frontend and a backend in one checkout.
use mini_deploy.Prelude.{ℕ, pos, false, ◌||◌, not, Option, none, some, [], ◌∷◌, ◌++◌, if◌then◌else◌}
use mini_deploy.Text.{Text, codes, ◌==◌}
use mini_deploy.Result.{Result, ok, err, ◌>>=◌, ◌>>◌, missing_service, unsupported_strategy}
use mini_deploy.Records.{DeploymentRecord, DeploymentServiceRecord, zero_record}
use mini_deploy.Strategy
use mini_deploy.Config.{
  normalize_deployment_record, normalized_container_port, normalized_health_path, find_service,
}
use mini_deploy.Path.{FilePath}
use mini_deploy.Checkout.{
  Disk, is_directory, resolve_below, if_exists, strict_child, repository_regular_file,
}
use mini_deploy.Proxy.Fullstack.{validate_fullstack_service_metadata}
use mini_deploy.Detect.Plan.{BuildPlan, ServicePlan, ProjectPlan, DeploymentConfig, no_plan}
use mini_deploy.Detect.Npm.{is_some}
use mini_deploy.Detect.Vite.{detect_vite, persisted_vite}
use mini_deploy.Detect.Node.{detect_node, persisted_node}

unfoldable pub dockerfile_plan : DeploymentConfig → Option FilePath → Option BuildPlan
unfolding normalized_container_port normalized_health_path
dockerfile_plan requested none = none
dockerfile_plan requested (some path) = some (record no_plan {
  strategy = Strategy.dockerfile;
  container_port = normalized_container_port requested.container_port;
  health_path = normalized_health_path requested.health_path;
})

-- dockerfileStrategyDetector.Detect
unfoldable pub detect_dockerfile : Disk → FilePath → DeploymentConfig → Result (Option BuildPlan)
unfolding dockerfile_plan
detect_dockerfile disk root requested = do
  path ← repository_regular_file disk root (codes "Dockerfile")
  ok (dockerfile_plan requested path)

unfoldable pub resolved_repository_service_directory :
    Disk → FilePath → Text → Result (Option FilePath)
unfolding ◌==◌ strict_child resolve_below
resolved_repository_service_directory disk root name =
    if not (name == Strategy.frontend_service || name == Strategy.backend_service)
    then err missing_service
    else do
      candidate ← strict_child root (root ++ name ∷ [])
      if_exists (disk.lstat candidate) (resolve_below disk root candidate is_directory)

abbrev service_plan : Text → FilePath → BuildPlan → ServicePlan
service_plan name path build = record {
  name = name;
  path = name;
  repository_path = path;
  build = build;
}

abbrev pub project_of : FilePath → BuildPlan → FilePath → BuildPlan → ProjectPlan
project_of frontend_path frontend backend_path backend = record {
  build = record no_plan { strategy = Strategy.fullstack_vite_node };
  services =
      service_plan Strategy.frontend_service frontend_path frontend
      ∷ service_plan Strategy.backend_service backend_path backend
      ∷ [];
}

abbrev no_config : DeploymentConfig
no_config = record { container_port = pos 0; health_path = [] }

-- What is done with a value that was found.
abbrev pub if_found {ℓ κ} :
    {A : Type ℓ} {B : Type κ} → Option A → (A → Result (Option B)) → Result (Option B)
if_found none next = ok none
if_found (some a) next = next a

-- fullstackViteNodeStrategyDetector.Detect
unfoldable pub detect_fullstack :
    (ℕ → ℕ) → Disk → FilePath → DeploymentConfig → Result (Option ProjectPlan)
detect_fullstack beyond disk root requested = do
  frontend_path ← resolved_repository_service_directory disk root Strategy.frontend_service
  if_found frontend_path λ frontend_path. do
    backend_path ← resolved_repository_service_directory disk root Strategy.backend_service
    if_found backend_path λ backend_path. do
      frontend ← detect_vite disk frontend_path
      if_found frontend λ frontend. do
        backend ← detect_node beyond disk backend_path requested
        if_found backend
            λ backend. ok (some (project_of frontend_path frontend backend_path backend))

abbrev pub detected_dockerfile : Option BuildPlan → Result BuildPlan
detected_dockerfile none = err unsupported_strategy
detected_dockerfile (some plan) = ok plan

-- The case deploymentStrategyDockerfile of deploymentStrategyForRecord.
unfoldable pub persisted_dockerfile : Disk → FilePath → DeploymentRecord → Result BuildPlan
persisted_dockerfile disk root r = do
  plan ←
      detect_dockerfile disk root
        (record { container_port = r.container_port; health_path = r.health_path })
  detected_dockerfile plan

-- The switch of deploymentStrategyForRecord for a normalised record. Its full-stack case is apart, in
-- deployment_strategy_for_record: the records of services that come here are never full-stack.
unfoldable pub single_strategy : (ℕ → ℕ) → Disk → DeploymentRecord → FilePath → Result BuildPlan
unfolding ◌==◌
single_strategy beyond disk r root =
    if r.strategy == Strategy.dockerfile
    then persisted_dockerfile disk root r
    else if r.strategy == Strategy.vite_static
    then persisted_vite disk root r
    else if r.strategy == Strategy.node_express
    then persisted_node beyond disk root r
    else err unsupported_strategy

abbrev service_record : DeploymentRecord → DeploymentServiceRecord → DeploymentRecord
service_record r s = record zero_record {
  app = r.app;
  container = s.container;
  image = s.image;
  port = s.port;
  container_port = s.container_port;
  health_path = s.health_path;
  strategy = s.strategy;
  package_manager = s.package_manager;
  package_install_mode = s.package_install_mode;
}

abbrev some_path : Option FilePath → Result FilePath
some_path none = err missing_service
some_path (some path) = ok path

-- DeploymentServiceRecord{}
abbrev pub zero_service : DeploymentServiceRecord
zero_service = record {
  name = [];
  path = [];
  strategy = [];
  container = [];
  image = [];
  image_id = [];
  port = pos 0;
  container_port = pos 0;
  health_path = [];
  package_manager = [];
  package_install_mode = [];
  reactor_lab_migration = false;
}

-- `service, _ := deploymentServiceByName(record, name)`
abbrev pub service_or_zero : Option DeploymentServiceRecord → DeploymentServiceRecord
service_or_zero none = zero_service
service_or_zero (some s) = s

-- The body of the loop of persistedFullstackBuildPlan.
unfoldable pub persisted_service :
    (ℕ → ℕ) → Disk → DeploymentRecord → FilePath → Text → Result (FilePath × BuildPlan)
persisted_service beyond disk r root name = do
  found_path ← resolved_repository_service_directory disk root name
  path ← some_path found_path
  let service = service_record r (service_or_zero (find_service name r.services))
  plan ← single_strategy beyond disk (normalize_deployment_record service) path
  ok (path, plan)

unfoldable pub persisted_fullstack_build_plan :
    (ℕ → ℕ) → Disk → DeploymentRecord → FilePath → Result ProjectPlan
persisted_fullstack_build_plan beyond disk r root = do
  dockerfile ← detect_dockerfile disk root no_config
  if is_some dockerfile then err unsupported_strategy else do
    validate_fullstack_service_metadata r.services
    frontend ← persisted_service beyond disk r root Strategy.frontend_service
    backend ← persisted_service beyond disk r root Strategy.backend_service
    ok (project_of frontend.0 frontend.1 backend.0 backend.1)
