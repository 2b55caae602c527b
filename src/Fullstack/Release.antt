-- ===== src/Fullstack/Release.antt =====
-- app/fullstack_lifecycle.go: the record of a full-stack release.
pub mod Images
pub mod Start
use mini_deploy.Prelude.{
  ℕ, ℤ, pos, Bool, true, false, ◌&&◌, ◌||◌, not, Option, none, some, List, [], ◌∷◌, if◌then◌else◌,
}
use mini_deploy.Text.{Text, codes, ◌==◌}
use mini_deploy.Records.{DeploymentRecord, DeploymentServiceRecord, zero_record}
use mini_deploy.Result.{Result, ok, err, Error, guard, invalid_plan, missing_service, ◌>>=◌, ◌>>◌}
use mini_deploy.Strategy
use mini_deploy.Config.{find_service, normalize_deployment_record}
use mini_deploy.Detect.Plan.{ProjectPlan, ServicePlan, no_plan}
use mini_deploy.Detect.Project.{service_or_zero}
use mini_deploy.Environment.Format.{runtime_environment_names}
use mini_deploy.Database.{fullstack_build_service_by_name}
use mini_deploy.Fullstack.{
  fullstack_release_network_name, fullstack_service_container_name, fullstack_service_image_name,
  validate_fullstack_active_resources,
}
use mini_deploy.World.{Environment}

-- The record of one service, before its image is built and its port is found.
abbrev pub release_service : Text → ServicePlan → Text → Text → DeploymentServiceRecord
release_service name plan container image = record {
  name = name;
  path = name;
  strategy = plan.build.strategy;
  container = container;
  image = image;
  image_id = [];
  port = pos 0;
  container_port = plan.build.container_port;
  health_path = plan.build.health_path;
  package_manager = plan.build.package_manager;
  package_install_mode = plan.build.package_install_mode;
  reactor_lab_migration = plan.build.reactor_lab_migration;
}

-- A plan of the service that lies in the directory of its name.
abbrev pub planned : Text → Option ServicePlan → Result ServicePlan
planned name none = err missing_service
planned name (some plan) = if plan.path == name then ok plan else err missing_service

-- The body of the loop of newFullstackReleaseRecord.
unfoldable pub new_release_service :
    Text → ProjectPlan → Text → Text → Text → Result DeploymentServiceRecord
unfolding ◌==◌
new_release_service app plan release kind name = do
  service ← planned name (fullstack_build_service_by_name name plan.services)
  container ← fullstack_service_container_name app name kind release
  image ← fullstack_service_image_name app name release
  ok (release_service name service container image)

abbrev pub has_two {ℓ} : {A : Type ℓ} → List A → Bool
has_two (x ∷ y ∷ []) = true
has_two _ = false

abbrev pub is_fullstack_plan : ProjectPlan → Bool
is_fullstack_plan plan =
    plan.build.strategy == Strategy.fullstack_vite_node && has_two plan.services

abbrev pub release_record :
    Text
    → Text
    → Text
    → Environment
    → DeploymentServiceRecord
    → DeploymentServiceRecord
    → DeploymentRecord
release_record app repo_url network environment frontend backend = record zero_record {
  app = app;
  repo_url = repo_url;
  strategy = Strategy.fullstack_vite_node;
  network = network;
  guest_visible = false;
  environment_variables = runtime_environment_names environment;
  services = frontend ∷ backend ∷ [];
}

unfoldable pub new_fullstack_release_record :
    Text → Text → ProjectPlan → Text → Text → Environment → Result DeploymentRecord
unfolding ◌==◌
new_fullstack_release_record app repo_url plan release kind environment = do
  guard (is_fullstack_plan plan) invalid_plan
  network ← fullstack_release_network_name app release
  frontend ← new_release_service app plan release kind Strategy.frontend_service
  backend ← new_release_service app plan release kind Strategy.backend_service
  let r =
      normalize_deployment_record (release_record app repo_url network environment frontend backend)
  validate_fullstack_active_resources r
  ok r

-- An assignment to record.Services[deploymentServiceIndex(record.Services, name)]: the first service of that
-- name changes.
unfoldable pub update_service :
    Text
    → (DeploymentServiceRecord → DeploymentServiceRecord)
    → List DeploymentServiceRecord
    → List DeploymentServiceRecord
unfolding ◌==◌
update_service name f [] = []
update_service name f (s ∷ ss) = if s.name == name then f s ∷ ss else s ∷ update_service name f ss

abbrev pub with_service :
    Text → (DeploymentServiceRecord → DeploymentServiceRecord) → DeploymentRecord → DeploymentRecord
with_service name f r = record r { services = update_service name f r.services }

-- `service, _ := deploymentServiceByName(record, name)`
abbrev pub service_of : Text → DeploymentRecord → DeploymentServiceRecord
service_of name r = service_or_zero (find_service name r.services)

-- deploymentServiceBuildPlan{}
abbrev pub zero_service_plan : ServicePlan
zero_service_plan = record { name = []; path = []; repository_path = []; build = no_plan }

-- `servicePlan, _ := fullstackBuildServiceByName(plan, name)`
abbrev pub plan_or_zero : Option ServicePlan → ServicePlan
plan_or_zero none = zero_service_plan
plan_or_zero (some plan) = plan
