-- ===== src/Examples/Checkouts.antt =====
-- Files of a checkout and the strategy that is found in it, at concrete inputs.
use mini_deploy.Prelude.{ℕ, refl, ◌≡◌, pos, [], ◌∷◌, ◌++◌, some}
use mini_deploy.Text.{codes, ◌==◌, trim_space}
use mini_deploy.Names.{normalize_runtime_environment_names}
use mini_deploy.Result.{ok}
use mini_deploy.Strategy
use mini_deploy.Path.{FilePath}
use mini_deploy.Config.{normalize_deployment_record}
use mini_deploy.Checkout.{clean_relative, repository_regular_file, is_regular}
use mini_deploy.Checkout.Laws.{IsBelow, repository_regular_file-IsBelow}
use mini_deploy.Detect.{detect_deployment_strategy, deployment_strategy_for_record}
use mini_deploy.Detect.Plan.{BuildPlan, DeploymentConfig, no_plan, single}
use mini_deploy.Detect.Project.{detect_dockerfile}
use mini_deploy.Detect.Laws.{Persists, deployment_strategy_for_record-detect_deployment_strategy}
use mini_deploy.Examples.Values.{blog, disk}

abbrev checkout : FilePath
checkout = codes "srv" ∷ codes "blog" ∷ []

abbrev dockerfile : FilePath
dockerfile = codes "srv" ∷ codes "blog" ∷ codes "Dockerfile" ∷ []

dockerfile_found : repository_regular_file disk checkout (codes "Dockerfile") ≡ ok (some dockerfile)
unfolding repository_regular_file
dockerfile_found = refl

repository_regular_file-IsBelow_example :
    IsBelow disk checkout (checkout ++ clean_relative (codes "Dockerfile")) is_regular dockerfile
repository_regular_file-IsBelow_example =
    repository_regular_file-IsBelow disk checkout dockerfile (codes "Dockerfile") dockerfile_found

abbrev requested : DeploymentConfig
requested = record { container_port = pos 80; health_path = codes "/" }

abbrev plan : BuildPlan
plan = record no_plan {
  strategy = Strategy.dockerfile;
  container_port = pos 80;
  health_path = codes "/";
}

abbrev same : ℕ → ℕ
same c = c

dockerfile_detected : detect_deployment_strategy same disk checkout requested ≡ ok (single plan)
unfolding detect_deployment_strategy detect_dockerfile repository_regular_file trim_space
dockerfile_detected = refl

normal : normalize_deployment_record blog ≡ blog
unfolding normalize_deployment_record ◌==◌ trim_space normalize_runtime_environment_names
normal = refl

deployed : Persists disk checkout plan blog
deployed = record {
  strategy = refl;
  package_manager = refl;
  package_install_mode = refl;
  container_port = refl;
  health_path = refl;
}

deployment_strategy_for_record-detect_deployment_strategy_example :
    deployment_strategy_for_record same disk blog checkout ≡ ok (single plan)
deployment_strategy_for_record-detect_deployment_strategy_example =
    deployment_strategy_for_record-detect_deployment_strategy same disk checkout requested plan blog
      dockerfile_detected normal deployed
