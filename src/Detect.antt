-- ===== src/Detect.antt =====
-- app/deployment_strategy.go: which strategy builds and runs a checkout. The checkout is read as a disk,
-- at an absolute and clean path.
pub mod Plan
pub mod Npm
pub mod Vite
pub mod Node
pub mod Project
pub mod Laws
use mini_deploy.Prelude.{ℕ, Option, none, some, if◌then◌else◌}
use mini_deploy.Text.{◌==◌}
use mini_deploy.Result.{Result, ok, err, Error, ◌>>=◌, unsupported_strategy}
use mini_deploy.Records.{DeploymentRecord}
use mini_deploy.Strategy
use mini_deploy.Config.{normalize_deployment_record}
use mini_deploy.Path.{FilePath}
use mini_deploy.Checkout.{Disk}
use Plan.{BuildPlan, ProjectPlan, DeploymentConfig, single}
use Vite.{detect_vite}
use Node.{detect_node}
use Project.{detect_dockerfile, detect_fullstack, single_strategy, persisted_fullstack_build_plan}

-- The next detector is asked only where one found nothing, and not behind an error.
abbrev pub or_else {ℓ} : {A : Type ℓ} → Result (Option A) → Result A → Result A
or_else (err e) later = err e
or_else (ok none) later = later
or_else (ok (some a)) later = ok a

-- A detector of single services as one of projects.
abbrev pub as_project : Result (Option BuildPlan) → Result (Option ProjectPlan)
as_project (err e) = err e
as_project (ok none) = ok none
as_project (ok (some plan)) = ok (some (single plan))

-- The detectors in the order of deploymentStrategyDetectors.
unfoldable pub detect_deployment_strategy :
    (ℕ → ℕ) → Disk → FilePath → DeploymentConfig → Result ProjectPlan
detect_deployment_strategy beyond disk root requested =
    or_else (as_project (detect_dockerfile disk root requested)) (
      or_else (detect_fullstack beyond disk root requested) (
        or_else (as_project (detect_vite disk root)) (
          or_else (as_project (detect_node beyond disk root requested))
            (err unsupported_strategy))))

unfoldable pub deployment_strategy_for_record :
    (ℕ → ℕ) → Disk → DeploymentRecord → FilePath → Result ProjectPlan
unfolding ◌==◌
deployment_strategy_for_record beyond disk record_of_app root =
    let r = normalize_deployment_record record_of_app in
    if r.strategy == Strategy.fullstack_vite_node
    then persisted_fullstack_build_plan beyond disk r root
    else do plan ← single_strategy beyond disk r root; ok (single plan)
