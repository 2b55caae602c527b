-- ===== src/Build.antt =====
-- buildDeploymentImage of app/deployment_strategy.go, and the plan of a checkout.
use mini_deploy.Prelude.{if◌then◌else◌}
use mini_deploy.Text.{Text, is_empty}
use mini_deploy.Records.{DeploymentRecord}
use mini_deploy.Result.{docker_build}
use mini_deploy.Path.{FilePath}
use mini_deploy.Detect.{deployment_strategy_for_record, detect_deployment_strategy}
use mini_deploy.Detect.Plan.{BuildPlan, ProjectPlan, DeploymentConfig}
use mini_deploy.World.{
  Io, Event.docker_build as build, Event.make_build_context, Event.write_dockerfile,
  Event.remove_build_context, run, pure, lift, ignore, gets, ◌>>=◌, ◌>>◌,
}
use mini_deploy.World.Handle.{finally}

-- The plan's own Dockerfile is written into a build context that is removed again.
unfoldable pub build_deployment_image : FilePath → Text → BuildPlan → Io (Unit {0})
build_deployment_image path image plan =
    if is_empty plan.generated_dockerfile
    then (run (build path image) docker_build >> pure tt)
    else run make_build_context docker_build
      >> finally
          (run write_dockerfile docker_build >> run (build path image) docker_build >> pure tt)
          (ignore (run remove_build_context docker_build))

unfoldable pub strategy_for_record : DeploymentRecord → FilePath → Io ProjectPlan
strategy_for_record r path = do
  disk ← gets (λ w. w.host.disk w.trace)
  beyond ← gets (λ w. w.host.lower_beyond)
  lift (deployment_strategy_for_record beyond disk r path)

unfoldable pub detect_strategy : FilePath → DeploymentConfig → Io ProjectPlan
detect_strategy path requested = do
  disk ← gets (λ w. w.host.disk w.trace)
  beyond ← gets (λ w. w.host.lower_beyond)
  lift (detect_deployment_strategy beyond disk path requested)
