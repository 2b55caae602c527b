-- ===== src/Fullstack/Release/Images.antt =====
-- buildFullstackRelease of app/fullstack_lifecycle.go.
use mini_deploy.Prelude.{List, [], ◌∷◌}
use mini_deploy.Text.{Text}
use mini_deploy.Records.{DeploymentRecord, DeploymentServiceRecord}
use mini_deploy.Strategy
use mini_deploy.Detect.Plan.{ProjectPlan}
use mini_deploy.Database.{fullstack_build_service_by_name}
use mini_deploy.Fullstack.Resources.{remove_fullstack_image}
use mini_deploy.Fullstack.Release.{plan_or_zero, service_of, with_service}
use mini_deploy.Build.{build_deployment_image}
use mini_deploy.Docker.{inspect_built_image_id}
use mini_deploy.World.{Io, pure, ignore, ◌>>=◌, ◌>>◌}
use mini_deploy.World.Handle.{on_error}

-- The loop over the services that are built, whose errors are ignored.
unfoldable pub remove_built : Text → List DeploymentServiceRecord → Io (Unit {0})
remove_built app [] = pure tt
remove_built app (s ∷ ss) =
    ignore (remove_fullstack_image app s.name s.image) >> remove_built app ss

abbrev pub with_image_id : Text → DeploymentServiceRecord → DeploymentServiceRecord
with_image_id id s = record s { image_id = id }

-- The body of the loop: `built` are the services before, and `also` those that an error of the inspection
-- removes too.
unfoldable pub build_service :
    ProjectPlan
    → Text
    → List DeploymentServiceRecord
    → List DeploymentServiceRecord
    → DeploymentRecord
    → Io DeploymentRecord
build_service plan name built also r = do
  let service = service_of name r
  let service_plan = plan_or_zero (fullstack_build_service_by_name name plan.services)
  on_error (build_deployment_image service_plan.repository_path service.image service_plan.build)
      (remove_built r.app built)
  id ← on_error (inspect_built_image_id service.image) (remove_built r.app also)
  pure (with_service name (with_image_id id) r)

unfoldable pub build_fullstack_release : DeploymentRecord → ProjectPlan → Io DeploymentRecord
build_fullstack_release r plan = do
  let frontend = service_of Strategy.frontend_service r
  first ← build_service plan Strategy.frontend_service [] (frontend ∷ []) r
  build_service plan Strategy.backend_service (frontend ∷ [])
      (frontend ∷ service_of Strategy.backend_service first ∷ []) first
