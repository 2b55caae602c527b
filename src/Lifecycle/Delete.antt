-- ===== src/Lifecycle/Delete.antt =====
-- getDeployment and deleteDeploymentHandler of app/handlers.go.
use mini_deploy.Prelude.{◌||◌, List, [], ◌∷◌, if◌then◌else◌}
use mini_deploy.Text.{Text, ◌==◌, is_empty}
use mini_deploy.Records.{DeploymentRecord, DeploymentVersion}
use mini_deploy.Result.{deployment_not_found, move_source, remove_resource}
use mini_deploy.Strategy
use mini_deploy.Config.{normalize_deployment_record}
use mini_deploy.Path.{managed_deployment_path}
use mini_deploy.Environment
use mini_deploy.Store
use mini_deploy.History
use mini_deploy.Docker.{container_exists}
use mini_deploy.Fullstack.Delete.{delete_fullstack_project, forget_project}
use mini_deploy.Lifecycle.Retire.{remove_image}
use mini_deploy.World.{
  Io, Event.docker_rm, Event.remove_all, run, pure, fail, lift, try, ignore, ◌>>=◌, ◌>>◌,
}
use mini_deploy.World.Handle.{if_ok}

unfoldable pub get_deployment : Text → Io DeploymentRecord
get_deployment app =
    if is_empty app
    then fail deployment_not_found
    else do r ← Store.get app; pure (normalize_deployment_record r)

-- The loop over the images of the history; an error is only logged.
unfoldable pub remove_old_images : Text → List DeploymentVersion → Io (Unit {0})
unfolding ◌==◌
remove_old_images image [] = pure tt
remove_old_images image (v ∷ vs) =
    (if is_empty v.image || v.image == image then pure tt else remove_image v.image)
    >> remove_old_images image vs

-- A container that exists is removed, or the deletion fails.
unfoldable pub remove_existing : Text → Io (Unit {0})
remove_existing container = do
  found ← container_exists container
  if found then (run (docker_rm container) remove_resource >> pure tt) else pure tt

unfoldable pub delete_single : DeploymentRecord → Io (Unit {0})
delete_single r = do
  path ← lift (managed_deployment_path r.app)
  lift (Environment.path r.app)
  remove_existing r.container
  run (remove_all path) move_source
  versions ← try (History.list r.app)
  if_ok versions (remove_old_images r.image)
  ignore (History.clear r.app)
  if is_empty r.image then pure tt else remove_image r.image
  forget_project r

-- What deleteDeploymentHandler does: it returns the record for the response.
unfoldable pub delete_deployment : Text → Io DeploymentRecord
unfolding ◌==◌
delete_deployment app = do
  r ← get_deployment app
  if r.strategy == Strategy.fullstack_vite_node then delete_fullstack_project r else delete_single r
  pure r
