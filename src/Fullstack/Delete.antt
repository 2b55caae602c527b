-- ===== src/Fullstack/Delete.antt =====
-- deleteFullstackProject of app/fullstack_delete.go.
use mini_deploy.Prelude.{false, List, [], ◌∷◌, if◌then◌else◌}
use mini_deploy.Text.{Text, member}
use mini_deploy.Records.{DeploymentRecord, DeploymentServiceRecord, DeploymentVersion}
use mini_deploy.Result
use mini_deploy.Result.{Result, ok, move_source}
use mini_deploy.Config.{normalize_deployment_record}
use mini_deploy.Path.{managed_deployment_path}
use mini_deploy.Environment
use mini_deploy.Store
use mini_deploy.History
use mini_deploy.History.{record_with_fallback}
use mini_deploy.Proxy.{sync_proxy_routes}
use mini_deploy.Proxy.Fullstack.{validate_fullstack_service_metadata}
use mini_deploy.Database.Migration.{detach_mini_base_attachment}
use mini_deploy.Fullstack.{validate_fullstack_active_resources, validate_fullstack_image_record}
use mini_deploy.Fullstack.Publish.{deployment_images}
use mini_deploy.Fullstack.Resources.{cleanup_fullstack_release, remove_fullstack_image}
use mini_deploy.World.{Io, Event.remove_all, run, pure, lift, ignore, ◌>>=◌, ◌>>◌}

unfoldable pub validate_images : Text → List DeploymentServiceRecord → Result (Unit {0})
validate_images app [] = ok tt
validate_images app (s ∷ ss) =
    Result.◌>>◌ (validate_fullstack_image_record app s.name s.image) (validate_images app ss)

-- The loop that checks the releases in the history before anything is removed.
unfoldable pub validate_history : DeploymentRecord → List DeploymentVersion → Io (Unit {0})
validate_history r [] = pure tt
validate_history r (version ∷ versions) = do
  let historical = record_with_fallback version r
  lift (validate_fullstack_service_metadata historical.services)
  lift (validate_images r.app historical.services)
  validate_history r versions

-- The images of the services but those to keep; an error is only logged.
unfoldable pub remove_images : Text → List Text → List DeploymentServiceRecord → Io (Unit {0})
unfolding member
remove_images app keep [] = pure tt
remove_images app keep (s ∷ ss) =
    (if member s.image keep then pure tt else ignore (remove_fullstack_image app s.name s.image))
    >> remove_images app keep ss

unfoldable pub remove_history_images :
    DeploymentRecord → List Text → List DeploymentVersion → Io (Unit {0})
remove_history_images r keep [] = pure tt
remove_history_images r keep (version ∷ versions) =
    remove_images r.app keep (record_with_fallback version r).services
    >> remove_history_images r keep versions

-- The attachment goes only behind the containers; the metadata goes last, so that a deletion that has failed
-- can be tried again.
unfoldable pub forget_project : DeploymentRecord → Io (Unit {0})
forget_project r = do
  detach_mini_base_attachment r
  Environment.delete r.app
  Store.delete r.app
  sync_proxy_routes

unfoldable pub delete_fullstack_project : DeploymentRecord → Io (Unit {0})
delete_fullstack_project record_of_app = do
  let r = normalize_deployment_record record_of_app
  lift (validate_fullstack_active_resources r)
  path ← lift (managed_deployment_path r.app)
  lift (Environment.path r.app)
  versions ← History.list r.app
  validate_history r versions
  cleanup_fullstack_release r false
  run (remove_all path) move_source
  remove_history_images r (deployment_images r) versions
  ignore (History.clear r.app)
  remove_images r.app [] r.services
  forget_project r
