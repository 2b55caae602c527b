-- ===== src/Fullstack/Publish.antt =====
-- What the deployment, the redeployment and the rollback of a full-stack project share: app/fullstack_lifecycle.go
-- and deploymentImages of app/fullstack_runtime.go.
use mini_deploy.Prelude.{ℕ, Bool, some, List, [], ◌∷◌, map, keep_if, not, if◌then◌else◌}
use mini_deploy.Text.{Text, ◌==◌, is_empty, decimal}
use mini_deploy.Records.{DeploymentRecord}
use mini_deploy.Strategy
use mini_deploy.Store
use mini_deploy.Proxy.{sync_proxy_routes}
use mini_deploy.Fullstack.Resources.{cleanup_fullstack_release}
use mini_deploy.Fullstack.Release.Start.{start_and_verify_fullstack_release}
use mini_deploy.World.{Io, Environment, pure, lift, try, ignore, gets, ◌>>=◌, ◌>>◌}
use mini_deploy.World.Handle.{on_error, if_ok}

-- deploymentImages
unfoldable pub deployment_images : DeploymentRecord → List Text
unfolding ◌==◌
deployment_images r =
    if r.strategy == Strategy.fullstack_vite_node
    then keep_if (λ image. not (is_empty image)) (map (λ s. s.image) r.services)
    else if is_empty r.image
    then []
    else r.image ∷ []

-- The names of a release are those of the time of the clock.
abbrev pub release_stamp : Io Text
release_stamp = gets (λ w. decimal (w.host.now w.trace))

-- The start of a release: where it fails, what there is of the release goes again.
unfoldable pub start_or_clean_up : DeploymentRecord → Environment → Bool → Io DeploymentRecord
start_or_clean_up r environment remove_images = do
  started ← start_and_verify_fullstack_release r environment
  on_error (lift started.outcome) (ignore (cleanup_fullstack_release started.release remove_images))
  pure started.release

abbrev pub activated : ℕ → DeploymentRecord → DeploymentRecord
activated now r = record r { activated_at = some now }

-- What follows a failed synchronisation: the release in service is stored and served again.
unfoldable pub restore_release :
    DeploymentRecord → DeploymentRecord → Bool → Io (Unit {0}) → Io (Unit {0})
restore_release old candidate remove_images rollback = do
  restored ← try (Store.save old)
  if_ok restored (λ _. ignore sync_proxy_routes)
  rollback
  ignore (cleanup_fullstack_release candidate remove_images)
