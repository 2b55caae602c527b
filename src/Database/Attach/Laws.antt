-- ===== src/Database/Attach/Laws.antt =====
-- attachDatabaseToDeployment of app/minibase_lifecycle.go, where it returns without an error.
use mini_deploy.Prelude.{◌≡◌, refl, none, not}
use mini_deploy.Text.{Text}
use mini_deploy.Records.{DatabaseAttachmentRecord, DeploymentRecord}
use mini_deploy.Result.{Result, ok, err, lifecycle_not_detached, lifecycle_unsupported}
use mini_deploy.World.{World, fail}
use mini_deploy.World.Returns.{
  Returns, returned, Returns-bind, Returns-fail, Returns-if, Returns-of, Returns-on_error,
  Returns-pure, Returns-then, Returns-try,
}
use mini_deploy.Lifecycle.Carries.{
  Attached, Carries, Settled-Attached, Unchanged-Carries, save-Carries,
}
use mini_deploy.Lifecycle.Live.{Settled, Returns-Settled, Returns-saved_and_synced}
use mini_deploy.Lifecycle.Redeploy.{safe_redeploy}
use mini_deploy.Lifecycle.Unchanged.{Unchanged, Unchanged-start, Returns-Unchanged}
use mini_deploy.Lifecycle.Unchanged.Containers.{on_error-Unchanged}
use mini_deploy.Fullstack.Platform.{platform}
use mini_deploy.Fullstack.Platform.Laws.{safe_redeploy-platform-Settled}
use mini_deploy.Database.{deployment_supports_mini_base}
use mini_deploy.Database.Attach.{
  ended, attach_while_running, attach_and_redeploy, attach_database_to_running_deployment,
  restart_with_database, attach_database_to_detached_deployment, attach_database_to_deployment,
}
use mini_deploy.Database.Unchanged.{
  attach_available-Unchanged, check_unattached-Unchanged, forget-Unchanged,
  get_deployment-Unchanged, start_attached-Unchanged, status-Unchanged,
}

module _ (v : World) where
  -- A redeployment behind what kept the visibilities.
  pub redeployed-Attached :
      (attached : DeploymentRecord) (w : World)
      → Carries v w
      → Returns (Attached v) (safe_redeploy platform attached none) w
  redeployed-Attached attached w c =
      Returns-of _ (safe_redeploy platform attached none) w
        λ d e. Settled-Attached v w d _ c (safe_redeploy-platform-Settled attached none w d e)

  ended-Attached :
      (latest attached : DeploymentRecord) (id : Text) (r : Result DeploymentRecord) (w : World)
      → ((d : DeploymentRecord) → r ≡ ok d → Attached v d w)
      → Returns (Attached v) (ended latest attached id r) w
  ended-Attached latest attached id (ok d) w k = Returns-pure _ d w (k d refl)
  ended-Attached latest attached id (err e) w k = Returns-then _ _ _ w λ _ w1. Returns-fail _ _ w1

  attach_and_redeploy-Attached :
      (latest : DeploymentRecord) (a : DatabaseAttachmentRecord) (w : World)
      → Unchanged v w
      → Returns (Attached v) (attach_and_redeploy latest a) w
  unfolding attach_and_redeploy
  attach_and_redeploy-Attached latest a w k =
      Returns-bind (λ _. Carries v) _ _ _ w (Returns-on_error _ _ _ w (save-Carries v _ w k))
        λ _ w1 c.
          Returns-bind (λ r u. (d : DeploymentRecord) → r ≡ ok d → Attached v d u) _ _ _ w1
            (Returns-try _ _ w1 (redeployed-Attached _ w1 c))
            λ r w2 h. ended-Attached latest _ a.attachment_id r w2 h

  attach_while_running-Attached :
      (latest : DeploymentRecord) (database_id : Text) (w : World)
      → Unchanged v w
      → Returns (Attached v) (attach_while_running latest database_id) w
  unfolding attach_while_running
  attach_while_running-Attached latest database_id w k =
      Returns-Unchanged v _ _ _ w (status-Unchanged v latest) k λ status w1 k1.
        Returns-if _ _ _ _ w1 (Returns-fail _ _ w1) (
          Returns-Unchanged v _ _ _ w1 (check_unattached-Unchanged v latest) k1 λ _ w2 k2.
            Returns-Unchanged v _ _ _ w2 (attach_available-Unchanged v latest.app database_id) k2
              λ a w3 k3. attach_and_redeploy-Attached latest a w3 k3)

  running-Attached :
      (app database_id : Text) (w : World)
      → Unchanged v w
      → Returns (Attached v) (attach_database_to_running_deployment app database_id) w
  unfolding attach_database_to_running_deployment
  running-Attached app database_id w k =
      Returns-Unchanged v _ _ _ w (get_deployment-Unchanged v app) k λ latest w1 k1.
        Returns-if _ (not (deployment_supports_mini_base latest)) (fail lifecycle_unsupported) _ w1
          (Returns-fail _ _ w1)
          (Returns-if _ latest.database_detached (fail lifecycle_not_detached) _ w1
            (Returns-fail _ _ w1) (attach_while_running-Attached latest database_id w1 k1))

  restart_with_database-Settled :
      (latest : DeploymentRecord) (a : DatabaseAttachmentRecord) (w : World)
      → Unchanged v w
      → Returns (Settled v) (restart_with_database latest a) w
  unfolding restart_with_database
  restart_with_database-Settled latest a w k =
      Returns-Unchanged v _ _ _ w
        (on_error-Unchanged v _ _ (start_attached-Unchanged v _)
          (forget-Unchanged v a.attachment_id))
        k λ started w1 k1. Returns-Settled v _ w1 (Returns-saved_and_synced v started _ _ w1 k1)

  detached-Attached :
      (app database_id : Text) (w : World)
      → Unchanged v w
      → Returns (Attached v) (attach_database_to_detached_deployment app database_id) w
  unfolding attach_database_to_detached_deployment
  detached-Attached app database_id w k =
      Returns-Unchanged v _ _ _ w (get_deployment-Unchanged v app) k λ latest w1 k1.
        Returns-if _ (not (deployment_supports_mini_base latest)) (fail lifecycle_unsupported) _ w1
          (Returns-fail _ _ w1)
          (Returns-if _ (not latest.database_detached) (fail lifecycle_not_detached) _ w1
            (Returns-fail _ _ w1)
            (Returns-Unchanged v _ _ _ w1 (check_unattached-Unchanged v latest) k1 λ _ w2 k2.
              Returns-Unchanged v _ _ _ w2 (attach_available-Unchanged v latest.app database_id) k2
                λ a w3 k3. Returns-of _ (restart_with_database latest a) w3 λ d e.
                  Settled-Attached v v d _ (Unchanged-Carries v v (Unchanged-start v))
                    (returned (Settled v) _ w3 d (restart_with_database-Settled latest a w3 k3) e)))

  attach-Returns :
      (app database_id : Text) (w : World)
      → Unchanged v w
      → Returns (Attached v) (attach_database_to_deployment app database_id) w
  unfolding attach_database_to_deployment
  attach-Returns app database_id w k =
      Returns-Unchanged v _ _ _ w (get_deployment-Unchanged v app) k λ latest w1 k1.
        Returns-if _ _ _ _ w1 (detached-Attached app database_id w1 k1)
          (running-Attached app database_id w1 k1)

-- A database that is attached without an error, to a running or a detached deployment: the record that is
-- returned is in the file as the one of its application, with the visibility that the application had before,
-- if it had a record, and Caddy serves the routes of the deployments in the file.
pub attach_database_to_deployment-Attached :
    (app database_id : Text) (w : World) (d : DeploymentRecord)
    → (attach_database_to_deployment app database_id w).0 ≡ ok d
    → Attached w d (attach_database_to_deployment app database_id w).1
attach_database_to_deployment-Attached app database_id w d e =
    returned (Attached w) (attach_database_to_deployment app database_id) w d
      (attach-Returns w app database_id w (Unchanged-start w)) e
