-- ===== src/Fullstack/Safety.antt =====
-- A redeployment and a rollback of app/deploy.go, app/rollback.go and app/fullstack_lifecycle.go that fail, whatever
-- the strategy: the release in service is not touched.
use mini_deploy.Prelude.{◌≡◌, refl, Option, keep_if}
use mini_deploy.Text.{codes, ◌==◌}
use mini_deploy.Records.{DeploymentRecord}
use mini_deploy.Result.{err, Error, database_detached}
use mini_deploy.Strategy
use mini_deploy.Config.{normalize_deployment_record}
use mini_deploy.World.{World, Environment, fail}
use mini_deploy.World.Keeps.{
  Keeps-fail, Keeps-gets, Keeps-lift, Safe, Safe-bind, Safe-if, Safe-Keeps,
}
use mini_deploy.Lifecycle.Keeps.{Spares, touches}
use mini_deploy.Lifecycle.Keeps.Database.{IsQuiet}
use mini_deploy.Lifecycle.Redeploy.{redeploy_single, safe_redeploy}
use mini_deploy.Lifecycle.Redeploy.Safety.{redeploy_single-Safe}
use mini_deploy.Lifecycle.Redeploy.Safety
use mini_deploy.Lifecycle.Rollback.{rollback_deployment, rollback_single}
use mini_deploy.Lifecycle.Rollback.Failure.{rollback_single-Safe}
use mini_deploy.Lifecycle.Rollback.Failure
use mini_deploy.Fullstack.Apart.Names.{IsFreshRelease}
use mini_deploy.Fullstack.Failure.{safe_redeploy_fullstack-Safe}
use mini_deploy.Fullstack.Failure.Rollback.{rollback_fullstack-Safe}
use mini_deploy.Fullstack.Platform.{platform}
use mini_deploy.Fullstack.Redeploy.{safe_redeploy_fullstack}
use mini_deploy.Fullstack.Rollback.{rollback_fullstack}

safe_redeploy-Safe :
    (r : DeploymentRecord) (replacement : Option Environment) (v : World)
    → IsQuiet (normalize_deployment_record r) v.host
    → Safety.IsFresh (normalize_deployment_record r) v.host
    → IsFreshRelease (normalize_deployment_record r) (codes "candidate") v.host
    → Safe (Spares (normalize_deployment_record r) v) (safe_redeploy platform r replacement)
unfolding safe_redeploy
safe_redeploy-Safe r replacement v q n m = Safe-if _ _ _ (Safe-Keeps _ (Keeps-fail _)) (
    Safe-bind _ _ (Keeps-gets _) λ parse. Safe-bind _ _ (Keeps-lift _) λ _.
      Safe-if ((normalize_deployment_record r).strategy == Strategy.fullstack_vite_node)
        (safe_redeploy_fullstack (normalize_deployment_record r) replacement)
        (redeploy_single platform (normalize_deployment_record r) replacement)
        (safe_redeploy_fullstack-Safe (normalize_deployment_record r) v q replacement m)
        (redeploy_single-Safe platform (normalize_deployment_record r) v q n replacement))

-- Where a redeployment fails, of a single service or of a full-stack project, at any step and whatever the host
-- answers, no command of it stops or removes a container, an image or the network of the release in service:
-- the commands that do are those from before it. The record counts in its normal form. The clock gives the
-- candidate and its migration other names than the release has.
pub safe_redeploy-platform-Spares :
    (r : DeploymentRecord) (replacement : Option Environment) (w : World) (e : Error)
    → IsQuiet (normalize_deployment_record r) w.host
    → Safety.IsFresh (normalize_deployment_record r) w.host
    → IsFreshRelease (normalize_deployment_record r) (codes "candidate") w.host
    → (safe_redeploy platform r replacement w).0 ≡ err e
    → keep_if
        (touches (normalize_deployment_record r))
        (safe_redeploy platform r replacement w).1.trace
      ≡ keep_if (touches (normalize_deployment_record r)) w.trace
safe_redeploy-platform-Spares r replacement w e q n m k =
    ((safe_redeploy-Safe r replacement w q n m).at w (record { host = refl; untouched = refl }) e
      k).untouched

rollback_deployment-Safe :
    (r : DeploymentRecord) (v : World)
    → IsQuiet (normalize_deployment_record r) v.host
    → Failure.IsFresh (normalize_deployment_record r) v.host
    → IsFreshRelease (normalize_deployment_record r) (codes "rollback") v.host
    → Safe (Spares (normalize_deployment_record r) v) (rollback_deployment platform r)
unfolding rollback_deployment
rollback_deployment-Safe r v q n m =
    Safe-if ((normalize_deployment_record r).database_detached) (fail database_detached) _
      (Safe-Keeps _ (Keeps-fail _))
      (Safe-if ((normalize_deployment_record r).strategy == Strategy.fullstack_vite_node)
        (rollback_fullstack (normalize_deployment_record r))
        (rollback_single platform (normalize_deployment_record r))
        (rollback_fullstack-Safe (normalize_deployment_record r) v q m)
        (rollback_single-Safe platform (normalize_deployment_record r) v q n))

-- Where a rollback fails, of a single service or of a full-stack project, at any step and whatever the host answers,
-- no command of it stops or removes a container, an image or the network of the release in service: the
-- commands that do are those from before it. The record counts in its normal form. The clock gives the
-- candidate and its migration other names than the release has.
pub rollback_deployment-platform-Spares :
    (r : DeploymentRecord) (w : World) (e : Error)
    → IsQuiet (normalize_deployment_record r) w.host
    → Failure.IsFresh (normalize_deployment_record r) w.host
    → IsFreshRelease (normalize_deployment_record r) (codes "rollback") w.host
    → (rollback_deployment platform r w).0 ≡ err e
    → keep_if (touches (normalize_deployment_record r)) (rollback_deployment platform r w).1.trace
      ≡ keep_if (touches (normalize_deployment_record r)) w.trace
rollback_deployment-platform-Spares r w e q n m k =
    ((rollback_deployment-Safe r w q n m).at w (record { host = refl; untouched = refl }) e
      k).untouched
