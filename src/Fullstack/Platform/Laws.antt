-- ===== src/Fullstack/Platform/Laws.antt =====
-- The deployments of app/deploy.go, app/rollback.go and app/fullstack_lifecycle.go together: what is stored and
-- served where one of them returns without an error, whatever the strategy.
use mini_deploy.Prelude.{◌≡◌, Option, if◌then◌else◌}
use mini_deploy.Text.{Text, ◌==◌}
use mini_deploy.Records.{DeploymentRecord}
use mini_deploy.Result.{ok, database_detached}
use mini_deploy.Strategy
use mini_deploy.Config.{normalize_deployment_record}
use mini_deploy.Detect.Plan.{DeploymentConfig}
use mini_deploy.World.{World, fail, Environment}
use mini_deploy.World.Returns.{Returns, returned, Returns-fail, Returns-if, Returns-of}
use mini_deploy.World.Keeps.{Keeps-gets, Keeps-lift}
use mini_deploy.Lifecycle.Live.{Settled, Stored}
use mini_deploy.Lifecycle.Unchanged.{Unchanged, Unchanged-start, Returns-Unchanged}
use mini_deploy.Fullstack.Rollback.{rollback_fullstack}
use mini_deploy.Lifecycle.Deploy.{deploy_repository}
use mini_deploy.Lifecycle.Deploy.Success.{IsStoring, deploy_repository-Stored}
use mini_deploy.Lifecycle.Redeploy.{safe_redeploy}
use mini_deploy.Lifecycle.Redeploy.Success.{redeploy_single-Settled}
use mini_deploy.Lifecycle.Rollback.{rollback_deployment, rollback_single}
use mini_deploy.Lifecycle.Rollback.Success.{rollback_single-Settled}
use mini_deploy.Fullstack.Deploy.{deploy_fullstack_project}
use mini_deploy.Fullstack.Platform.{platform}
use mini_deploy.Fullstack.Settled.{
  deploy_fullstack_project-Settled, rollback_fullstack-Settled, safe_redeploy_fullstack-Settled,
}

platform-IsStoring : IsStoring platform
platform-IsStoring = record {
  deploys = λ app repo_url source project change attachments v w k. Returns-of _ _ w λ d e.
      let s =
        returned (Settled v)
          (deploy_fullstack_project app repo_url source project change attachments) w d
          (deploy_fullstack_project-Settled v app repo_url source project change attachments w k)
          e in
      record { records = s.records; parsed = s.stored; found = s.found };
}

-- A first deployment that returns a record without an error, also one of a full-stack project, has stored it as the
-- one of its application, whatever fails on the way. Where the application had a record before the deployment,
-- its visibility is that of this record; otherwise it is that of the record that is returned.
pub deploy_repository-platform-Stored :
    (repo_url : Text) (requested : DeploymentConfig) (environment : Environment)
    (database_id : Text) (w : World) (d : DeploymentRecord)
    → (deploy_repository platform repo_url requested environment database_id w).0 ≡ ok d
    → Stored w d (deploy_repository platform repo_url requested environment database_id w).1
deploy_repository-platform-Stored repo_url requested environment database_id w d e =
    returned (Stored w) (deploy_repository platform repo_url requested environment database_id) w d
      (deploy_repository-Stored platform platform-IsStoring w repo_url requested environment
        database_id w (Unchanged-start w))
      e

safe_redeploy-Returns :
    (r : DeploymentRecord) (replacement : Option Environment) (v w : World)
    → Unchanged v w
    → Returns (Settled v) (safe_redeploy platform r replacement) w
unfolding safe_redeploy
safe_redeploy-Returns r replacement v w k = Returns-if _ _ _ _ w (Returns-fail _ _ w) (
    Returns-Unchanged v _ _ _ w (Keeps-gets _) k λ parse w1 k1.
      Returns-Unchanged v _ _ _ w1 (Keeps-lift _) k1 λ _ w2 k2.
        Returns-if _ _ _ _ w2
          (safe_redeploy_fullstack-Settled v (normalize_deployment_record r) replacement w2 k2)
          (redeploy_single-Settled platform (normalize_deployment_record r) v replacement w2 k2))

-- A redeployment, of a single service or of a full-stack project, that returns a record without an error
-- leaves it in the file as the one of its application, and leaves Caddy serving the routes of the deployments
-- in the file, whatever fails in what follows the cutover. Where the application had a record before the
-- redeployment, its visibility is that of this record; otherwise it is that of the record that is returned.
pub safe_redeploy-platform-Settled :
    (r : DeploymentRecord) (replacement : Option Environment) (w : World) (d : DeploymentRecord)
    → (safe_redeploy platform r replacement w).0 ≡ ok d
    → Settled w d (safe_redeploy platform r replacement w).1
safe_redeploy-platform-Settled r replacement w d e =
    returned (Settled w) (safe_redeploy platform r replacement) w d
      (safe_redeploy-Returns r replacement w w (Unchanged-start w)) e

rollback_deployment-Returns :
    (r : DeploymentRecord) (v w : World)
    → Unchanged v w
    → Returns (Settled v) (rollback_deployment platform r) w
unfolding rollback_deployment
rollback_deployment-Returns r v w k =
    Returns-if _ ((normalize_deployment_record r).database_detached) (fail database_detached)
      (if (normalize_deployment_record r).strategy == Strategy.fullstack_vite_node
        then rollback_fullstack (normalize_deployment_record r)
        else rollback_single platform (normalize_deployment_record r))
      w (Returns-fail _ _ w)
      (Returns-if _ _ _ _ w (rollback_fullstack-Settled v (normalize_deployment_record r) w k)
        (rollback_single-Settled platform (normalize_deployment_record r) v w k))

-- A rollback, of a single service or of a full-stack project, that returns a record without an error leaves it
-- in the file as the one of its application, and leaves Caddy serving the routes of the deployments in the
-- file, whatever fails in what follows the switch. Where the application had a record before the rollback,
-- its visibility is that of this record; otherwise it is that of the record that is returned.
pub rollback_deployment-platform-Settled :
    (r : DeploymentRecord) (w : World) (d : DeploymentRecord)
    → (rollback_deployment platform r w).0 ≡ ok d
    → Settled w d (rollback_deployment platform r w).1
rollback_deployment-platform-Settled r w d e =
    returned (Settled w) (rollback_deployment platform r) w d
      (rollback_deployment-Returns r w w (Unchanged-start w)) e
