-- ===== src/Fullstack/Platform.antt =====
-- The full-stack project as the platform of the other deployments.
pub mod Laws
use mini_deploy.Lifecycle.Platform.{Platform}
use mini_deploy.Fullstack.Deploy.{deploy_fullstack_project}
use mini_deploy.Fullstack.Redeploy.{safe_redeploy_fullstack}
use mini_deploy.Fullstack.Rollback.{rollback_fullstack}

abbrev pub platform : Platform
platform = record {
  deploy_fullstack = deploy_fullstack_project;
  redeploy_fullstack = safe_redeploy_fullstack;
  rollback_fullstack = rollback_fullstack;
}
