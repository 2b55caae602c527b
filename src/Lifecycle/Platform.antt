-- ===== src/Lifecycle/Platform.antt =====
-- What a deployment, a redeployment and a rollback take from the part of the program that is not modelled:
-- full-stack projects. app/deploy.go and app/rollback.go call it in these places.
use mini_deploy.Prelude.{Option, List}
use mini_deploy.Text.{Text}
use mini_deploy.Detect.Plan.{ProjectPlan}
use mini_deploy.Environment.{RuntimeEnvironmentChange}
use mini_deploy.Records.{DatabaseAttachmentRecord, DeploymentRecord, DeploymentSourceRecord}
use mini_deploy.World.{Io, Environment}

pub record Platform : Type 0 where
  -- deployFullstackProject: the application, the URL, the source, the plan, the change of the environment and
  -- the attachments
  pub deploy_fullstack :
      Text
      → Text
      → DeploymentSourceRecord
      → ProjectPlan
      → RuntimeEnvironmentChange
      → List DatabaseAttachmentRecord
      → Io DeploymentRecord
  -- safeRedeployFullstackLocked and rollbackFullstackLocked
  pub redeploy_fullstack : DeploymentRecord → Option Environment → Io DeploymentRecord
  pub rollback_fullstack : DeploymentRecord → Io DeploymentRecord
