-- ===== src/Fullstack/Deploy.antt =====
-- deployFullstackProject of app/fullstack_lifecycle.go.
use mini_deploy.Prelude.{true, some, List}
use mini_deploy.Text.{Text, codes}
use mini_deploy.Records.{DatabaseAttachmentRecord, DeploymentRecord, DeploymentSourceRecord}
use mini_deploy.Environment
use mini_deploy.Environment.{
  RuntimeEnvironmentChange, prepare_runtime_environment_change, verify_runtime_environment_metadata,
}
use mini_deploy.Store
use mini_deploy.Proxy.{sync_proxy_routes}
use mini_deploy.Detect.Plan.{ProjectPlan}
use mini_deploy.Fullstack.Resources.{cleanup_fullstack_release}
use mini_deploy.Fullstack.Release.{new_fullstack_release_record}
use mini_deploy.Fullstack.Release.Images.{build_fullstack_release}
use mini_deploy.World.{Io, pure, lift, try, ignore, gets, ◌>>=◌, ◌>>◌}
use mini_deploy.World.Handle.{on_error, if_ok}
use mini_deploy.Fullstack.Publish.{release_stamp, start_or_clean_up, activated}

-- What follows a failed synchronisation: the record goes, then the routes without it are served.
unfoldable pub withdraw_deployment : RuntimeEnvironmentChange → DeploymentRecord → Io (Unit {0})
withdraw_deployment committed new = do
  deleted ← try (Store.delete new.app)
  if_ok deleted (λ _. ignore sync_proxy_routes)
  ignore (Environment.rollback committed)
  ignore (cleanup_fullstack_release new true)

-- The environment, the metadata and the route of a healthy first release.
unfoldable pub publish_release : RuntimeEnvironmentChange → DeploymentRecord → Io DeploymentRecord
publish_release change r = do
  committed ← on_error (Environment.commit change) (ignore (cleanup_fullstack_release r true))
  now ← gets (λ w. w.host.now w.trace)
  let new = activated now r
  on_error (Store.save new)
      (ignore (Environment.rollback committed) >> ignore (cleanup_fullstack_release new true))
  on_error sync_proxy_routes (withdraw_deployment committed new)
  pure new

unfoldable pub deploy_fullstack_project :
    Text
    → Text
    → DeploymentSourceRecord
    → ProjectPlan
    → RuntimeEnvironmentChange
    → List DatabaseAttachmentRecord
    → Io DeploymentRecord
deploy_fullstack_project app repo_url source plan change attachments = do
  release ← release_stamp
  r ←
      lift
        (new_fullstack_release_record app repo_url plan release (codes "release") change.effective)
  built ←
      build_fullstack_release
        (record r { source = some source; database_attachments = attachments }) plan
  started ← start_or_clean_up built change.effective true
  publish_release change started
