-- ===== src/Fullstack/Redeploy.antt =====
-- safeRedeployFullstackLocked of app/fullstack_lifecycle.go. The deploy mutex is held throughout.
use mini_deploy.Prelude.{true, false, Option, some, ◌++◌, if◌then◌else◌}
use mini_deploy.Text.{Text, codes}
use mini_deploy.Records.{DeploymentRecord}
use mini_deploy.Result.{ok, Error, move_source}
use mini_deploy.Path.{FilePath, managed_deployment_path}
use mini_deploy.Environment
use mini_deploy.Environment.{
  RuntimeEnvironmentChange, prepare_runtime_environment_change, verify_runtime_environment_metadata,
}
use mini_deploy.Store
use mini_deploy.History
use mini_deploy.History.{deployment_version, record_with_fallback}
use mini_deploy.Proxy.{sync_proxy_routes}
use mini_deploy.Database.{validate_managed_database_environment}
use mini_deploy.Detect.Project.{persisted_fullstack_build_plan}
use mini_deploy.Source.{inspect_deployment_source}
use mini_deploy.Fullstack.{validate_fullstack_active_resources}
use mini_deploy.Fullstack.Resources.{cleanup_fullstack_release}
use mini_deploy.Fullstack.Release.{new_fullstack_release_record}
use mini_deploy.Fullstack.Release.Images.{build_fullstack_release}
use mini_deploy.Lifecycle.Redeploy.{replacement_of, replaces}
use mini_deploy.Lifecycle.Retire.{remove_pruned_history_images, replace_deployment_source}
use mini_deploy.World.{
  Io, Environment, Event.git_clone, Event.remove_all, run, pure, lift, try, ignore, gets, ◌>>=◌,
  ◌>>◌,
}
use mini_deploy.World.Handle.{on_error, if_ok, finally}
use mini_deploy.Fullstack.Publish.{
  deployment_images, release_stamp, start_or_clean_up, activated, restore_release,
}

-- From the clone to the healthy candidate.
unfoldable pub build_fullstack_candidate :
    DeploymentRecord → Environment → Text → FilePath → Io DeploymentRecord
build_fullstack_candidate old environment release path = do
  run (git_clone old.repo_url path) Error.git_clone
  source ← inspect_deployment_source path old.repo_url
  disk ← gets (λ w. w.host.disk w.trace)
  beyond ← gets (λ w. w.host.lower_beyond)
  plan ← lift (persisted_fullstack_build_plan beyond disk old path)
  r ← lift (
      new_fullstack_release_record old.app old.repo_url plan release (codes "candidate")
        environment)
  built ← build_fullstack_release r plan
  start_or_clean_up
      (record built {
        source = some source;
        database_attachments = old.database_attachments;
        guest_visible = old.guest_visible;
      })
      environment true

unfoldable pub cut_over_fullstack :
    DeploymentRecord → RuntimeEnvironmentChange → DeploymentRecord → Io DeploymentRecord
cut_over_fullstack old change candidate = do
  committed ←
      on_error (Environment.commit change) (ignore (cleanup_fullstack_release candidate true))
  now ← gets (λ w. w.host.now w.trace)
  let new = activated now candidate
  on_error (Store.save new)
      (ignore (Environment.rollback committed) >> ignore (cleanup_fullstack_release new true))
  on_error sync_proxy_routes
      (restore_release old new true (ignore (Environment.rollback committed)))
  pure new

-- The source of the candidate becomes that of the application, where it has a path.
unfoldable pub replace_source : DeploymentRecord → FilePath → Io (Unit {0})
replace_source old path = do
  current ← try (lift (managed_deployment_path old.app))
  if_ok current (λ current. ignore (replace_deployment_source current path))

-- No failure here is returned.
unfoldable pub retire_fullstack : DeploymentRecord → DeploymentRecord → FilePath → Io (Unit {0})
retire_fullstack old new path = do
  pushed ← try (History.push old)
  if_ok pushed (remove_pruned_history_images (deployment_images new))
  replace_source old path
  ignore (cleanup_fullstack_release old false)

unfoldable pub release_fullstack :
    DeploymentRecord → RuntimeEnvironmentChange → Text → FilePath → Io DeploymentRecord
release_fullstack old change release path = do
  candidate ← build_fullstack_candidate old change.effective release path
  new ← cut_over_fullstack old change candidate
  retire_fullstack old new path
  pure new

unfoldable pub safe_redeploy_fullstack : DeploymentRecord → Option Environment → Io DeploymentRecord
safe_redeploy_fullstack old replacement = do
  lift (validate_fullstack_active_resources old)
  change ←
      prepare_runtime_environment_change old.app (replacement_of replacement) (replaces replacement)
  lift (validate_managed_database_environment old change.effective)
  lift (
      if replaces replacement
      then ok tt
      else verify_runtime_environment_metadata old change.effective)
  release ← release_stamp
  path ← lift (managed_deployment_path (old.app ++ codes "-candidate-" ++ release))
  finally (release_fullstack old change release path) (ignore (run (remove_all path) move_source))
