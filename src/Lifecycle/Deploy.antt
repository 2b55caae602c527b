-- ===== src/Lifecycle/Deploy.antt =====
-- deployRepository of app/deploy.go: the first deployment of a repository. The deploy mutex is held
-- throughout, so it is one action.
pub mod Success
use mini_deploy.Prelude.{
  ℕ, ℤ, Bool, true, false, not, Option, none, some, List, [], ◌∷◌, ◌++◌, if◌then◌else◌,
}
use mini_deploy.Text.{Text, codes, ◌==◌, is_empty}
use mini_deploy.Records.{
  DatabaseAttachmentRecord, DeploymentRecord, DeploymentSourceRecord, zero_record,
}
use mini_deploy.Result.{
  Result, ok, err, Error, database_conflict, invalid_database_id, invalid_repository_name,
  move_source, deployment_not_found,
}
use mini_deploy.RepositoryUrl.{validate_repository_url}
use mini_deploy.Strategy
use mini_deploy.Config.{validate_deployment_config, validate_requested_deployment_config}
use mini_deploy.Path.{FilePath, repo_name, managed_deployment_path}
use mini_deploy.Environment
use mini_deploy.Environment.{RuntimeEnvironmentChange, prepare_runtime_environment_change}
use mini_deploy.Environment.Format.{runtime_environment_names}
use mini_deploy.Store
use mini_deploy.Proxy.{sync_proxy_routes}
use mini_deploy.Docker.{
  find_deploy_port, inspect_built_image_id, start_managed_deployment_container,
  verify_container_startup, verify_http_health_path,
}
use mini_deploy.Detect.Plan.{BuildPlan, DeploymentConfig, ProjectPlan}
use mini_deploy.Source.{inspect_deployment_source}
use mini_deploy.Build.{build_deployment_image, detect_strategy}
use mini_deploy.MiniBase.{matches_database_id}
use mini_deploy.Database.{
  DatabaseRuntime, create_initial_mini_base_attachment, delete_initial_mini_base_attachment,
  has_database_url, resolve_database_runtime,
}
use mini_deploy.Database.Migration.{run_reactor_lab_migration}
use mini_deploy.Lifecycle.Platform.{Platform}
use mini_deploy.Lifecycle.Retire.{remove_image}
use mini_deploy.Lifecycle.Redeploy.{Candidate, candidate_image, cleanup_candidate, reject_candidate}
use mini_deploy.World.{
  World, Io, Environment, Event.git_clone, Event.make_deployments_dir, Event.remove_all, run, pure,
  fail, lift, try, ignore, gets, ◌>>=◌, ◌>>◌,
}
use mini_deploy.World.Handle.{on_error}

-- The checks of a database that is requested with a deployment.
unfoldable pub validate_database_request : Text → Environment → Result (Unit {0})
validate_database_request database_id environment =
    if is_empty database_id
    then ok tt
    else if not (matches_database_id database_id)
    then err invalid_database_id
    else if has_database_url environment
    then err database_conflict
    else ok tt

-- How an attempt with a new attachment ends, apart from an error behind which the attachment is deleted: with
-- a record, or with an error behind which it is retained for recovery (cleanupInitialAttachment = false).
pub data Attempt : Type 0 where
  deployed : DeploymentRecord → Attempt
  retained : Error → Attempt

-- initialAttachmentMetadataRequiresRecovery
abbrev may_be_stored : Result DeploymentRecord → Bool
may_be_stored (err deployment_not_found) = false
may_be_stored _ = true

unfoldable pub requires_recovery : Option DatabaseAttachmentRecord → Text → Io Bool
requires_recovery none app = pure false
requires_recovery (some attachment) app = do found ← try (Store.get app); pure (may_be_stored found)

abbrev attachments_of : Option DatabaseAttachmentRecord → List DatabaseAttachmentRecord
attachments_of none = []
attachments_of (some attachment) = attachment ∷ []

abbrev pub initial_container : Text → Text
initial_container app = codes "minideploy-" ++ app

-- The record of a deployment that is not active yet.
abbrev pub initial_record :
    Text
    → Text
    → DeploymentSourceRecord
    → BuildPlan
    → RuntimeEnvironmentChange
    → Option DatabaseAttachmentRecord
    → Candidate
    → Text
    → ℤ
    → DeploymentRecord
initial_record app repo_url source plan change attachment c id port = record zero_record {
  app = app;
  repo_url = repo_url;
  container = c.container;
  image = c.image;
  image_id = id;
  port = port;
  container_port = plan.container_port;
  health_path = plan.health_path;
  strategy = plan.strategy;
  package_manager = plan.package_manager;
  package_install_mode = plan.package_install_mode;
  reactor_lab_migration = plan.reactor_lab_migration;
  source = some source;
  guest_visible = false;
  environment_variables = runtime_environment_names change.effective;
  database_attachments = attachments_of attachment;
}

-- The database runtime of an attachment, behind its migration.
unfoldable pub initial_runtime :
    Option DatabaseAttachmentRecord → DeploymentRecord → Environment → Io DatabaseRuntime
initial_runtime none r environment = pure (record { environment = environment; data_network = [] })
initial_runtime (some attachment) r environment = do
  runtime ← resolve_database_runtime r environment
  run_reactor_lab_migration r.app r.image r.package_manager r.reactor_lab_migration runtime
  pure runtime

-- From the build to the health check.
unfoldable pub start_initial :
    Text
    → Text
    → DeploymentSourceRecord
    → BuildPlan
    → RuntimeEnvironmentChange
    → Option DatabaseAttachmentRecord
    → Candidate
    → Io DeploymentRecord
start_initial app repo_url source plan change attachment c = do
  lift (validate_deployment_config plan.container_port plan.health_path)
  build_deployment_image c.path c.image plan
  id ← on_error (inspect_built_image_id c.image) (remove_image c.image)
  port ← find_deploy_port
  let r = initial_record app repo_url source plan change attachment c id port
  runtime ← initial_runtime attachment r change.effective
  start_managed_deployment_container app c.container c.image port plan.container_port plan.strategy
      runtime.environment runtime.data_network
  on_error (verify_container_startup c.container) (reject_candidate c)
  on_error (verify_http_health_path port plan.health_path) (reject_candidate c)
  pure r

-- The environment and the metadata are saved, or neither is.
unfoldable pub activate :
    RuntimeEnvironmentChange
    → Candidate
    → DeploymentRecord
    → Io (RuntimeEnvironmentChange × DeploymentRecord)
activate change c r = do
  committed ← on_error (Environment.commit change) (cleanup_candidate c)
  now ← gets (λ w. w.host.now w.trace)
  let new = record r { activated_at = some now }
  on_error (Store.save new) (ignore (Environment.rollback committed) >> cleanup_candidate c)
  pure (committed, new)

-- What follows a failed synchronisation of the proxy, by whether the metadata could be deleted.
unfoldable pub undo_publish :
    RuntimeEnvironmentChange → Candidate → Error → Result (Unit {0}) → Io Attempt
undo_publish committed c e (err e') = pure (retained e)
undo_publish committed c e (ok _) = do
  ignore sync_proxy_routes
  ignore (Environment.rollback committed)
  cleanup_candidate c
  ignore (run (remove_all c.path) move_source)
  fail e

abbrev published :
    RuntimeEnvironmentChange → Candidate → DeploymentRecord → Result (Unit {0}) → Io Attempt
published committed c new (ok _) = pure (deployed new)
published committed c new (err e) = try (Store.delete new.app) >>= undo_publish committed c e

-- Only a deployment with a new attachment synchronises the proxy itself.
unfoldable pub publish :
    Option DatabaseAttachmentRecord
    → Candidate
    → RuntimeEnvironmentChange × DeploymentRecord
    → Io Attempt
publish none c (committed, new) = pure (deployed new)
publish (some attachment) c (committed, new) = try sync_proxy_routes >>= published committed c new

abbrev end_fullstack :
    Option DatabaseAttachmentRecord → Text → FilePath → Result DeploymentRecord → Io Attempt
end_fullstack attachment app path (ok r) = pure (deployed r)
end_fullstack attachment app path (err e) = do
  recovery ← requires_recovery attachment app
  ignore (run (remove_all path) move_source)
  if recovery then pure (retained e) else fail e

-- The deferred call: behind an error the new attachment is deleted, unless it is retained.
unfoldable pub settle : Option DatabaseAttachmentRecord → Result Attempt → Io DeploymentRecord
settle attachment (ok (deployed r)) = pure r
settle attachment (ok (retained e)) = fail e
settle none (err e) = fail e
settle (some attachment) (err e) = ignore (delete_initial_mini_base_attachment attachment) >> fail e

-- Error git_clone is that of the clone; the errors of the directory count as those of moving a source.
unfoldable pub check_out : Text → FilePath → Io DeploymentSourceRecord
check_out repo_url path = do
  run make_deployments_dir move_source
  run (remove_all path) move_source
  run (git_clone repo_url path) Error.git_clone
  inspect_deployment_source path repo_url

module _ (p : Platform) where
  unfoldable pub attempt :
      Text
      → Text
      → DeploymentSourceRecord
      → ProjectPlan
      → RuntimeEnvironmentChange
      → Option DatabaseAttachmentRecord
      → Candidate
      → Io Attempt
  unfolding ◌==◌
  attempt app repo_url source project change attachment c =
      if project.build.strategy == Strategy.fullstack_vite_node
      then try (p.deploy_fullstack app repo_url source project change (attachments_of attachment))
        >>= end_fullstack attachment app c.path
      else do
        r ← start_initial app repo_url source project.build change attachment c
        active ← activate change c r
        publish attachment c active

  unfoldable pub deploy_application :
      Text → Text → DeploymentConfig → Environment → Text → Io DeploymentRecord
  deploy_application app repo_url requested environment database_id = do
    change ← prepare_runtime_environment_change app environment true
    path ← lift (managed_deployment_path app)
    stamp ← gets (λ w. w.host.now w.trace)
    let c : Candidate = record {
      container = initial_container app;
      image = candidate_image app stamp;
      path = path;
      current_path = path;
    }
    source ← check_out repo_url path
    project ← detect_strategy path requested
    attachment ← create_initial_mini_base_attachment app database_id project
    ended ← try (attempt app repo_url source project change attachment c)
    settle attachment ended

  unfoldable pub deploy_repository :
      Text → DeploymentConfig → Environment → Text → Io DeploymentRecord
  deploy_repository repo_url requested environment database_id = do
    parse ← gets (λ w. w.host.parse_url)
    lift (validate_repository_url parse repo_url)
    lift (validate_requested_deployment_config requested.container_port requested.health_path)
    lift (validate_database_request database_id environment)
    beyond ← gets (λ w. w.host.lower_beyond)
    let app = repo_name beyond repo_url
    if is_empty app
        then fail invalid_repository_name
        else deploy_application app repo_url requested environment database_id
