-- ===== src/Lifecycle/Redeploy.antt =====
-- safeRedeploy of app/deploy.go. The deploy mutex is held throughout, so a redeployment is one action.
pub mod Failure
pub mod Safety
pub mod Cutover
pub mod Success
use mini_deploy.Prelude.{
  ℕ, ℤ, Bool, true, false, not, Option, none, some, List, [], ◌∷◌, ◌++◌, if◌then◌else◌,
}
use mini_deploy.Text.{Text, codes, ◌==◌, decimal}
use mini_deploy.Records.{DeploymentRecord, DeploymentSourceRecord}
use mini_deploy.Result.{
  Result, ok, err, Error, database_detached, git_clone, no_available_port, move_source,
  start_container,
}
use mini_deploy.RepositoryUrl.{validate_repository_url}
use mini_deploy.Strategy
use mini_deploy.Config.{normalize_deployment_record}
use mini_deploy.Path.{FilePath, managed_deployment_path}
use mini_deploy.Environment
use mini_deploy.Environment.{
  RuntimeEnvironmentChange, prepare_runtime_environment_change, verify_runtime_environment_metadata,
}
use mini_deploy.Environment.Format.{runtime_environment_names}
use mini_deploy.Store
use mini_deploy.History
use mini_deploy.Proxy.{sync_proxy_routes}
use mini_deploy.Docker.{
  find_deploy_port, inspect_built_image_id, start_managed_deployment_container,
  verify_container_startup, verify_http_health_path, remove_container,
}
use mini_deploy.Lifecycle.Platform.{Platform}
use mini_deploy.Database.{
  DatabaseRuntime, resolve_database_runtime, validate_managed_database_environment,
}
use mini_deploy.Database.Migration.{run_reactor_lab_migration}
use mini_deploy.Detect.Plan.{BuildPlan, ProjectPlan}
use mini_deploy.Source.{inspect_deployment_source}
use mini_deploy.Build.{build_deployment_image, strategy_for_record}
use mini_deploy.World.Handle.{on_error, if_ok, finally}
use mini_deploy.Lifecycle.Retire.{
  remove_image, remove_pruned_history_images, replace_deployment_source, retire_container,
}
use mini_deploy.World.{
  World, Io, Environment, Event.git_clone, Event.remove_all, Event.container_logs, run, pure, fail,
  lift, try, ignore, gets, ◌>>=◌, ◌>>◌,
}

-- The names of one candidate, by the time of the clock.
pub record Candidate : Type 0 where
  pub container : Text
  pub image : Text
  pub path : FilePath
  pub current_path : FilePath

abbrev pub candidate_container : Text → ℕ → Text
candidate_container app stamp = codes "minideploy-" ++ app ++ codes "-candidate-" ++ decimal stamp

abbrev pub candidate_image : Text → ℕ → Text
candidate_image app stamp = codes "minideploy-" ++ app ++ codes ":" ++ decimal stamp

unfoldable pub name_candidate : Text → Io Candidate
name_candidate app = do
  stamp ← gets (λ w. w.host.now w.trace)
  current ← lift (managed_deployment_path app)
  path ← lift (managed_deployment_path (app ++ codes "-candidate-" ++ decimal stamp))
  pure (record {
    container = candidate_container app stamp;
    image = candidate_image app stamp;
    path = path;
    current_path = current;
  })

-- What a built and healthy candidate is made of.
pub record Healthy : Type 0 where
  pub plan : BuildPlan
  pub source : DeploymentSourceRecord
  pub image_id : Text
  pub port : ℤ

-- cleanupCandidate(true)
unfoldable pub cleanup_candidate : Candidate → Io (Unit {0})
cleanup_candidate c = remove_container c.container >> remove_image c.image

-- The logs of a candidate that failed a check are read for the error, and it is removed.
unfoldable pub reject_candidate : Candidate → Io (Unit {0})
reject_candidate c =
    ignore (run (container_logs c.container) start_container) >> cleanup_candidate c

-- The replacement of a runtime environment that a caller may give.
abbrev pub replacement_of : Option Environment → Environment
replacement_of none = []
replacement_of (some environment) = environment

abbrev pub replaces : Option Environment → Bool
replaces none = false
replaces (some environment) = true

module _ (p : Platform) where
  abbrev runtime_record : DeploymentRecord → BuildPlan → DeploymentRecord
  runtime_record old plan = record old {
    strategy = plan.strategy;
    container_port = plan.container_port;
    health_path = plan.health_path;
    package_manager = plan.package_manager;
    reactor_lab_migration = plan.reactor_lab_migration;
  }

  -- From the clone to the health check. The release in service is not touched.
  unfoldable pub build_candidate : DeploymentRecord → Environment → Candidate → Io Healthy
  build_candidate old environment c = do
    run (git_clone old.repo_url c.path) Error.git_clone
    source ← inspect_deployment_source c.path old.repo_url
    project ← strategy_for_record old c.path
    let plan = project.build
    build_deployment_image c.path c.image plan
    id ← on_error (inspect_built_image_id c.image) (remove_image c.image)
    runtime ←
        on_error (resolve_database_runtime (runtime_record old plan) environment)
          (remove_image c.image)
    on_error
        (run_reactor_lab_migration old.app c.image plan.package_manager plan.reactor_lab_migration
          runtime)
        (remove_image c.image)
    port ← on_error find_deploy_port (remove_image c.image)
    on_error
        (start_managed_deployment_container old.app c.container c.image port plan.container_port
          plan.strategy runtime.environment runtime.data_network)
        (remove_image c.image)
    on_error (verify_container_startup c.container) (reject_candidate c)
    on_error (verify_http_health_path port plan.health_path) (reject_candidate c)
    pure (record { plan = plan; source = source; image_id = id; port = port })

  abbrev pub candidate_record :
      DeploymentRecord → Environment → Candidate → Healthy → ℕ → DeploymentRecord
  candidate_record old environment c h now = record old {
    container = c.container;
    image = c.image;
    image_id = h.image_id;
    port = h.port;
    container_port = h.plan.container_port;
    health_path = h.plan.health_path;
    strategy = h.plan.strategy;
    package_manager = h.plan.package_manager;
    package_install_mode = h.plan.package_install_mode;
    reactor_lab_migration = h.plan.reactor_lab_migration;
    source = some h.source;
    environment_variables = runtime_environment_names environment;
    activated_at = some now;
  }

  -- Save(old) and, if that succeeds, another synchronisation; then the environment and the candidate.
  unfoldable pub restore_old :
      DeploymentRecord → RuntimeEnvironmentChange → Candidate → Io (Unit {0})
  restore_old old change c = do
    restored ← try (Store.save old)
    if_ok restored (λ _. ignore sync_proxy_routes)
    ignore (Environment.rollback change)
    cleanup_candidate c

  -- The environment, the metadata and then the proxy change over to the candidate, or nothing does.
  unfoldable pub cut_over :
      DeploymentRecord → RuntimeEnvironmentChange → Candidate → Healthy → Io DeploymentRecord
  cut_over old change c h = do
    committed ← on_error (Environment.commit change) (cleanup_candidate c)
    now ← gets (λ w. w.host.now w.trace)
    let new = candidate_record old change.effective c h now
    on_error (Store.save new) (ignore (Environment.rollback committed) >> cleanup_candidate c)
    on_error sync_proxy_routes (restore_old old committed c)
    pure new

  -- The old release goes into the history, and its container away. No failure here is returned.
  unfoldable pub retire : DeploymentRecord → Candidate → Io (Unit {0})
  retire old c = do
    pushed ← try (History.push old)
    if_ok pushed (remove_pruned_history_images (c.image ∷ []))
    ignore (replace_deployment_source c.current_path c.path)
    retire_container old.container c.container

  unfoldable pub release :
      DeploymentRecord → RuntimeEnvironmentChange → Candidate → Io DeploymentRecord
  release old change c = do
    h ← build_candidate old change.effective c
    new ← cut_over old change c h
    retire old c
    pure new

  unfoldable pub redeploy_single : DeploymentRecord → Option Environment → Io DeploymentRecord
  redeploy_single old replacement = do
    change ←
        prepare_runtime_environment_change old.app (replacement_of replacement)
          (replaces replacement)
    lift (validate_managed_database_environment old change.effective)
    lift (
        if replaces replacement
        then ok tt
        else verify_runtime_environment_metadata old change.effective)
    c ← name_candidate old.app
    finally (release old change c) (ignore (run (remove_all c.path) move_source))

  unfoldable pub safe_redeploy : DeploymentRecord → Option Environment → Io DeploymentRecord
  unfolding ◌==◌
  safe_redeploy record_of_app replacement =
      let old = normalize_deployment_record record_of_app in
      if old.database_detached then fail database_detached else do
        parse ← gets (λ w. w.host.parse_url)
        lift (validate_repository_url parse old.repo_url)
        if old.strategy == Strategy.fullstack_vite_node
            then p.redeploy_fullstack old replacement
            else redeploy_single old replacement
