-- ===== src/Lifecycle/Rollback.antt =====
-- app/rollback.go. The deploy mutex is held throughout, so a rollback is one action.
pub mod Failure
pub mod Success
use mini_deploy.Prelude.{ℕ, ℤ, Bool, true, false, some, List, [], ◌∷◌, ◌++◌, if◌then◌else◌}
use mini_deploy.Text.{Text, codes, ◌==◌, is_empty, decimal}
use mini_deploy.Records.{DeploymentRecord, DeploymentVersion}
use mini_deploy.Result.{
  Result, ok, err, Error, database_detached, no_rollback_version, image_unavailable,
  start_container, unknown_image, stop_container,
}
use mini_deploy.Strategy
use mini_deploy.Config.{normalize_deployment_record}
use mini_deploy.Environment
use mini_deploy.Environment.{verify_runtime_environment_metadata}
use mini_deploy.Environment.Format.{runtime_environment_names}
use mini_deploy.Store
use mini_deploy.History
use mini_deploy.History.{record_with_fallback, deployment_version}
use mini_deploy.Proxy.{sync_proxy_routes}
use mini_deploy.Docker.{
  find_deploy_port, start_managed_deployment_container, verify_container_startup,
  verify_http_health_path, remove_container,
}
use mini_deploy.Lifecycle.Platform.{Platform}
use mini_deploy.Database.{
  DatabaseRuntime, resolve_database_runtime, validate_managed_database_environment,
}
use mini_deploy.Database.Migration.{run_reactor_lab_migration}
use mini_deploy.Lifecycle.Retire.{remove_pruned_history_images, retire_container}
use mini_deploy.World.{
  World, Io, Environment, Event.image_inspect, Event.container_logs, Event.docker_stop, run, pure,
  fail, lift, try, ignore, gets, ◌>>=◌, ◌>>◌,
}
use mini_deploy.World.Handle.{on_error, if_ok}

-- restorePreviousContainer
unfoldable pub restore_previous_container : DeploymentRecord → Bool → Io (Unit {0})
restore_previous_container record_of_app should_run =
    let r = normalize_deployment_record record_of_app in
    if is_empty r.image then fail unknown_image else do
      environment ← Environment.load r.app
      lift (verify_runtime_environment_metadata r environment)
      start_managed_deployment_container r.app r.container r.image r.port r.container_port
          r.strategy environment []
      if should_run then pure tt else (run (docker_stop r.container) stop_container >> pure tt)

-- The release that a version stands for, with what belongs to the application.
abbrev pub previous_record : DeploymentVersion → DeploymentRecord → DeploymentRecord
previous_record version current = record (record_with_fallback version current) {
  database_attachments = current.database_attachments;
  guest_visible = current.guest_visible;
}

abbrev pub rollback_container : Text → ℕ → Text
rollback_container app stamp = codes "minideploy-" ++ app ++ codes "-rollback-" ++ decimal stamp

unfoldable pub rollback_candidate_record :
    DeploymentRecord → Text → ℤ → Environment → ℕ → DeploymentRecord
rollback_candidate_record previous container port environment now = record previous {
  container = container;
  port = port;
  environment_variables = runtime_environment_names environment;
  activated_at = some now;
}

-- cleanupCandidate, behind the logs of the candidate
unfoldable pub reject_rollback : Text → Io (Unit {0})
reject_rollback container =
    ignore (run (container_logs container) start_container) >> remove_container container

module _ (p : Platform) where
  -- From the look at the image to the migration.
  unfoldable pub prepare_rollback :
      DeploymentRecord → DeploymentRecord → Environment → Io DatabaseRuntime
  prepare_rollback current previous environment = do
    run (image_inspect previous.image) image_unavailable
    runtime ← resolve_database_runtime previous environment
    run_reactor_lab_migration current.app previous.image previous.package_manager
        previous.reactor_lab_migration runtime
    pure runtime

  -- The port on which the healthy candidate listens.
  unfoldable pub start_rollback :
      DeploymentRecord → DeploymentRecord → DatabaseRuntime → Text → Io ℤ
  start_rollback current previous runtime container = do
    port ← find_deploy_port
    start_managed_deployment_container current.app container previous.image port
        previous.container_port previous.strategy runtime.environment runtime.data_network
    on_error (verify_container_startup container) (reject_rollback container)
    on_error (verify_http_health_path port previous.health_path) (reject_rollback container)
    pure port

  -- The record and the route of the release in service come back.
  unfoldable pub restore_current : DeploymentRecord → Text → Io (Unit {0})
  restore_current current container = do
    restored ← try (Store.save current)
    if_ok restored (λ _. ignore sync_proxy_routes)
    remove_container container

  unfoldable pub switch_back :
      DeploymentRecord → DeploymentRecord → Environment → Text → ℤ → Io DeploymentRecord
  switch_back current previous environment container port = do
    now ← gets (λ w. w.host.now w.trace)
    let new = rollback_candidate_record previous container port environment now
    on_error (Store.save new) (remove_container container)
    on_error sync_proxy_routes (restore_current current container)
    pure new

  -- The history gets the release that was left, in place of the one that came back. No failure here is
  -- returned.
  unfoldable pub retire_current :
      DeploymentRecord → List DeploymentVersion → DeploymentRecord → Text → Io (Unit {0})
  unfolding deployment_version
  retire_current current older new container = do
    now ← gets (λ w. w.host.now w.trace)
    pruned ← try (History.set current.app (deployment_version now current ∷ older))
    if_ok pruned (remove_pruned_history_images (new.image ∷ []))
    retire_container current.container container

  unfoldable pub rollback_to :
      DeploymentRecord
      → Environment
      → DeploymentVersion
      → List DeploymentVersion
      → Io DeploymentRecord
  rollback_to current environment version older = do
    let previous = previous_record version current
    runtime ← prepare_rollback current previous environment
    stamp ← gets (λ w. w.host.now w.trace)
    let container = rollback_container current.app stamp
    port ← start_rollback current previous runtime container
    new ← switch_back current previous environment container port
    retire_current current older new container
    pure new

  abbrev pub rollback_first :
      DeploymentRecord → Environment → List DeploymentVersion → Io DeploymentRecord
  rollback_first current environment [] = fail no_rollback_version
  rollback_first current environment (version ∷ older) =
      rollback_to current environment version older

  unfoldable pub rollback_single : DeploymentRecord → Io DeploymentRecord
  rollback_single current = do
    environment ← Environment.load current.app
    lift (verify_runtime_environment_metadata current environment)
    versions ← History.list current.app
    rollback_first current environment versions

  unfoldable pub rollback_deployment : DeploymentRecord → Io DeploymentRecord
  unfolding ◌==◌
  rollback_deployment record_of_app =
      let current = normalize_deployment_record record_of_app in
      if current.database_detached
      then fail database_detached
      else if current.strategy == Strategy.fullstack_vite_node
      then p.rollback_fullstack current
      else rollback_single current
