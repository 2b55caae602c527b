-- ===== src/Fullstack/Rollback.antt =====
-- rollbackFullstackLocked of app/fullstack_lifecycle.go. The deploy mutex is held throughout.
use mini_deploy.Prelude.{pos, false, List, [], ◌∷◌}
use mini_deploy.Text.{Text, codes}
use mini_deploy.Records.{DeploymentRecord, DeploymentServiceRecord, DeploymentVersion}
use mini_deploy.Result.{Result, ok, err, image_unavailable, no_rollback_version}
use mini_deploy.Config.{normalize_deployment_record}
use mini_deploy.Environment
use mini_deploy.Environment.{
  RuntimeEnvironmentChange, prepare_runtime_environment_change, verify_runtime_environment_metadata,
}
use mini_deploy.Environment.Format.{runtime_environment_names}
use mini_deploy.Store
use mini_deploy.History
use mini_deploy.History.{deployment_version, record_with_fallback}
use mini_deploy.Proxy.{sync_proxy_routes}
use mini_deploy.Proxy.Fullstack.{validate_fullstack_service_metadata}
use mini_deploy.Fullstack.{
  fullstack_release_network_name, fullstack_service_container_name,
  validate_fullstack_active_resources, validate_fullstack_image_record,
}
use mini_deploy.Fullstack.Resources.{cleanup_fullstack_release}
use mini_deploy.Lifecycle.Retire.{remove_pruned_history_images}
use mini_deploy.World.{
  Io, Environment, Event.image_inspect, run, pure, fail, lift, try, ignore, gets, ◌>>=◌, ◌>>◌,
}
use mini_deploy.World.Handle.{on_error, if_ok}
use mini_deploy.Fullstack.Publish.{
  deployment_images, release_stamp, start_or_clean_up, activated, restore_release,
}

-- The loop over the services of the release that comes back.
unfoldable pub check_images : Text → List DeploymentServiceRecord → Io (Unit {0})
check_images app [] = pure tt
check_images app (s ∷ ss) = do
  lift (validate_fullstack_image_record app s.name s.image)
  run (image_inspect s.image) image_unavailable
  check_images app ss

abbrev pub returning_service : Text → DeploymentServiceRecord → DeploymentServiceRecord
returning_service container s = record s { container = container; port = pos 0 }

-- The loop that names the containers of the candidate.
unfoldable pub name_containers :
    Text → Text → List DeploymentServiceRecord → Result (List DeploymentServiceRecord)
name_containers app release [] = ok []
name_containers app release (s ∷ ss) =
    let rest = name_containers app release ss in
    elim (fullstack_service_container_name app s.name (codes "rollback") release) [
      | err e ↦ err e
      | ok container ↦ elim rest [
        | ok later ↦ ok (returning_service container s ∷ later)
        | err e ↦ err e
      ]
    ]

abbrev pub returning_record :
    DeploymentRecord
    → DeploymentRecord
    → Environment
    → Text
    → List DeploymentServiceRecord
    → DeploymentRecord
returning_record current previous environment network services =
    normalize_deployment_record (record previous {
      app = current.app;
      repo_url = current.repo_url;
      network = network;
      environment_variables = runtime_environment_names environment;
      database_attachments = current.database_attachments;
      guest_visible = current.guest_visible;
      services = services;
    })

unfoldable pub switch_back_fullstack : DeploymentRecord → DeploymentRecord → Io DeploymentRecord
switch_back_fullstack current candidate = do
  now ← gets (λ w. w.host.now w.trace)
  let new = activated now candidate
  on_error (Store.save new) (ignore (cleanup_fullstack_release new false))
  on_error sync_proxy_routes (restore_release current new false (pure tt))
  pure new

-- No failure here is returned.
unfoldable pub retire_current_fullstack :
    DeploymentRecord → List DeploymentVersion → DeploymentRecord → Io (Unit {0})
unfolding deployment_version
retire_current_fullstack current older new = do
  now ← gets (λ w. w.host.now w.trace)
  pruned ← try (History.set current.app (deployment_version now current ∷ older))
  if_ok pruned (remove_pruned_history_images (deployment_images new))
  ignore (cleanup_fullstack_release current false)

-- The candidate of the names of `release`.
unfoldable pub start_named :
    DeploymentRecord → DeploymentRecord → Environment → Text → Io DeploymentRecord
start_named current previous environment release = do
  network ← lift (fullstack_release_network_name current.app release)
  services ← lift (name_containers current.app release previous.services)
  let candidate = returning_record current previous environment network services
  lift (validate_fullstack_active_resources candidate)
  start_or_clean_up candidate environment false

-- From the checks of the images to the healthy candidate.
unfoldable pub start_returning :
    DeploymentRecord → DeploymentRecord → Environment → Io DeploymentRecord
start_returning current previous environment = do
  lift (validate_fullstack_service_metadata previous.services)
  check_images current.app previous.services
  release ← release_stamp
  start_named current previous environment release

abbrev pub rollback_fullstack_to :
    DeploymentRecord → Environment → List DeploymentVersion → Io DeploymentRecord
rollback_fullstack_to current environment [] = fail no_rollback_version
rollback_fullstack_to current environment (version ∷ older) = do
  candidate ← start_returning current (record_with_fallback version current) environment
  new ← switch_back_fullstack current candidate
  retire_current_fullstack current older new
  pure new

unfoldable pub rollback_fullstack : DeploymentRecord → Io DeploymentRecord
rollback_fullstack current = do
  lift (validate_fullstack_active_resources current)
  environment ← Environment.load current.app
  lift (verify_runtime_environment_metadata current environment)
  versions ← History.list current.app
  rollback_fullstack_to current environment versions
