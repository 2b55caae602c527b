-- ===== src/Fullstack/Status.antt =====
-- The status and the restart of a deployment, in app/fullstack_runtime.go and app/docker.go.
use mini_deploy.Prelude.{List, [], ◌∷◌, ◌++◌, not, if◌then◌else◌}
use mini_deploy.Text.{Text, codes, ◌==◌, trim_space}
use mini_deploy.Records.{DeploymentRecord}
use mini_deploy.Result.{Result, ok, err, start_container, unknown_container}
use mini_deploy.Strategy
use mini_deploy.Config.{normalize_deployment_record}
use mini_deploy.Proxy.Fullstack.{validate_fullstack_service_metadata}
use mini_deploy.Docker.{container_exists}
use mini_deploy.Fullstack.{validate_fullstack_active_resources}
use mini_deploy.Fullstack.Resources.{verify_fullstack_container_ownership}
use mini_deploy.Fullstack.Release.{service_of}
use mini_deploy.World.{
  Io, Event.container_status as status_event, Event.docker_restart, run, pure, fail, lift, try,
  ◌>>=◌, ◌>>◌,
}

abbrev pub status_or_missing : Result Text → Text
unfolding trim_space
status_or_missing (ok output) = trim_space output
status_or_missing (err e) = codes "missing"

unfoldable pub container_status : Text → Io Text
unfolding trim_space
container_status container = do
  output ← try (run (status_event container) start_container)
  pure (status_or_missing output)

abbrev pub running : Text
running = codes "running"

-- The loop over the services: the first status that is not `running`.
unfoldable pub services_status : DeploymentRecord → List Text → Io Text
unfolding ◌==◌
services_status r [] = pure running
services_status r (name ∷ names) =
    let later = services_status r names in
    container_status (service_of name r).container >>= λ status.
    if status == running then later else pure status

abbrev pub fullstack_status : DeploymentRecord → Result (Unit {0}) → Io Text
fullstack_status r (err e) = pure (codes "missing")
fullstack_status r (ok _) =
    services_status r (Strategy.frontend_service ∷ Strategy.backend_service ∷ [])

unfoldable pub deployment_project_status : DeploymentRecord → Io Text
unfolding ◌==◌
deployment_project_status record_of_app =
    let r = normalize_deployment_record record_of_app in
    if r.database_detached
    then pure (codes "database-detached")
    else if not (r.strategy == Strategy.fullstack_vite_node)
    then container_status r.container
    else fullstack_status r (validate_fullstack_service_metadata r.services)

-- The services in the order of a restart.
abbrev pub restart_order : List Text
restart_order = Strategy.backend_service ∷ Strategy.frontend_service ∷ []

unfoldable pub verify_owned : DeploymentRecord → List Text → Io (Unit {0})
verify_owned r [] = pure tt
verify_owned r (name ∷ names) =
    verify_fullstack_container_ownership r.app name (service_of name r).container
    >> verify_owned r names

-- The loop that restarts: the outputs of the commands, one behind the other.
unfoldable pub restart_services : DeploymentRecord → List Text → Io Text
restart_services r [] = pure []
restart_services r (name ∷ names) = do
  output ← run (docker_restart (service_of name r).container) start_container
  later ← restart_services r names
  pure (output ++ later)

-- strings.Join(containers, ", ")
abbrev both_containers : DeploymentRecord → Text
both_containers r =
    (service_of Strategy.backend_service r).container
    ++ codes ", "
    ++ (service_of Strategy.frontend_service r).container

unfoldable pub restart_single : Text → Io (Text × Text)
restart_single container = do
  found ← container_exists container
  if found
      then (run (docker_restart container) start_container >>= λ output. pure (container, output))
      else fail unknown_container

-- The containers and the output. What an error has restarted and printed before it is left out.
unfoldable pub restart_deployment_containers : DeploymentRecord → Io (Text × Text)
unfolding ◌==◌
restart_deployment_containers record_of_app =
    let r = normalize_deployment_record record_of_app in
    if not (r.strategy == Strategy.fullstack_vite_node) then restart_single r.container else do
      lift (validate_fullstack_active_resources r)
      verify_owned r restart_order
      output ← restart_services r restart_order
      pure (both_containers r, output)
