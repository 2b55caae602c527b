-- ===== src/Docker.antt =====
-- app/docker.go and app/health.go: containers, free ports and the checks of a started container.
pub mod Port
pub mod Arguments
use mini_deploy.Prelude.{
  ℕ, zero, suc, ◌-◌, ℤ, pos, Bool, true, false, ◌&&◌, ◌||◌, not, Option, none, some, [], ◌∷◌, every,
  keep_if, leb, ltb, eqb, if◌then◌else◌,
}
use mini_deploy.Text.{
  Text, codes, ◌==◌, is_empty, trim_space, has_prefix, trim_prefix, to_lower, byte_length, itoa,
  cut,
}
use mini_deploy.Result.{
  Result, ok, err, no_available_port, start_container, startup_check, health_check, inspect_image,
  invalid_environment,
}
use mini_deploy.Config.{normalized_health_path}
use mini_deploy.Strategy
use mini_deploy.Names.{matches_name}
use mini_deploy.Environment.Format.{is_line_rune}
use mini_deploy.World.{
  Io, Environment, ContainerOptions, Event.docker_run, Event.docker_create, Event.network_inspect,
  Event.network_connect, Event.docker_start, Event.docker_rm, Event.container_inspect,
  Event.container_status, Event.image_id, Event.listen, Event.http_get, Event.docker_env_file, run,
  request, pure, fail, try, ignore, ◌>>=◌, ◌>>◌,
}

-- docker rm -f, its result ignored
unfoldable pub remove_container : Text → Io (Unit {0})
remove_container container = ignore (run (docker_rm container) start_container)

-- The private data network, and the calls that join a created container to it before it starts. A
-- container that cannot join or start is removed.
abbrev pub or_removed : Text → Result Text → Io (Unit {0})
or_removed container (ok output) = pure tt
or_removed container (err e) = remove_container container >> fail e

unfoldable pub validate_reactor_lab_data_network : Io (Unit {0})
unfolding ◌==◌
validate_reactor_lab_data_network = do
  output ← run network_inspect start_container
  if trim_space output == codes "bridge true" then pure tt else fail start_container

unfoldable pub start_on_data_network : Text → Text → ℤ → ℤ → ContainerOptions → Io (Unit {0})
start_on_data_network container image host_port container_port options = do
  validate_reactor_lab_data_network
  run (docker_create container image host_port container_port options) start_container
  connected ← try (run (network_connect container) start_container)
  or_removed container connected
  started ← try (run (docker_start container) start_container)
  or_removed container started

abbrev pub reactor_lab_data_network : Text
reactor_lab_data_network = codes "reactorlab-data"

-- dockerEnvironment["PORT"] = port, over the values of the environment
unfoldable pub docker_runtime_environment : Text → ℤ → Environment → Environment
unfolding ◌==◌
docker_runtime_environment strategy container_port environment =
    if strategy == Strategy.node_express
    then (codes "PORT", itoa container_port) ∷ keep_if (λ v. not (v.0 == codes "PORT")) environment
    else environment

-- validateDockerRuntimeEnvironment
abbrev is_docker_value : Text × Text → Bool
is_docker_value (name, value) = matches_name name && every is_line_rune value

-- TemporaryDockerEnvFile: the file is removed again by the caller, and only its failure matters.
unfoldable pub temporary_docker_env_file : Text → Environment → Io (Unit {0})
unfolding matches_name
temporary_docker_env_file app [] = pure tt
temporary_docker_env_file app (v ∷ vs) =
    if not (every is_docker_value (v ∷ vs))
    then fail invalid_environment
    else (run (docker_env_file app) start_container >> pure tt)

-- startManagedDeploymentContainerWithOptions: `data_network` is options.DataNetwork.
unfoldable pub start_managed_deployment_container_with_options :
    Text → Text → Text → ℤ → ℤ → Text → Environment → Text → ContainerOptions → Io (Unit {0})
unfolding ◌==◌
start_managed_deployment_container_with_options app container image host_port container_port
      strategy environment data_network options =
    do
      temporary_docker_env_file app (docker_runtime_environment strategy container_port environment)
      if is_empty data_network
          then (run (docker_run container image host_port container_port options) start_container
              >> pure tt)
          else if not (data_network == reactor_lab_data_network)
          then fail start_container
          else start_on_data_network container image host_port container_port options

abbrev pub no_options : ContainerOptions
no_options = record { network = []; service = []; app = [] }

-- The container of a single service, whose only option is the data network.
unfoldable pub start_managed_deployment_container :
    Text → Text → Text → ℤ → ℤ → Text → Environment → Text → Io (Unit {0})
unfolding start_managed_deployment_container_with_options
start_managed_deployment_container app container image host_port container_port strategy environment
      data_network =
    start_managed_deployment_container_with_options app container image host_port container_port
      strategy environment data_network no_options

unfoldable pub container_exists : Text → Io Bool
container_exists container = do
  found ← try (run (container_inspect container) start_container)
  pure (elim found [ ok _ ↦ true | err _ ↦ false ])

abbrev pub port_or : Result Text → ℕ → Io ℤ → Io ℤ
port_or (ok output) port later = pure (pos port)
port_or (err e) port later = later

-- The loop of findAvailablePort over the ports that are left: a port on which the host can listen.
unfoldable pub find_available_port : ℕ → ℕ → Io ℤ
find_available_port start zero = fail no_available_port
find_available_port start (suc left) =
    let later = find_available_port (suc start) left in
    try (run (listen start) no_available_port) >>= λ found. port_or found start later

abbrev pub min_deploy_port : ℕ
min_deploy_port = 8081

abbrev pub max_deploy_port : ℕ
max_deploy_port = 8999

-- findAvailablePort(minDeployPort, maxDeployPort)
unfoldable pub find_deploy_port : Io ℤ
find_deploy_port = find_available_port min_deploy_port (suc max_deploy_port - min_deploy_port)

-- The loop of verifyContainerStartup: each look at the container must find it running.
unfoldable pub check_running : Text → ℕ → Io (Unit {0})
unfolding ◌==◌
check_running container zero = pure tt
check_running container (suc left) =
    let later = check_running container left in
    run (container_status container) startup_check >>= λ output.
    if trim_space output == codes "running" then later else fail startup_check

unfoldable pub verify_container_startup : Text → Io (Unit {0})
verify_container_startup container = check_running container 3

abbrev pub is_healthy : Option ℕ → Bool
is_healthy none = false
is_healthy (some status) = leb 200 status && ltb status 400

-- The loop of verifyHTTPHealthPath: the first healthy answer ends it.
unfoldable pub poll_health : ℤ → Text → ℕ → Io (Unit {0})
poll_health port path zero = fail health_check
poll_health port path (suc left) =
    let later = poll_health port path left in
    request (http_get port path) >>= λ status. if is_healthy status then pure tt else later

unfoldable pub verify_http_health_path : ℤ → Text → Io (Unit {0})
verify_http_health_path port health_path = poll_health port (normalized_health_path health_path) 5

abbrev pub is_hex : ℕ → Bool
is_hex c = leb b'0' c && leb c b'9' || leb b'a' c && leb c b'f' || leb b'A' c && leb c b'F'

-- dockerImageIDPattern, ^sha256:[0-9a-fA-F]{64}$
unfoldable pub matches_image_id : Text → Bool
unfolding has_prefix trim_prefix byte_length
matches_image_id s =
    let digest = trim_prefix s (codes "sha256:") in
    has_prefix s (codes "sha256:") && eqb (byte_length digest) 64 && every is_hex digest

abbrev is_image_rune : ℕ → Bool
is_image_rune c =
    leb b'a' c && leb c b'z'
    || leb b'A' c && leb c b'Z'
    || leb b'0' c && leb c b'9'
    || eqb c b'.'
    || eqb c b'_'
    || eqb c b'-'

abbrev starts_alphanumeric : Text → Bool
starts_alphanumeric [] = false
starts_alphanumeric (c ∷ cs) = is_hex c || leb b'g' c && leb c b'z' || leb b'G' c && leb c b'Z'

abbrev is_image_tag : Option Text → Bool
is_image_tag none = true
is_image_tag (some tag) = starts_alphanumeric tag && every is_image_rune tag

-- dockerImageTargetPattern, ^[A-Za-z0-9][A-Za-z0-9._/-]*(:[A-Za-z0-9][A-Za-z0-9_.-]*)?$
unfoldable pub matches_image_target : Text → Bool
unfolding cut
matches_image_target s =
    let parts = cut b':' s in
    starts_alphanumeric parts.0
    && every (λ c. is_image_rune c || eqb c b'/') parts.0
    && is_image_tag parts.1

-- app/deployment_identity.go. The identity is ASCII, so that lowering it needs no table.
unfoldable pub inspect_built_image_id : Text → Io Text
unfolding matches_image_target matches_image_id has_prefix byte_length to_lower trim_space
inspect_built_image_id image =
    if is_empty image
      || ltb 255 (byte_length image)
      || not (has_prefix image (codes "minideploy-"))
      || not (matches_image_target image)
    then fail inspect_image
    else do
      output ← run (image_id image) inspect_image
      let id = trim_space output
      if matches_image_id id then pure (to_lower (λ c. c) id) else fail inspect_image
