-- ===== src/Docker/Arguments.antt =====
-- The arguments of docker run, create and restart in app/docker.go, which the events docker_run, docker_create and
-- docker_restart stand for.
use mini_deploy.Prelude.{ℤ, List, [], ◌∷◌, ◌++◌, if◌then◌else◌}
use mini_deploy.Text.{Text, codes, is_empty, itoa}
use mini_deploy.World.{ContainerOptions}

unfoldable pub managed_port_binding : ℤ → ℤ → Text
managed_port_binding host_port container_port =
    codes "127.0.0.1:" ++ itoa host_port ++ codes ":" ++ itoa container_port

-- The network of a service and the labels by which its owner is known.
abbrev network_arguments : ContainerOptions → List Text
network_arguments options =
    if is_empty options.network
    then []
    else codes "--network"
      ∷ options.network
      ∷ codes "--network-alias"
      ∷ options.service
      ∷ codes "--label"
      ∷ codes "com.minideploy.managed=true"
      ∷ codes "--label"
      ∷ (codes "com.minideploy.app=" ++ options.app)
      ∷ codes "--label"
      ∷ (codes "com.minideploy.service=" ++ options.service)
      ∷ []

abbrev env_file_arguments : Text → List Text
env_file_arguments env_file = if is_empty env_file then [] else codes "--env-file" ∷ env_file ∷ []

-- What follows the subcommand and, for `run`, the flag -d.
abbrev common_arguments : Text → Text → ℤ → ℤ → Text → ContainerOptions → List Text
common_arguments container image host_port container_port env_file options =
    codes "--restart"
      ∷ codes "unless-stopped"
      ∷ codes "--name"
      ∷ container
      ∷ codes "-p"
      ∷ managed_port_binding host_port container_port
      ∷ network_arguments options
    ++ env_file_arguments env_file
    ++ (image ∷ [])

unfoldable pub managed_container_run_arguments_with_options :
    Text → Text → ℤ → ℤ → Text → ContainerOptions → List Text
managed_container_run_arguments_with_options container image host_port container_port env_file
      options =
    codes "run"
    ∷ codes "-d"
    ∷ common_arguments container image host_port container_port env_file options

-- args[0] = "create"; append(args[:1], args[2:]...)
unfoldable pub create_arguments : List Text → List Text
create_arguments (run ∷ detach ∷ rest) = codes "create" ∷ rest
create_arguments args = args

unfoldable pub restart_container_arguments : Text → List Text
restart_container_arguments container = codes "restart" ∷ container ∷ []
