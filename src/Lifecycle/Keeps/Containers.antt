-- ===== src/Lifecycle/Keeps/Containers.antt =====
-- An operation on containers and images touches the release in service only if it names it.
use mini_deploy.Prelude.{ℕ, zero, suc, ℤ, refl, false, ◌≡◌, [], ◌∷◌}
use mini_deploy.Text.{Text}
use mini_deploy.Records.{DeploymentRecord}
use mini_deploy.Result.{Result, ok, err}
use mini_deploy.World.{World, Io, Environment, ContainerOptions, Event}
use mini_deploy.World.Keeps.{
  Keeps, Keeps-bind, Keeps-try, Keeps-if, Keeps-pure, Keeps-fail, keeps_rules,
}
use mini_deploy.Lifecycle.Keeps.{touches, Spares, Spares-run, Spares-request}
use mini_deploy.Lifecycle.Retire.{remove_image}
use mini_deploy.World.Handle.{on_error, otherwise, if_ok, finally}
use mini_deploy.Docker.{
  remove_container, or_removed, validate_reactor_lab_data_network, start_on_data_network, port_or,
  temporary_docker_env_file, start_managed_deployment_container,
  start_managed_deployment_container_with_options, find_available_port, find_deploy_port,
  check_running, verify_container_startup, poll_health, verify_http_health_path,
  inspect_built_image_id,
}

module _ (old : DeploymentRecord) (v : World) where
  pub otherwise-Spares {ℓ} :
      {A : Type ℓ} (r : Result A) (undo : Io (Unit {0}))
      → Keeps (Spares old v) undo
      → Keeps (Spares old v) (otherwise r undo)
  otherwise-Spares (ok a) undo k = search keeps_rules
  otherwise-Spares (err e) undo k = search keeps_rules

  pub on_error-Spares {ℓ} :
      {A : Type ℓ} (m : Io A) (undo : Io (Unit {0}))
      → Keeps (Spares old v) m
      → Keeps (Spares old v) undo
      → Keeps (Spares old v) (on_error m undo)
  unfolding on_error
  on_error-Spares m undo k l = search (keeps_rules, otherwise-Spares)

  pub if_ok-Spares {ℓ} :
      {A : Type ℓ} (r : Result A) (next : A → Io (Unit {0}))
      → ((a : A) → Keeps (Spares old v) (next a))
      → Keeps (Spares old v) (if_ok r next)
  if_ok-Spares (ok a) next k = k a
  if_ok-Spares (err e) next k = Keeps-pure tt

  pub finally-Spares {ℓ} :
      {A : Type ℓ} (m : Io A) (deferred : Io (Unit {0}))
      → Keeps (Spares old v) m
      → Keeps (Spares old v) deferred
      → Keeps (Spares old v) (finally m deferred)
  unfolding finally
  finally-Spares m deferred k l = record { at = λ w h. l.at (m w).1 (k.at w h) }

  pub remove_container-Spares :
      (c : Text)
      → touches old (Event.docker_rm c) ≡ false
      → Keeps (Spares old v) (remove_container c)
  unfolding remove_container
  remove_container-Spares c h = search (keeps_rules, Spares-run old v)

  pub remove_image-Spares :
      (i : Text) → touches old (Event.image_rm i) ≡ false → Keeps (Spares old v) (remove_image i)
  unfolding remove_image
  remove_image-Spares i h = search (keeps_rules, Spares-run old v)

  or_removed-Spares :
      (c : Text) (r : Result Text)
      → touches old (Event.docker_rm c) ≡ false
      → Keeps (Spares old v) (or_removed c r)
  or_removed-Spares c (ok output) h = search keeps_rules
  or_removed-Spares c (err e) h = search (keeps_rules, remove_container-Spares)

  pub network-Spares : Keeps (Spares old v) validate_reactor_lab_data_network
  unfolding validate_reactor_lab_data_network
  network-Spares = search (keeps_rules, Spares-run old v)

  start_on_data_network-Spares :
      (c i : Text) (hp cp : ℤ) (options : ContainerOptions)
      → touches old (Event.docker_rm c) ≡ false
      → Keeps (Spares old v) (start_on_data_network c i hp cp options)
  unfolding start_on_data_network
  start_on_data_network-Spares c i hp cp options h =
      search (keeps_rules, Spares-run old v, network-Spares, or_removed-Spares) depth 14

  pub env_file-Spares :
      (app : Text) (values : Environment)
      → Keeps (Spares old v) (temporary_docker_env_file app values)
  unfolding temporary_docker_env_file
  env_file-Spares app [] = search keeps_rules
  env_file-Spares app (x ∷ xs) = search (keeps_rules, Spares-run old v)

  pub start_with_options-Spares :
      (app c i : Text) (hp cp : ℤ) (strategy : Text) (values : Environment) (network : Text)
      (options : ContainerOptions)
      → touches old (Event.docker_rm c) ≡ false
      → Keeps (Spares old v) (
          start_managed_deployment_container_with_options app c i hp cp strategy values network
            options)
  unfolding start_managed_deployment_container_with_options
  start_with_options-Spares app c i hp cp strategy values network options h =
      search (keeps_rules, Spares-run old v, env_file-Spares, start_on_data_network-Spares) depth 10

  pub start-Spares :
      (app c i : Text) (hp cp : ℤ) (strategy : Text) (values : Environment) (network : Text)
      → touches old (Event.docker_rm c) ≡ false
      → Keeps
          (Spares old v)
          (start_managed_deployment_container app c i hp cp strategy values network)
  unfolding start_managed_deployment_container
  start-Spares app c i hp cp strategy values network h =
      start_with_options-Spares app c i hp cp strategy values network _ h

  port_or-Spares :
      (r : Result Text) (port : ℕ) (later : Io ℤ)
      → Keeps (Spares old v) later
      → Keeps (Spares old v) (port_or r port later)
  port_or-Spares (ok output) port later k = search keeps_rules
  port_or-Spares (err e) port later k = k

  find_available_port-Spares : (start n : ℕ) → Keeps (Spares old v) (find_available_port start n)
  unfolding find_available_port
  find_available_port-Spares start zero = search keeps_rules
  find_available_port-Spares start (suc n) =
      Keeps-bind _ _ (Keeps-try _ (Spares-run old v _ _ refl))
        (λ found. port_or-Spares found start _ (find_available_port-Spares (suc start) n))

  pub find_deploy_port-Spares : Keeps (Spares old v) find_deploy_port
  unfolding find_deploy_port
  find_deploy_port-Spares = find_available_port-Spares _ _

  check_running-Spares : (c : Text) (n : ℕ) → Keeps (Spares old v) (check_running c n)
  unfolding check_running
  check_running-Spares c zero = search keeps_rules
  check_running-Spares c (suc n) =
      Keeps-bind _ _ (Spares-run old v _ _ refl)
        (λ output. Keeps-if _ _ _ (check_running-Spares c n) (Keeps-fail _))

  pub startup-Spares : (c : Text) → Keeps (Spares old v) (verify_container_startup c)
  unfolding verify_container_startup
  startup-Spares c = check_running-Spares c _

  poll_health-Spares :
      (port : ℤ) (path : Text) (n : ℕ) → Keeps (Spares old v) (poll_health port path n)
  unfolding poll_health
  poll_health-Spares port path zero = search keeps_rules
  poll_health-Spares port path (suc n) =
      Keeps-bind _ _ (Spares-request old v _ refl)
        (λ status. Keeps-if _ _ _ (Keeps-pure _) (poll_health-Spares port path n))

  pub health-Spares :
      (port : ℤ) (path : Text) → Keeps (Spares old v) (verify_http_health_path port path)
  unfolding verify_http_health_path
  health-Spares port path = poll_health-Spares port _ _

  pub image_id-Spares : (i : Text) → Keeps (Spares old v) (inspect_built_image_id i)
  unfolding inspect_built_image_id
  image_id-Spares i = search (keeps_rules, Spares-run old v)
