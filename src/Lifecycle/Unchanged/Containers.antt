-- ===== src/Lifecycle/Unchanged/Containers.antt =====
-- No operation on containers and images changes the stored deployments.
use mini_deploy.Prelude.{ℕ, zero, suc, ℤ, [], ◌∷◌}
use mini_deploy.Text.{Text}
use mini_deploy.Result.{Result, ok, err}
use mini_deploy.World.{World, Io, Environment, ContainerOptions}
use mini_deploy.World.Keeps.{
  Keeps, Keeps-bind, Keeps-try, Keeps-if, Keeps-pure, Keeps-fail, keeps_rules,
}
use mini_deploy.Lifecycle.Unchanged.{Unchanged, Unchanged-run, Unchanged-request}
use mini_deploy.Lifecycle.Retire.{remove_image}
use mini_deploy.World.Handle.{on_error, otherwise, if_ok, finally}
use mini_deploy.Docker.{
  remove_container, or_removed, validate_reactor_lab_data_network, start_on_data_network, port_or,
  temporary_docker_env_file, start_managed_deployment_container,
  start_managed_deployment_container_with_options, find_available_port, find_deploy_port,
  check_running, verify_container_startup, poll_health, verify_http_health_path,
  inspect_built_image_id,
}

module _ (v : World) where
  pub otherwise-Unchanged {ℓ} :
      {A : Type ℓ} (r : Result A) (undo : Io (Unit {0}))
      → Keeps (Unchanged v) undo
      → Keeps (Unchanged v) (otherwise r undo)
  otherwise-Unchanged (ok a) undo k = search keeps_rules
  otherwise-Unchanged (err e) undo k = search keeps_rules

  pub on_error-Unchanged {ℓ} :
      {A : Type ℓ} (m : Io A) (undo : Io (Unit {0}))
      → Keeps (Unchanged v) m
      → Keeps (Unchanged v) undo
      → Keeps (Unchanged v) (on_error m undo)
  unfolding on_error
  on_error-Unchanged m undo k l = search (keeps_rules, otherwise-Unchanged)

  pub if_ok-Unchanged {ℓ} :
      {A : Type ℓ} (r : Result A) (next : A → Io (Unit {0}))
      → ((a : A) → Keeps (Unchanged v) (next a))
      → Keeps (Unchanged v) (if_ok r next)
  if_ok-Unchanged (ok a) next k = k a
  if_ok-Unchanged (err e) next k = Keeps-pure tt

  pub finally-Unchanged {ℓ} :
      {A : Type ℓ} (m : Io A) (deferred : Io (Unit {0}))
      → Keeps (Unchanged v) m
      → Keeps (Unchanged v) deferred
      → Keeps (Unchanged v) (finally m deferred)
  unfolding finally
  finally-Unchanged m deferred k l = record { at = λ w h. l.at (m w).1 (k.at w h) }

  pub remove_container-Unchanged : (c : Text) → Keeps (Unchanged v) (remove_container c)
  unfolding remove_container
  remove_container-Unchanged c = search (keeps_rules, Unchanged-run v)

  pub remove_image-Unchanged : (i : Text) → Keeps (Unchanged v) (remove_image i)
  unfolding remove_image
  remove_image-Unchanged i = search (keeps_rules, Unchanged-run v)

  or_removed-Unchanged : (c : Text) (r : Result Text) → Keeps (Unchanged v) (or_removed c r)
  or_removed-Unchanged c (ok output) = search keeps_rules
  or_removed-Unchanged c (err e) = search (keeps_rules, remove_container-Unchanged)

  pub network-Unchanged : Keeps (Unchanged v) validate_reactor_lab_data_network
  unfolding validate_reactor_lab_data_network
  network-Unchanged = search (keeps_rules, Unchanged-run v)

  start_on_data_network-Unchanged :
      (c i : Text) (hp cp : ℤ) (options : ContainerOptions)
      → Keeps (Unchanged v) (start_on_data_network c i hp cp options)
  unfolding start_on_data_network
  start_on_data_network-Unchanged c i hp cp options =
      search (keeps_rules, Unchanged-run v, network-Unchanged, or_removed-Unchanged) depth 14

  pub env_file-Unchanged :
      (app : Text) (values : Environment)
      → Keeps (Unchanged v) (temporary_docker_env_file app values)
  unfolding temporary_docker_env_file
  env_file-Unchanged app [] = search keeps_rules
  env_file-Unchanged app (x ∷ xs) = search (keeps_rules, Unchanged-run v)

  pub start_with_options-Unchanged :
      (app c i : Text) (hp cp : ℤ) (strategy : Text) (values : Environment) (network : Text)
      (options : ContainerOptions)
      → Keeps (Unchanged v) (
          start_managed_deployment_container_with_options app c i hp cp strategy values network
            options)
  unfolding start_managed_deployment_container_with_options
  start_with_options-Unchanged app c i hp cp strategy values network options =
      search (keeps_rules, Unchanged-run v, env_file-Unchanged, start_on_data_network-Unchanged)
        depth 10

  pub start-Unchanged :
      (app c i : Text) (hp cp : ℤ) (strategy : Text) (values : Environment) (network : Text)
      → Keeps
          (Unchanged v)
          (start_managed_deployment_container app c i hp cp strategy values network)
  unfolding start_managed_deployment_container
  start-Unchanged app c i hp cp strategy values network =
      start_with_options-Unchanged app c i hp cp strategy values network _

  port_or-Unchanged :
      (r : Result Text) (port : ℕ) (later : Io ℤ)
      → Keeps (Unchanged v) later
      → Keeps (Unchanged v) (port_or r port later)
  port_or-Unchanged (ok output) port later k = search keeps_rules
  port_or-Unchanged (err e) port later k = k

  find_available_port-Unchanged : (start n : ℕ) → Keeps (Unchanged v) (find_available_port start n)
  unfolding find_available_port
  find_available_port-Unchanged start zero = search keeps_rules
  find_available_port-Unchanged start (suc n) =
      Keeps-bind _ _ (Keeps-try _ (Unchanged-run v _ _))
        (λ found. port_or-Unchanged found start _ (find_available_port-Unchanged (suc start) n))

  pub find_deploy_port-Unchanged : Keeps (Unchanged v) find_deploy_port
  unfolding find_deploy_port
  find_deploy_port-Unchanged = find_available_port-Unchanged _ _

  check_running-Unchanged : (c : Text) (n : ℕ) → Keeps (Unchanged v) (check_running c n)
  unfolding check_running
  check_running-Unchanged c zero = search keeps_rules
  check_running-Unchanged c (suc n) =
      Keeps-bind _ _ (Unchanged-run v _ _)
        (λ output. Keeps-if _ _ _ (check_running-Unchanged c n) (Keeps-fail _))

  pub startup-Unchanged : (c : Text) → Keeps (Unchanged v) (verify_container_startup c)
  unfolding verify_container_startup
  startup-Unchanged c = check_running-Unchanged c _

  poll_health-Unchanged :
      (port : ℤ) (path : Text) (n : ℕ) → Keeps (Unchanged v) (poll_health port path n)
  unfolding poll_health
  poll_health-Unchanged port path zero = search keeps_rules
  poll_health-Unchanged port path (suc n) =
      Keeps-bind _ _ (Unchanged-request v _)
        (λ status. Keeps-if _ _ _ (Keeps-pure _) (poll_health-Unchanged port path n))

  pub health-Unchanged :
      (port : ℤ) (path : Text) → Keeps (Unchanged v) (verify_http_health_path port path)
  unfolding verify_http_health_path
  health-Unchanged port path = poll_health-Unchanged port _ _

  pub image_id-Unchanged : (i : Text) → Keeps (Unchanged v) (inspect_built_image_id i)
  unfolding inspect_built_image_id
  image_id-Unchanged i = search (keeps_rules, Unchanged-run v)
