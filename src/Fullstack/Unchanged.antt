-- ===== src/Fullstack/Unchanged.antt =====
-- What a deployment, a redeployment and a rollback of a full-stack project do before they save, in
-- app/fullstack_lifecycle.go, does not change the stored deployments.
use mini_deploy.Prelude.{Bool, true, false, Option, none, some, List, [], ◌∷◌, ℤ, All}
use mini_deploy.Text.{Text}
use mini_deploy.Records.{DeploymentRecord, DeploymentServiceRecord}
use mini_deploy.Result.{Result, ok, err, missing_service}
use mini_deploy.Path.{FilePath}
use mini_deploy.Config.{find_service}
use mini_deploy.Database.{DatabaseRuntime}
use mini_deploy.Detect.Plan.{ProjectPlan}
use mini_deploy.World.{World, Io, Environment, pure}
use mini_deploy.World.Keeps.{
  Keeps, Keeps-bind, Keeps-fail, Keeps-gets, Keeps-ignore, Keeps-lift, Keeps-pure, Keeps-try,
}
use mini_deploy.Lifecycle.Unchanged.{Unchanged, Unchanged-event, Unchanged-run, calm-Unchanged}
use mini_deploy.Lifecycle.Unchanged.Checkout.{build_image-Unchanged, inspect_source-Unchanged}
use mini_deploy.Lifecycle.Unchanged.Containers.{
  find_deploy_port-Unchanged, health-Unchanged, image_id-Unchanged, on_error-Unchanged,
  start_with_options-Unchanged, startup-Unchanged,
}
use mini_deploy.Lifecycle.Unchanged.Database.{migration-Unchanged, resolve-Unchanged}
use mini_deploy.Fullstack.Resources.{cleanup_fullstack_release}
use mini_deploy.Fullstack.Resources.Keeps.{
  cleanup-Keeps, create_network-Keeps, remove_fullstack_image-Keeps,
}
use mini_deploy.Fullstack.Release.Images.{build_fullstack_release, build_service, remove_built}
use mini_deploy.Fullstack.Release.Start.{
  Start, migrate_backend, prepare_release, read_logs, start_and_verify_fullstack_release,
  start_frontend, start_on_port, start_prepared, start_service, unless_failed, verify_release,
  verify_service,
}
use mini_deploy.Fullstack.Publish.{start_or_clean_up}
use mini_deploy.Fullstack.Redeploy.{build_fullstack_candidate}
use mini_deploy.Fullstack.Rollback.{check_images, start_named, start_returning}

module _ (v : World) where
  each :
      (P : DeploymentServiceRecord → Type 0) (ss : List DeploymentServiceRecord)
      → ((s : DeploymentServiceRecord) → P s)
      → All P ss
  each P [] h = tt
  each P (s ∷ ss) h = (h s, each P ss h)

  pub cleanup-Unchanged :
      (r : DeploymentRecord) (images : Bool)
      → Keeps (Unchanged v) (cleanup_fullstack_release r images)
  cleanup-Unchanged r true = cleanup-Keeps (calm-Unchanged v) r true (record {
    network = Unchanged-event v _;
    containers = each _ r.services λ s. Unchanged-event v _;
    each_image = each _ r.services λ s h. Unchanged-event v _;
  })
  cleanup-Unchanged r false = cleanup-Keeps (calm-Unchanged v) r false (record {
    network = Unchanged-event v _;
    containers = each _ r.services λ s. Unchanged-event v _;
    each_image = tt;
  })

  migrate_backend-Unchanged :
      (r : DeploymentRecord) (runtime : DatabaseRuntime) (o : Option DeploymentServiceRecord)
      → Keeps (Unchanged v) (migrate_backend r runtime o)
  unfolding migrate_backend
  migrate_backend-Unchanged r runtime none = Keeps-fail _
  migrate_backend-Unchanged r runtime (some s) = migration-Unchanged v _ _ _ _ runtime

  prepare_release-Unchanged :
      (r : DeploymentRecord) (environment : Environment)
      → Keeps (Unchanged v) (prepare_release r environment)
  unfolding prepare_release
  prepare_release-Unchanged r environment =
      Keeps-bind _ _ (resolve-Unchanged v r environment) λ runtime.
        Keeps-bind _ _ (migrate_backend-Unchanged r runtime _) λ _.
          Keeps-bind _ _ (create_network-Keeps (calm-Unchanged v) r.app r.network)
            λ _. Keeps-pure runtime

  start_on_port-Unchanged :
      (runtime : DatabaseRuntime) (name : Text) (r : DeploymentRecord) (port : Result ℤ)
      → Keeps (Unchanged v) (start_on_port runtime name r port)
  unfolding start_on_port
  start_on_port-Unchanged runtime name r (err e) = Keeps-pure _
  start_on_port-Unchanged runtime name r (ok port) =
      Keeps-bind _ _ (Keeps-try _ (start_with_options-Unchanged v _ _ _ _ _ _ _ _ _))
        λ started. Keeps-pure _

  if_found-Unchanged :
      (r : DeploymentRecord) (o : Option DeploymentServiceRecord) (next : Io Start)
      → Keeps (Unchanged v) next
      → Keeps {A = Start} (Unchanged v) (elim o [
        | none ↦ pure (record { release = r; outcome = err missing_service })
        | some s ↦ next
      ])
  if_found-Unchanged r none next k = Keeps-pure _
  if_found-Unchanged r (some s) next k = k

  start_service-Unchanged :
      (runtime : DatabaseRuntime) (name : Text) (r : DeploymentRecord)
      → Keeps (Unchanged v) (start_service runtime name r)
  unfolding start_service
  start_service-Unchanged runtime name r = if_found-Unchanged r (find_service name r.services) _ (
      Keeps-bind _ _ (Keeps-try _ (find_deploy_port-Unchanged v))
        λ port. start_on_port-Unchanged runtime name r port)

  unless_failed-Unchanged :
      (next : DeploymentRecord → Io Start) (r : DeploymentRecord) (o : Result (Unit {0}))
      → Keeps (Unchanged v) (next r)
      → Keeps (Unchanged v) (unless_failed next r o)
  unless_failed-Unchanged next r (ok u) k = k
  unless_failed-Unchanged next r (err e) k = Keeps-pure _

  read_logs-Unchanged : (container : Text) → Keeps (Unchanged v) (read_logs container)
  unfolding read_logs
  read_logs-Unchanged container = Keeps-ignore _ (Unchanged-run v _ _)

  verify_service-Unchanged :
      (r : DeploymentRecord) (name : Text) → Keeps (Unchanged v) (verify_service r name)
  unfolding verify_service
  verify_service-Unchanged r name =
      Keeps-bind _ _ (on_error-Unchanged v _ _ (startup-Unchanged v _) (read_logs-Unchanged _))
        λ _. on_error-Unchanged v _ _ (health-Unchanged v _ _) (read_logs-Unchanged _)

  verify_release-Unchanged : (r : DeploymentRecord) → Keeps (Unchanged v) (verify_release r)
  unfolding verify_release
  verify_release-Unchanged r =
      Keeps-bind _ _
        (Keeps-try _
          (Keeps-bind _ _ (verify_service-Unchanged r _) λ _. verify_service-Unchanged r _))
        λ verified. Keeps-pure _

  start_frontend-Unchanged :
      (runtime : DatabaseRuntime) (r : DeploymentRecord)
      → Keeps (Unchanged v) (start_frontend runtime r)
  unfolding start_frontend
  start_frontend-Unchanged runtime r = Keeps-bind _ _ (start_service-Unchanged runtime _ r) λ s.
      unless_failed-Unchanged verify_release s.release s.outcome
        (verify_release-Unchanged s.release)

  start_prepared-Unchanged :
      (r : DeploymentRecord) (runtime : Result DatabaseRuntime)
      → Keeps (Unchanged v) (start_prepared r runtime)
  start_prepared-Unchanged r (err e) = Keeps-pure _
  start_prepared-Unchanged r (ok runtime) =
      Keeps-bind _ _ (start_service-Unchanged runtime _ r) λ s.
        unless_failed-Unchanged (start_frontend runtime) s.release s.outcome
          (start_frontend-Unchanged runtime s.release)

  pub start_or_clean_up-Unchanged :
      (r : DeploymentRecord) (environment : Environment) (images : Bool)
      → Keeps (Unchanged v) (start_or_clean_up r environment images)
  unfolding start_or_clean_up start_and_verify_fullstack_release
  start_or_clean_up-Unchanged r environment images =
      Keeps-bind _ _
        (Keeps-bind _ _ (Keeps-try _ (prepare_release-Unchanged r environment))
          λ runtime. start_prepared-Unchanged r runtime)
        λ s.
          Keeps-bind _ _
            (on_error-Unchanged v _ _ (Keeps-lift _)
              (Keeps-ignore _ (cleanup-Unchanged s.release images)))
            λ _. Keeps-pure _

  remove_built-Unchanged :
      (app : Text) (built : List DeploymentServiceRecord)
      → Keeps (Unchanged v) (remove_built app built)
  unfolding remove_built
  remove_built-Unchanged app [] = Keeps-pure tt
  remove_built-Unchanged app (s ∷ ss) =
      Keeps-bind _ _
        (Keeps-ignore _ (
          remove_fullstack_image-Keeps (calm-Unchanged v) app s.name s.image
            λ e. Unchanged-event v _))
        λ _. remove_built-Unchanged app ss

  build_service-Unchanged :
      (plan : ProjectPlan) (name : Text) (built also : List DeploymentServiceRecord)
      (r : DeploymentRecord)
      → Keeps (Unchanged v) (build_service plan name built also r)
  unfolding build_service
  build_service-Unchanged plan name built also r =
      Keeps-bind _ _
        (on_error-Unchanged v _ _ (build_image-Unchanged v _ _ _)
          (remove_built-Unchanged r.app built))
        λ _.
          Keeps-bind _ _
            (on_error-Unchanged v _ _ (image_id-Unchanged v _) (remove_built-Unchanged r.app also))
            λ id. Keeps-pure _

  pub build_fullstack_release-Unchanged :
      (r : DeploymentRecord) (plan : ProjectPlan)
      → Keeps (Unchanged v) (build_fullstack_release r plan)
  unfolding build_fullstack_release
  build_fullstack_release-Unchanged r plan =
      Keeps-bind _ _ (build_service-Unchanged plan _ _ _ r)
        λ s. build_service-Unchanged plan _ _ _ s

  pub candidate-Unchanged :
      (old : DeploymentRecord) (environment : Environment) (release : Text) (path : FilePath)
      → Keeps (Unchanged v) (build_fullstack_candidate old environment release path)
  unfolding build_fullstack_candidate
  candidate-Unchanged old environment release path = Keeps-bind _ _ (Unchanged-run v _ _) λ _.
      Keeps-bind _ _ (inspect_source-Unchanged v _ _) λ source.
        Keeps-bind _ _ (Keeps-gets _) λ disk. Keeps-bind _ _ (Keeps-gets _) λ beyond.
          Keeps-bind _ _ (Keeps-lift _) λ plan. Keeps-bind _ _ (Keeps-lift _) λ r.
            Keeps-bind _ _ (build_fullstack_release-Unchanged r plan)
              λ built. start_or_clean_up-Unchanged _ environment true

  check_images-Unchanged :
      (app : Text) (ss : List DeploymentServiceRecord) → Keeps (Unchanged v) (check_images app ss)
  unfolding check_images
  check_images-Unchanged app [] = Keeps-pure tt
  check_images-Unchanged app (s ∷ ss) =
      Keeps-bind _ _ (Keeps-lift _)
        λ _. Keeps-bind _ _ (Unchanged-run v _ _) λ _. check_images-Unchanged app ss

  pub start_returning-Unchanged :
      (current previous : DeploymentRecord) (environment : Environment)
      → Keeps (Unchanged v) (start_returning current previous environment)
  unfolding start_returning start_named
  start_returning-Unchanged current previous environment = Keeps-bind _ _ (Keeps-lift _) λ _.
      Keeps-bind _ _ (check_images-Unchanged current.app previous.services) λ _.
        Keeps-bind _ _ (Keeps-gets _) λ release. Keeps-bind _ _ (Keeps-lift _) λ network.
          Keeps-bind _ _ (Keeps-lift _) λ services.
            Keeps-bind _ _ (Keeps-lift _) λ _. start_or_clean_up-Unchanged _ environment false
