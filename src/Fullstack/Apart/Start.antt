-- ===== src/Fullstack/Apart/Start.antt =====
-- The start of a full-stack candidate in app/fullstack_lifecycle.go leaves its record apart from the release in
-- service, and does not touch that release, also where it fails and the candidate is cleaned up.
use mini_deploy.Prelude.{◌≡◌, refl, ℤ, Bool, true, Option, none, some}
use mini_deploy.Text.{Text}
use mini_deploy.Records.{DeploymentRecord, DeploymentServiceRecord}
use mini_deploy.Result.{Result, ok, err, missing_service}
use mini_deploy.Config.{find_service}
use mini_deploy.Detect.Npm.{is_some}
use mini_deploy.Database.{DatabaseRuntime}
use mini_deploy.World.{World, Io, Environment, pure}
use mini_deploy.World.Keeps.{
  Keeps, Keeps-bind, Keeps-bind_of, Keeps-fail, Keeps-ignore, Keeps-lift, Keeps-pure, Keeps-try,
}
use mini_deploy.World.Returns.{Returns, returned, Returns-bind, Returns-pure, Returns-then}
use mini_deploy.Lifecycle.Keeps.{Spares, Spares-run, calm-Spares}
use mini_deploy.Lifecycle.Keeps.Containers.{
  find_deploy_port-Spares, health-Spares, on_error-Spares, start_with_options-Spares,
  startup-Spares,
}
use mini_deploy.Lifecycle.Keeps.Database.{IsQuiet, migration-Spares, resolve-Spares}
use mini_deploy.Fullstack.Resources.{cleanup_fullstack_release}
use mini_deploy.Fullstack.Resources.Keeps.{cleanup-Keeps, create_network-Keeps}
use mini_deploy.Fullstack.Publish.{start_or_clean_up}
use mini_deploy.Fullstack.Release.Start.{
  Start, end_start, migrate_backend, prepare_release, read_logs, start_and_verify_fullstack_release,
  start_frontend, start_on_port, start_prepared, start_service, unless_failed, verify_release,
  verify_service, with_port,
}
use mini_deploy.Fullstack.Apart.{
  Apart, Apart-Removable, OtherContainer, is_some-update_service, normalize-Apart, service-All,
  with_port-Apart,
}

module _ (old : DeploymentRecord) (images : Bool) where
  -- The record of a start, whether it failed or not.
  abbrev ApartStart : Start → World → Type 0
  ApartStart s w = Apart old images s.release

  start_on_port-Apart :
      (runtime : DatabaseRuntime) (name : Text) (r : DeploymentRecord) (port : Result ℤ) (w : World)
      → Apart old images r
      → Returns ApartStart (start_on_port runtime name r port) w
  unfolding start_on_port
  start_on_port-Apart runtime name r (err e) w a = Returns-pure _ _ w a
  start_on_port-Apart runtime name r (ok port) w a =
      Returns-then _ _ _ w
        λ started w1. Returns-pure _ _ w1 (with_port-Apart old images name port r a)

  found-Apart :
      (runtime : DatabaseRuntime) (name : Text) (r : DeploymentRecord)
      (o : Option DeploymentServiceRecord) (next : Io Start) (w : World)
      → Apart old images r
      → Returns ApartStart next w
      → Returns ApartStart
          (elim o [
            | none ↦ pure (record { release = r; outcome = err missing_service })
            | some s ↦ next
          ])
          w
  found-Apart runtime name r none next w a k = Returns-pure _ _ w a
  found-Apart runtime name r (some s) next w a k = k

  start_service-Apart :
      (runtime : DatabaseRuntime) (name : Text) (r : DeploymentRecord) (w : World)
      → Apart old images r
      → Returns ApartStart (start_service runtime name r) w
  unfolding start_service
  start_service-Apart runtime name r w a =
      found-Apart runtime name r (find_service name r.services) _ w a
        (Returns-then _ _ _ w λ port w1. start_on_port-Apart runtime name r port w1 a)

  unless_failed-Apart :
      (next : DeploymentRecord → Io Start) (r : DeploymentRecord) (o : Result (Unit {0}))
      (w : World)
      → Apart old images r
      → Returns ApartStart (next r) w
      → Returns ApartStart (unless_failed next r o) w
  unless_failed-Apart next r (ok u) w a k = k
  unless_failed-Apart next r (err e) w a k = Returns-pure _ _ w a

  end_start-Apart :
      (r : DeploymentRecord) (o : Result (Unit {0}))
      → Apart old images r
      → Apart old images (end_start r o).release
  end_start-Apart r (ok u) a = normalize-Apart old images r a
  end_start-Apart r (err e) a = a

  verify_release-Apart :
      (r : DeploymentRecord) (w : World)
      → Apart old images r
      → Returns ApartStart (verify_release r) w
  unfolding verify_release
  verify_release-Apart r w a =
      Returns-then _ _ _ w λ verified w1. Returns-pure _ _ w1 (end_start-Apart r verified a)

  start_frontend-Apart :
      (runtime : DatabaseRuntime) (r : DeploymentRecord) (w : World)
      → Apart old images r
      → Returns ApartStart (start_frontend runtime r) w
  unfolding start_frontend
  start_frontend-Apart runtime r w a =
      Returns-bind ApartStart _ _ _ w (start_service-Apart runtime _ r w a) λ s w1 b.
        unless_failed-Apart verify_release s.release s.outcome w1 b
          (verify_release-Apart s.release w1 b)

  start_prepared-Apart :
      (r : DeploymentRecord) (runtime : Result DatabaseRuntime) (w : World)
      → Apart old images r
      → Returns ApartStart (start_prepared r runtime) w
  start_prepared-Apart r (err e) w a = Returns-pure _ _ w a
  start_prepared-Apart r (ok runtime) w a =
      Returns-bind ApartStart _ _ _ w (start_service-Apart runtime _ r w a) λ s w1 b.
        unless_failed-Apart (start_frontend runtime) s.release s.outcome w1 b
          (start_frontend-Apart runtime s.release w1 b)

  start-Apart :
      (r : DeploymentRecord) (environment : Environment) (w : World)
      → Apart old images r
      → Returns ApartStart (start_and_verify_fullstack_release r environment) w
  unfolding start_and_verify_fullstack_release
  start-Apart r environment w a =
      Returns-then _ _ _ w λ runtime w1. start_prepared-Apart r runtime w1 a

  pub start_or_clean_up-Apart :
      (r : DeploymentRecord) (environment : Environment) (remove_images : Bool) (w : World)
      → Apart old images r
      → Returns (λ s _. Apart old images s) (start_or_clean_up r environment remove_images) w
  unfolding start_or_clean_up
  start_or_clean_up-Apart r environment remove_images w a =
      Returns-bind ApartStart _ _ _ w (start-Apart r environment w a)
        λ s w1 b. Returns-then _ _ _ w1 λ _ w2. Returns-pure _ s.release w2 b

module _ (old : DeploymentRecord) (images : Bool) (v : World) (q : IsQuiet old v.host) where
  migrate_backend-Spares :
      (r : DeploymentRecord) (runtime : DatabaseRuntime) (o : Option DeploymentServiceRecord)
      → r.app ≡ old.app
      → Keeps (Spares old v) (migrate_backend r runtime o)
  unfolding migrate_backend
  migrate_backend-Spares r runtime none h = Keeps-fail _
  migrate_backend-Spares r runtime (some s) h = rw h (migration-Spares old v _ _ _ runtime q)

  prepare_release-Spares :
      (r : DeploymentRecord) (environment : Environment)
      → Apart old images r
      → Keeps (Spares old v) (prepare_release r environment)
  unfolding prepare_release
  prepare_release-Spares r environment a =
      Keeps-bind _ _ (resolve-Spares old v r environment) λ runtime.
        Keeps-bind _ _ (migrate_backend-Spares r runtime _ a.app) λ _.
          Keeps-bind _ _ (create_network-Keeps (calm-Spares old v) r.app r.network)
            λ _. Keeps-pure runtime

  start_on_port-Spares :
      (runtime : DatabaseRuntime) (name : Text) (r : DeploymentRecord) (port : Result ℤ)
      → is_some (find_service name r.services) ≡ true
      → Apart old images r
      → Keeps (Spares old v) (start_on_port runtime name r port)
  unfolding start_on_port
  start_on_port-Spares runtime name r (err e) f a = Keeps-pure _
  start_on_port-Spares runtime name r (ok port) f a =
      let b = with_port-Apart old images name port r a in
      let g = is_some-update_service name (with_port port) r.services (λ s. refl) in
      Keeps-bind _ _
        (Keeps-try _ (
          start_with_options-Spares old v _ _ _ _ _ _ _ _ _
            (service-All (OtherContainer old) name _ (λ h. cc (h, g, f)) b.containers)))
        λ started. Keeps-pure _

  found-Spares :
      (runtime : DatabaseRuntime) (name : Text) (r : DeploymentRecord)
      (o : Option DeploymentServiceRecord) (next : Io Start)
      → (is_some o ≡ true → Keeps (Spares old v) next)
      → Keeps {A = Start} (Spares old v) (elim o [
        | none ↦ pure (record { release = r; outcome = err missing_service })
        | some s ↦ next
      ])
  found-Spares runtime name r none next k = Keeps-pure _
  found-Spares runtime name r (some s) next k = k refl

  start_service-Spares :
      (runtime : DatabaseRuntime) (name : Text) (r : DeploymentRecord)
      → Apart old images r
      → Keeps (Spares old v) (start_service runtime name r)
  unfolding start_service
  start_service-Spares runtime name r a =
      found-Spares runtime name r (find_service name r.services) _ λ f.
        Keeps-bind _ _ (Keeps-try _ (find_deploy_port-Spares old v))
          λ port. start_on_port-Spares runtime name r port f a

  unless_failed-Spares :
      (next : DeploymentRecord → Io Start) (r : DeploymentRecord) (o : Result (Unit {0}))
      → Keeps (Spares old v) (next r)
      → Keeps (Spares old v) (unless_failed next r o)
  unless_failed-Spares next r (ok u) k = k
  unless_failed-Spares next r (err e) k = Keeps-pure _

  read_logs-Spares : (container : Text) → Keeps (Spares old v) (read_logs container)
  unfolding read_logs
  read_logs-Spares container = Keeps-ignore _ (Spares-run old v _ _ refl)

  verify_service-Spares :
      (r : DeploymentRecord) (name : Text) → Keeps (Spares old v) (verify_service r name)
  unfolding verify_service
  verify_service-Spares r name =
      Keeps-bind _ _ (on_error-Spares old v _ _ (startup-Spares old v _) (read_logs-Spares _))
        λ _. on_error-Spares old v _ _ (health-Spares old v _ _) (read_logs-Spares _)

  verify_release-Spares : (r : DeploymentRecord) → Keeps (Spares old v) (verify_release r)
  unfolding verify_release
  verify_release-Spares r =
      Keeps-bind _ _
        (Keeps-try _ (Keeps-bind _ _ (verify_service-Spares r _) λ _. verify_service-Spares r _))
        λ verified. Keeps-pure _

  start_frontend-Spares :
      (runtime : DatabaseRuntime) (r : DeploymentRecord)
      → Apart old images r
      → Keeps (Spares old v) (start_frontend runtime r)
  unfolding start_frontend
  start_frontend-Spares runtime r a =
      Keeps-bind _ _ (start_service-Spares runtime _ r a) λ s.
        unless_failed-Spares verify_release s.release s.outcome (verify_release-Spares s.release)

  start_prepared-Spares :
      (r : DeploymentRecord) (runtime : Result DatabaseRuntime)
      → Apart old images r
      → Keeps (Spares old v) (start_prepared r runtime)
  start_prepared-Spares r (err e) a = Keeps-pure _
  start_prepared-Spares r (ok runtime) a =
      Keeps-bind_of _ _ (start_service-Spares runtime _ r a) λ w h s e.
        unless_failed-Spares (start_frontend runtime) s.release s.outcome (
          start_frontend-Spares runtime s.release (
            returned (ApartStart old images) _ w s (start_service-Apart old images runtime _ r w a)
              e))

  start-Spares :
      (r : DeploymentRecord) (environment : Environment)
      → Apart old images r
      → Keeps (Spares old v) (start_and_verify_fullstack_release r environment)
  unfolding start_and_verify_fullstack_release
  start-Spares r environment a =
      Keeps-bind _ _ (Keeps-try _ (prepare_release-Spares r environment a))
        λ runtime. start_prepared-Spares r runtime a

  -- The cleanup of a record that is apart.
  pub cleanup-Spares :
      (r : DeploymentRecord)
      → Apart old images r
      → Keeps (Spares old v) (cleanup_fullstack_release r images)
  cleanup-Spares r a = cleanup-Keeps (calm-Spares old v) r images (Apart-Removable old v images r a)

  pub start_or_clean_up-Spares :
      (r : DeploymentRecord) (environment : Environment)
      → Apart old images r
      → Keeps (Spares old v) (start_or_clean_up r environment images)
  unfolding start_or_clean_up
  start_or_clean_up-Spares r environment a =
      Keeps-bind_of _ _ (start-Spares r environment a) λ w h s e.
        let b =
          returned (ApartStart old images) _ w s (start-Apart old images r environment w a) e in
        Keeps-bind _ _
          (on_error-Spares old v _ _ (Keeps-lift _) (Keeps-ignore _ (cleanup-Spares s.release b)))
          λ _. Keeps-pure _
