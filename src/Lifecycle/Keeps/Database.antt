-- ===== src/Lifecycle/Keeps/Database.antt =====
-- The database of an application does not touch the release in service: a migration removes at most its own
-- container.
use mini_deploy.Prelude.{refl, false, ◌≡◌, Bool, Option, none, some, List}
use mini_deploy.Text.{Text}
use mini_deploy.Records.{DatabaseAttachmentRecord, DeploymentRecord}
use mini_deploy.World.{World, Environment, Host, Event, ask}
use mini_deploy.World.Keeps.{
  Keeps, Keeps-bind, Keeps-if, Keeps-pure, Keeps-fail, Keeps-lift, Keeps-gets, Keeps-gets_of,
  Keeps-ask, keeps_rules,
}
use mini_deploy.MiniBase
use mini_deploy.MiniBase.{do_json, load_mini_base_token}
use mini_deploy.MiniBase.Data.{Reply}
use mini_deploy.Database.{
  DatabaseRuntime, connect, resolve_attached, resolve_found, resolve_database_runtime,
}
use mini_deploy.Database.Migration.{
  migration_container, run_migration_in, migrate, run_reactor_lab_migration,
}
use mini_deploy.Lifecycle.Keeps.{touches, Spares, Spares-run, Spares-event}
use mini_deploy.Lifecycle.Keeps.Containers.{
  on_error-Spares, remove_container-Spares, network-Spares, env_file-Spares,
}

-- At no time does the clock give a migration the name of the container in service.
pub record IsQuiet (old : DeploymentRecord) (host : Host) : Type 0 where
  pub migration :
      (trace : List Event)
      → touches old (Event.docker_rm (migration_container old.app (host.now trace))) ≡ false

module _ (old : DeploymentRecord) (v : World) where
  ask-Spares {ℓ} :
      {A : Type ℓ} (reply : Host → List Event → Event → Option A) (e : Event)
      → touches old e ≡ false
      → Keeps (Spares old v) (ask reply e)
  ask-Spares reply e h = Keeps-ask reply e (Spares-event old v e h)

  token-Spares : Keeps (Spares old v) load_mini_base_token
  unfolding load_mini_base_token
  token-Spares = search (keeps_rules, Spares-run old v)

  do_json-Spares {ℓ} :
      {A : Type ℓ} (has_output : Bool) (zero : A)
      (reply : Host → List Event → Event → Option (Reply A)) (e : Event)
      → touches old e ≡ false
      → Keeps (Spares old v) (do_json has_output zero reply e)
  unfolding do_json
  do_json-Spares has_output zero reply e h =
      Keeps-bind _ _ token-Spares λ _. Keeps-bind _ _ (ask-Spares reply e h) λ answer. Keeps-lift _

  resolve_binding-Spares : (id : Text) → Keeps (Spares old v) (MiniBase.resolve_binding id)
  unfolding MiniBase.resolve_binding
  resolve_binding-Spares id = Keeps-if _ _ _ (Keeps-fail _) (
      Keeps-bind _ _ (do_json-Spares _ _ _ _ refl)
        λ b. Keeps-if _ _ _ (Keeps-pure _) (Keeps-fail _))

  resolve_found-Spares :
      (r : DeploymentRecord) (environment : Environment) (found : Option DatabaseAttachmentRecord)
      → Keeps (Spares old v) (resolve_found r environment found)
  unfolding resolve_attached connect
  resolve_found-Spares r environment none = Keeps-pure _
  resolve_found-Spares r environment (some a) = Keeps-if _ _ _ (Keeps-fail _) (
      Keeps-bind _ _ (Keeps-lift _) λ _.
        Keeps-bind _ _ (resolve_binding-Spares _)
          λ b. Keeps-if _ _ _ (Keeps-fail _) (Keeps-bind _ _ (Keeps-gets _) λ u. Keeps-pure _))

  pub resolve-Spares :
      (r : DeploymentRecord) (environment : Environment)
      → Keeps (Spares old v) (resolve_database_runtime r environment)
  unfolding resolve_database_runtime
  resolve-Spares r environment =
      Keeps-bind _ _ (Keeps-lift _) λ found. resolve_found-Spares r environment found

  run_migration_in-Spares :
      (container image : Text)
      → touches old (Event.docker_rm container) ≡ false
      → Keeps (Spares old v) (run_migration_in container image)
  unfolding run_migration_in
  run_migration_in-Spares container image h =
      Keeps-bind _ _
        (on_error-Spares old v _ _ (Spares-run old v _ _ refl)
          (remove_container-Spares old v container h))
        λ _. Keeps-pure _

  IsQuiet-same_host : IsQuiet old v.host → (w : World) → Spares old v w → IsQuiet old w.host
  IsQuiet-same_host q w s = rw s.host q

  migrate-Spares :
      (image : Text) (r : DatabaseRuntime)
      → IsQuiet old v.host
      → Keeps (Spares old v) (migrate old.app image r)
  unfolding migrate
  migrate-Spares image r q = Keeps-bind _ _ (network-Spares old v) λ _.
      Keeps-bind _ _ (env_file-Spares old v old.app r.environment) λ _. Keeps-gets_of _ _ λ w s.
        run_migration_in-Spares (migration_container old.app (w.host.now w.trace)) image
          ((IsQuiet-same_host q w s).migration w.trace)

  pub migration-Spares :
      (image manager : Text) (declared : Bool) (r : DatabaseRuntime)
      → IsQuiet old v.host
      → Keeps (Spares old v) (run_reactor_lab_migration old.app image manager declared r)
  unfolding run_reactor_lab_migration
  migration-Spares image manager declared r q = search (keeps_rules, migrate-Spares, q)
