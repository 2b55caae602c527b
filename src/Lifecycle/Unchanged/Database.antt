-- ===== src/Lifecycle/Unchanged/Database.antt =====
-- The database of an application, and its migration, do not change the stored deployments.
use mini_deploy.Prelude.{Bool, Option, none, some, List}
use mini_deploy.Text.{Text}
use mini_deploy.Records.{DatabaseAttachmentRecord, DeploymentRecord}
use mini_deploy.World.{World, Environment, Host, Event, ask}
use mini_deploy.World.Keeps.{
  Keeps, Keeps-bind, Keeps-if, Keeps-pure, Keeps-fail, Keeps-lift, Keeps-gets, Keeps-ask,
  keeps_rules,
}
use mini_deploy.MiniBase
use mini_deploy.MiniBase.{do_json, load_mini_base_token}
use mini_deploy.MiniBase.Data.{Reply}
use mini_deploy.Database.{
  available_existing_mini_base_database, create_existing_mini_base_attachment, DatabaseRuntime,
  connect, resolve_attached, resolve_found, resolve_database_runtime,
}
use mini_deploy.Database.Migration.{run_migration_in, migrate, run_reactor_lab_migration}
use mini_deploy.Lifecycle.Unchanged.{Unchanged, Unchanged-run, Unchanged-event}
use mini_deploy.Lifecycle.Unchanged.Containers.{
  on_error-Unchanged, remove_container-Unchanged, network-Unchanged, env_file-Unchanged,
}

module _ (v : World) where
  ask-Unchanged {ℓ} :
      {A : Type ℓ} (reply : Host → List Event → Event → Option A) (e : Event)
      → Keeps (Unchanged v) (ask reply e)
  ask-Unchanged reply e = Keeps-ask reply e (Unchanged-event v e)

  token-Unchanged : Keeps (Unchanged v) load_mini_base_token
  unfolding load_mini_base_token
  token-Unchanged = search (keeps_rules, Unchanged-run v)

  pub do_json-Unchanged {ℓ} :
      {A : Type ℓ} (has_output : Bool) (zero : A)
      (reply : Host → List Event → Event → Option (Reply A)) (e : Event)
      → Keeps (Unchanged v) (do_json has_output zero reply e)
  unfolding do_json
  do_json-Unchanged has_output zero reply e =
      Keeps-bind _ _ token-Unchanged
        λ _. Keeps-bind _ _ (ask-Unchanged reply e) λ answer. Keeps-lift _

  resolve_binding-Unchanged : (id : Text) → Keeps (Unchanged v) (MiniBase.resolve_binding id)
  unfolding MiniBase.resolve_binding
  resolve_binding-Unchanged id =
      Keeps-if _ _ _ (Keeps-fail _) (
        Keeps-bind _ _ (do_json-Unchanged _ _ _ _)
          λ b. Keeps-if _ _ _ (Keeps-pure _) (Keeps-fail _))

  resolve_found-Unchanged :
      (r : DeploymentRecord) (environment : Environment) (found : Option DatabaseAttachmentRecord)
      → Keeps (Unchanged v) (resolve_found r environment found)
  unfolding resolve_attached connect
  resolve_found-Unchanged r environment none = Keeps-pure _
  resolve_found-Unchanged r environment (some a) = Keeps-if _ _ _ (Keeps-fail _) (
      Keeps-bind _ _ (Keeps-lift _) λ _.
        Keeps-bind _ _ (resolve_binding-Unchanged _)
          λ b. Keeps-if _ _ _ (Keeps-fail _) (Keeps-bind _ _ (Keeps-gets _) λ u. Keeps-pure _))

  pub resolve-Unchanged :
      (r : DeploymentRecord) (environment : Environment)
      → Keeps (Unchanged v) (resolve_database_runtime r environment)
  unfolding resolve_database_runtime
  resolve-Unchanged r environment =
      Keeps-bind _ _ (Keeps-lift _) λ found. resolve_found-Unchanged r environment found

  run_migration_in-Unchanged :
      (container image : Text) → Keeps (Unchanged v) (run_migration_in container image)
  unfolding run_migration_in
  run_migration_in-Unchanged container image =
      Keeps-bind _ _
        (on_error-Unchanged v _ _ (Unchanged-run v _ _) (remove_container-Unchanged v container))
        λ _. Keeps-pure _

  migrate-Unchanged :
      (app image : Text) (r : DatabaseRuntime) → Keeps (Unchanged v) (migrate app image r)
  unfolding migrate
  migrate-Unchanged app image r = Keeps-bind _ _ (network-Unchanged v) λ _.
      Keeps-bind _ _ (env_file-Unchanged v app r.environment)
        λ _. Keeps-bind _ _ (Keeps-gets _) λ now. run_migration_in-Unchanged _ image

  pub migration-Unchanged :
      (app image manager : Text) (declared : Bool) (r : DatabaseRuntime)
      → Keeps (Unchanged v) (run_reactor_lab_migration app image manager declared r)
  unfolding run_reactor_lab_migration
  migration-Unchanged app image manager declared r = search (keeps_rules, migrate-Unchanged)

  pub delete_attachment-Unchanged :
      (id : Text) → Keeps (Unchanged v) (MiniBase.delete_attachment id)
  unfolding MiniBase.delete_attachment
  delete_attachment-Unchanged id = search (keeps_rules, do_json-Unchanged)

  pub create_attachment-Unchanged :
      (id app : Text) → Keeps (Unchanged v) (MiniBase.create_attachment id app)
  unfolding MiniBase.create_attachment
  create_attachment-Unchanged id app = search (keeps_rules, do_json-Unchanged)

  list_databases-Unchanged : Keeps (Unchanged v) MiniBase.list_databases
  unfolding MiniBase.list_databases
  list_databases-Unchanged = search (keeps_rules, do_json-Unchanged)

  pub available-Unchanged :
      (id : Text) → Keeps (Unchanged v) (available_existing_mini_base_database id)
  unfolding available_existing_mini_base_database
  available-Unchanged id = search (keeps_rules, list_databases-Unchanged)

  pub create_existing-Unchanged :
      (app id : Text) → Keeps (Unchanged v) (create_existing_mini_base_attachment app id)
  unfolding create_existing_mini_base_attachment
  create_existing-Unchanged app id =
      search (keeps_rules, available-Unchanged, create_attachment-Unchanged)
