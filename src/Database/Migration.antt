-- ===== src/Database/Migration.antt =====
-- runReactorLabMigration and detachMiniBaseAttachment of app/database_integration.go.
use mini_deploy.Prelude.{ℕ, Bool, not, Option, none, some, ◌++◌, if◌then◌else◌}
use mini_deploy.Text.{Text, codes, ◌==◌, is_empty, decimal}
use mini_deploy.Records.{DatabaseAttachmentRecord, DeploymentRecord}
use mini_deploy.Result.{Error}
use mini_deploy.Strategy
use mini_deploy.Docker.{
  remove_container, temporary_docker_env_file, validate_reactor_lab_data_network,
}
use mini_deploy.World.{Io, Event.run_migration_container, run, pure, fail, lift, gets, ◌>>=◌, ◌>>◌}
use mini_deploy.World.Handle.{on_error}
use mini_deploy.MiniBase
use mini_deploy.Database.{DatabaseRuntime, current_database_attachment}

abbrev pub migration_container : Text → ℕ → Text
migration_container app stamp = codes "minideploy-" ++ app ++ codes "-migration-" ++ decimal stamp

-- The container of the migration, which is removed where it fails.
unfoldable pub run_migration_in : Text → Text → Io (Unit {0})
run_migration_in container image =
    on_error (run (run_migration_container container image) Error.run_migration)
      (remove_container container)
    >> pure tt

-- What runReactorLabMigration does for a migration that is declared. Its temporary environment file is left out behind its creation.
unfoldable pub migrate : Text → Text → DatabaseRuntime → Io (Unit {0})
migrate app image runtime = do
  validate_reactor_lab_data_network
  temporary_docker_env_file app runtime.environment
  stamp ← gets (λ w. w.host.now w.trace)
  run_migration_in (migration_container app stamp) image

unfoldable pub run_reactor_lab_migration :
    Text → Text → Text → Bool → DatabaseRuntime → Io (Unit {0})
unfolding ◌==◌
run_reactor_lab_migration app image package_manager declared runtime =
    if not declared
    then pure tt
    else if is_empty runtime.data_network
    then fail Error.run_migration
    else if not (package_manager == Strategy.npm)
    then fail Error.run_migration
    else migrate app image runtime

abbrev detach_found : Option DatabaseAttachmentRecord → Io (Unit {0})
detach_found none = pure tt
detach_found (some attachment) = MiniBase.delete_attachment attachment.attachment_id

unfoldable pub detach_mini_base_attachment : DeploymentRecord → Io (Unit {0})
detach_mini_base_attachment r = do found ← lift (current_database_attachment r); detach_found found
