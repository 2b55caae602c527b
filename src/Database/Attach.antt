-- ===== src/Database/Attach.antt =====
-- attachDatabaseToDeployment of app/minibase_lifecycle.go. The attachment mutex is held throughout, and what it
-- calls takes the deploy mutex.
pub mod Laws
use mini_deploy.Prelude.{Bool, true, false, not, Option, none, some, [], ◌∷◌, if◌then◌else◌}
use mini_deploy.Text.{Text, ◌==◌}
use mini_deploy.Records.{DatabaseAttachmentRecord, DeploymentRecord}
use mini_deploy.Result.{
  Result, ok, err, Error, database_conflict, lifecycle_attachment_mismatch,
  lifecycle_deployment_unavailable, lifecycle_not_detached, lifecycle_unsupported,
  mini_base_database_unavailable, mini_base_operation,
}
use mini_deploy.Environment
use mini_deploy.MiniBase
use mini_deploy.MiniBase.{binding_primary}
use mini_deploy.MiniBase.Data.{MiniBaseDatabase}
use mini_deploy.Store
use mini_deploy.Proxy.{sync_proxy_routes}
use mini_deploy.Database.{
  available_existing_mini_base_database, current_database_attachment, deployment_supports_mini_base,
  has_database_url, reported,
}
use mini_deploy.Database.Service.{
  start_deployment_after_database_attach, stop_deployment_for_database_detach,
}
use mini_deploy.Fullstack.Platform.{platform}
use mini_deploy.Fullstack.Status.{deployment_project_status, running}
use mini_deploy.Lifecycle.Delete.{get_deployment}
use mini_deploy.Lifecycle.Redeploy.{safe_redeploy}
use mini_deploy.World.{Io, Environment as Values, pure, fail, lift, try, ignore, ◌>>=◌, ◌>>◌}
use mini_deploy.World.Handle.{on_error}

-- An error of the look for the database is one of two.
abbrev pub unavailable_or_operation : Result MiniBaseDatabase → Result MiniBaseDatabase
unavailable_or_operation (ok database) = ok database
unavailable_or_operation (err mini_base_database_unavailable) = err mini_base_database_unavailable
unavailable_or_operation (err e) = err mini_base_operation

abbrev pub attachment_record : Text → MiniBaseDatabase → DatabaseAttachmentRecord
attachment_record attachment_id database = record {
  attachment_id = attachment_id;
  database_id = database.id;
  display_name = database.display_name;
  binding_name = binding_primary;
}

unfoldable pub attach_available : Text → Text → Io DatabaseAttachmentRecord
attach_available app database_id = do
  looked ← try (available_existing_mini_base_database database_id)
  database ← lift (unavailable_or_operation looked)
  created ← try (MiniBase.create_attachment database.id app)
  attachment ← lift (reported created mini_base_operation)
  pure (attachment_record attachment.id database)

-- The checks that a record without an attachment goes through.
abbrev pub refuse_attached : Option DatabaseAttachmentRecord → Result (Unit {0})
refuse_attached none = ok tt
refuse_attached (some a) = err lifecycle_attachment_mismatch

abbrev pub refuse_url : Values → Result (Unit {0})
refuse_url environment = if has_database_url environment then err database_conflict else ok tt

unfoldable pub check_unattached : DeploymentRecord → Io (Unit {0})
check_unattached latest = do
  found ← lift (current_database_attachment latest)
  lift (refuse_attached found)
  environment ← Environment.load latest.app
  lift (refuse_url environment)

-- The new attachment goes again. Where MiniBase keeps it, so does the record.
abbrev kept_attachment : DeploymentRecord → Result (Unit {0}) → Io (Unit {0})
kept_attachment attached (ok _) = pure tt
kept_attachment attached (err e) = ignore (Store.save attached) >> fail mini_base_operation

unfoldable pub compensate : DeploymentRecord → Text → Io (Unit {0})
compensate attached attachment_id =
    try (MiniBase.delete_attachment attachment_id) >>= kept_attachment attached

abbrev pub ended :
    DeploymentRecord → DeploymentRecord → Text → Result DeploymentRecord → Io DeploymentRecord
ended latest attached attachment_id (ok updated) = pure updated
ended latest attached attachment_id (err e) =
    compensate attached attachment_id >> Store.save latest >> fail e

unfoldable pub attach_and_redeploy :
    DeploymentRecord → DatabaseAttachmentRecord → Io DeploymentRecord
attach_and_redeploy latest a = do
  let attached = record latest { database_attachments = a ∷ [] }
  on_error (Store.save attached) (compensate attached a.attachment_id)
  redeployed ← try (safe_redeploy platform attached none)
  ended latest attached a.attachment_id redeployed

-- The rest of attachDatabaseToRunningDeployment, for a record that is not detached.
unfoldable pub attach_while_running : DeploymentRecord → Text → Io DeploymentRecord
unfolding ◌==◌
attach_while_running latest database_id = do
  status ← deployment_project_status latest
  if not (status == running) then fail lifecycle_deployment_unavailable else do
    check_unattached latest
    a ← attach_available latest.app database_id
    attach_and_redeploy latest a

unfoldable pub attach_database_to_running_deployment : Text → Text → Io DeploymentRecord
attach_database_to_running_deployment app database_id = do
  latest ← get_deployment app
  if not (deployment_supports_mini_base latest)
      then fail lifecycle_unsupported
      else if latest.database_detached
      then fail lifecycle_not_detached
      else attach_while_running latest database_id

unfoldable pub forget_attachment : Text → Io (Unit {0})
forget_attachment attachment_id = ignore (MiniBase.delete_attachment attachment_id)

-- What follows a failed synchronisation: the detached record is stored and served, and the release goes.
unfoldable pub withdraw : DeploymentRecord → DeploymentRecord → Text → Io (Unit {0})
withdraw latest started attachment_id = do
  ignore (Store.save latest)
  ignore sync_proxy_routes
  ignore (stop_deployment_for_database_detach started)
  forget_attachment attachment_id

abbrev pub with_database : DeploymentRecord → DatabaseAttachmentRecord → DeploymentRecord
with_database latest a = record latest { database_detached = false; database_attachments = a ∷ [] }

unfoldable pub restart_with_database :
    DeploymentRecord → DatabaseAttachmentRecord → Io DeploymentRecord
restart_with_database latest a = do
  started ←
      on_error (start_deployment_after_database_attach (with_database latest a))
        (forget_attachment a.attachment_id)
  on_error (Store.save started)
      (ignore (stop_deployment_for_database_detach started) >> forget_attachment a.attachment_id)
  on_error sync_proxy_routes (withdraw latest started a.attachment_id)
  pure started

unfoldable pub attach_database_to_detached_deployment : Text → Text → Io DeploymentRecord
attach_database_to_detached_deployment app database_id = do
  latest ← get_deployment app
  if not (deployment_supports_mini_base latest)
      then fail lifecycle_unsupported
      else if not latest.database_detached
      then fail lifecycle_not_detached
      else do
        check_unattached latest
        a ← attach_available latest.app database_id
        restart_with_database latest a

unfoldable pub attach_database_to_deployment : Text → Text → Io DeploymentRecord
attach_database_to_deployment app database_id = do
  latest ← get_deployment app
  if latest.database_detached
      then attach_database_to_detached_deployment app database_id
      else attach_database_to_running_deployment app database_id
