-- ===== src/Database/Detach.antt =====
-- detachDatabaseFromDeployment of app/minibase_lifecycle.go. The deploy mutex is held throughout.
pub mod Laws
use mini_deploy.Prelude.{true, ◌||◌, not, Option, none, some, [], if◌then◌else◌}
use mini_deploy.Text.{Text, ◌==◌}
use mini_deploy.Records.{DatabaseAttachmentRecord, DeploymentRecord}
use mini_deploy.Result.{
  lifecycle_attachment_mismatch, lifecycle_not_attached, lifecycle_unsupported, mini_base_operation,
}
use mini_deploy.MiniBase
use mini_deploy.Store
use mini_deploy.Proxy.{sync_proxy_routes}
use mini_deploy.Database.{current_database_attachment, deployment_supports_mini_base, reported}
use mini_deploy.Database.Service.{stop_deployment_for_database_detach}
use mini_deploy.Lifecycle.Delete.{get_deployment}
use mini_deploy.World.{Io, pure, fail, lift, try, ignore, ◌>>=◌, ◌>>◌}
use mini_deploy.World.Handle.{on_error}

-- The record is stored as detached, and Caddy sends it no more traffic, or the record is stored as before.
unfoldable pub leave_service : DeploymentRecord → Io DeploymentRecord
leave_service latest = if latest.database_detached then pure latest else do
  let detached = record latest { database_detached = true }
  Store.save detached
  on_error sync_proxy_routes (ignore (Store.save latest) >> ignore sync_proxy_routes)
  pure detached

-- MiniBase forgets the attachment only behind the containers.
unfoldable pub release_attachment : DeploymentRecord → Text → Io (Unit {0})
release_attachment detached attachment_id = do
  stop_deployment_for_database_detach detached
  deleted ← try (MiniBase.delete_attachment attachment_id)
  lift (reported deleted mini_base_operation)

abbrev pub without_database : DeploymentRecord → DeploymentRecord
without_database r = record r { database_attachments = []; database_detached = true }

unfoldable pub detach_attached : DeploymentRecord → Text → Io (Unit {0})
detach_attached latest attachment_id = do
  detached ← leave_service latest
  release_attachment detached attachment_id
  Store.save (without_database detached)

unfoldable pub detach_current :
    DeploymentRecord → Text → Text → Option DatabaseAttachmentRecord → Io (Unit {0})
unfolding ◌==◌
detach_current latest database_id attachment_id none =
    if latest.database_detached then pure tt else fail lifecycle_not_attached
detach_current latest database_id attachment_id (some a) =
    if not (a.database_id == database_id) || not (a.attachment_id == attachment_id)
    then fail lifecycle_attachment_mismatch
    else detach_attached latest a.attachment_id

unfoldable pub detach_database_from_deployment : Text → Text → Text → Io (Unit {0})
detach_database_from_deployment app database_id attachment_id = do
  latest ← get_deployment app
  if not (deployment_supports_mini_base latest) then fail lifecycle_unsupported else do
    found ← lift (current_database_attachment latest)
    detach_current latest database_id attachment_id found
