-- ===== src/Database/Handlers.antt =====
-- The handlers of the database lifecycle in app/minibase_lifecycle.go. A request is its bearer token and the
-- value that its body decodes to, if it does; a response is its status and its value.
use mini_deploy.Prelude.{
  ℕ, Bool, true, false, ◌&&◌, ◌||◌, not, Option, none, some, List, [], ◌∷◌, if◌then◌else◌,
}
use mini_deploy.Text.{Text, codes, ◌==◌, has_prefix, trim_prefix}
use mini_deploy.Records.{DatabaseAttachmentRecord, DeploymentRecord}
use mini_deploy.Result.{
  Result, ok, err, Error, deployment_not_found, lifecycle_attachment_mismatch,
  lifecycle_deployment_unavailable, lifecycle_not_attached, lifecycle_not_detached,
  lifecycle_unsupported, mini_base_database_unavailable, mini_base_operation,
}
use mini_deploy.Config.{normalize_deployment_record}
use mini_deploy.MiniBase.{matches_attachment_id, matches_database_id}
use mini_deploy.Store
use mini_deploy.Database.{current_database_attachment, deployment_supports_mini_base}
use mini_deploy.Database.Attach.{attach_database_to_deployment}
use mini_deploy.Database.Detach.{detach_database_from_deployment}
use mini_deploy.Fullstack.Status.{deployment_project_status}
use mini_deploy.World.{Io, pure, lift, try, ◌>>=◌}

pub record DetachRequest : Type 0 where
  pub database_id : Text
  pub attachment_id : Text

pub record AttachRequest : Type 0 where
  pub database_id : Text

pub record DeploymentItem : Type 0 where
  pub app : Text
  pub supported : Bool
  pub status : Text
  pub database_attached : Bool
  pub database_detached : Bool
  pub database_id : Text

abbrev status_bad_request : ℕ
status_bad_request = 400

abbrev pub status_unauthorized : ℕ
status_unauthorized = 401

abbrev pub status_no_content : ℕ
status_no_content = 204

-- miniBaseLifecycleAuthorized: `expected` is the token, where it could be loaded, and `header` the
-- Authorization of the request.
unfoldable pub mini_base_lifecycle_authorized : Option Text → Text → Bool
unfolding ◌==◌ has_prefix trim_prefix
mini_base_lifecycle_authorized none header = false
mini_base_lifecycle_authorized (some expected) header =
    has_prefix header (codes "Bearer ") && trim_prefix header (codes "Bearer ") == expected

-- writeMiniBaseLifecycleError
abbrev pub lifecycle_status : Error → ℕ
lifecycle_status deployment_not_found = 404
lifecycle_status lifecycle_unsupported = 422
lifecycle_status lifecycle_not_attached = 409
lifecycle_status lifecycle_attachment_mismatch = 409
lifecycle_status lifecycle_not_detached = 409
lifecycle_status lifecycle_deployment_unavailable = 409
lifecycle_status mini_base_database_unavailable = 409
lifecycle_status mini_base_operation = 502
lifecycle_status _ = 500

abbrev responded {ℓ} : {A : Type ℓ} → Result A → ℕ
responded (ok a) = status_no_content
responded (err e) = lifecycle_status e

abbrev pub detach_request : Text → Option DetachRequest → Io ℕ
detach_request app none = pure status_bad_request
detach_request app (some input) =
    if not (matches_database_id input.database_id)
      || not (matches_attachment_id input.attachment_id)
    then pure status_bad_request
    else do
      done ← try (detach_database_from_deployment app input.database_id input.attachment_id)
      pure (responded done)

unfoldable pub mini_base_lifecycle_detach_handler :
    Option Text → Text → Text → Option DetachRequest → Io ℕ
mini_base_lifecycle_detach_handler expected header app input =
    if not (mini_base_lifecycle_authorized expected header)
    then pure status_unauthorized
    else detach_request app input

abbrev pub attach_request : Text → Option AttachRequest → Io ℕ
attach_request app none = pure status_bad_request
attach_request app (some input) =
    if not (matches_database_id input.database_id)
    then pure status_bad_request
    else do done ← try (attach_database_to_deployment app input.database_id); pure (responded done)

unfoldable pub mini_base_lifecycle_attach_handler :
    Option Text → Text → Text → Option AttachRequest → Io ℕ
mini_base_lifecycle_attach_handler expected header app input =
    if not (mini_base_lifecycle_authorized expected header)
    then pure status_unauthorized
    else attach_request app input

abbrev is_attached : Option DatabaseAttachmentRecord → Bool
is_attached none = false
is_attached (some a) = true

abbrev attached_id : Option DatabaseAttachmentRecord → Text
attached_id none = []
attached_id (some a) = a.database_id

-- The body of the loop over the deployments.
unfoldable pub deployment_item : DeploymentRecord → Io DeploymentItem
deployment_item record_of_app = do
  let r = normalize_deployment_record record_of_app
  found ← lift (current_database_attachment r)
  status ← deployment_project_status r
  pure (record {
    app = r.app;
    supported = deployment_supports_mini_base r;
    status = status;
    database_attached = is_attached found;
    database_detached = r.database_detached;
    database_id = attached_id found;
  })

unfoldable pub deployment_items : List DeploymentRecord → Io (List DeploymentItem)
deployment_items [] = pure []
deployment_items (r ∷ rs) = do
  item ← deployment_item r
  items ← deployment_items rs
  pure (item ∷ items)

abbrev listed : Result (List DeploymentItem) → ℕ × List DeploymentItem
listed (ok items) = (200, items)
listed (err e) = (500, [])

unfoldable pub mini_base_lifecycle_deployments_handler :
    Option Text → Text → Io (ℕ × List DeploymentItem)
mini_base_lifecycle_deployments_handler expected header =
    if not (mini_base_lifecycle_authorized expected header)
    then pure (status_unauthorized, [])
    else do items ← try (Store.list >>= deployment_items); pure (listed items)
