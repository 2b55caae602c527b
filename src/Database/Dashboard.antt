-- ===== src/Database/Dashboard.antt =====
-- The database of a deployment in the dashboard: app/minibase_handlers.go. A request is the value that its body
-- decodes to, if it does; a response is a status for an error, or its value. The mutex of the attachments and that
-- of the deployments make each of them one action.
pub mod Laws
use mini_deploy.Prelude.{ℕ, Bool, ◌||◌, not, Option, none, some, List, [], ◌∷◌, if◌then◌else◌}
use mini_deploy.Text.{Text, codes, ◌==◌, is_empty, trim_space}
use mini_deploy.Records.{DatabaseAttachmentRecord, DeploymentRecord}
use mini_deploy.Result.{Result, ok, err, Error, deployment_not_found}
use mini_deploy.Environment
use mini_deploy.MiniBase
use mini_deploy.MiniBase.{binding_primary, matches_database_id}
use mini_deploy.MiniBase.Data.{MiniBaseDatabase}
use mini_deploy.Store
use mini_deploy.Database.{
  available_existing_mini_base_database, current_database_attachment, deployment_supports_mini_base,
  has_database_url,
}
use mini_deploy.Fullstack.Platform.{platform}
use mini_deploy.Lifecycle.Delete.{get_deployment}
use mini_deploy.Lifecycle.Redeploy.{safe_redeploy}
use mini_deploy.World.{Io, pure, lift, try, ignore, ◌>>=◌}
use mini_deploy.World.Handle.{on_error}

pub record DatabaseAttachmentRequest : Type 0 where
  pub mode : Text
  pub display_name : Text
  pub database_id : Text

pub record DatabaseAttachmentStatus : Type 0 where
  pub supported : Bool
  pub attachment : Option DatabaseAttachmentRecord

pub data Response : Type 0 where
  refused : ℕ → Response
  databases : List MiniBaseDatabase → Response
  attachment_status : DatabaseAttachmentStatus → Response
  updated : DeploymentRecord → Response

abbrev pub answered {ℓ} : {A : Type ℓ} → ℕ → (A → Io Response) → Result A → Io Response
answered status next (ok a) = next a
answered status next (err e) = pure (Response.refused status)

-- The function returns the status where `m` fails.
unfoldable pub answer {ℓ} : {A : Type ℓ} → ℕ → Io A → (A → Io Response) → Io Response
answer status m next = try m >>= answered status next

unfoldable pub available_mini_base_databases_handler : Io Response
available_mini_base_databases_handler =
    answer 502 MiniBase.list_databases λ listed. pure (Response.databases listed)

-- The switch on the mode of a request: how the database is had, unless the request is a bad one.
unfoldable pub requested_database : DatabaseAttachmentRequest → Option (Io MiniBaseDatabase)
unfolding ◌==◌ trim_space
requested_database input =
    if input.mode == codes "create"
    then (if is_empty (trim_space input.display_name) || not (is_empty input.database_id)
        then none
        else some (MiniBase.create_database (trim_space input.display_name)))
    else if input.mode == codes "attach"
    then (if not (is_empty input.display_name) || not (matches_database_id input.database_id)
        then none
        else some (available_existing_mini_base_database input.database_id))
    else none

-- From the attachment that MiniBase has made to the redeployment.
unfoldable pub save_and_redeploy : DeploymentRecord → DatabaseAttachmentRecord → Io Response
save_and_redeploy latest a =
    let attached = record latest { database_attachments = a ∷ [] } in
    answer 500
      (on_error (Store.save attached) (ignore (MiniBase.delete_attachment a.attachment_id)))
      λ _. answer 502 (safe_redeploy platform attached none) λ r. pure (Response.updated r)

abbrev pub attach_requested : DeploymentRecord → Option (Io MiniBaseDatabase) → Io Response
attach_requested latest none = pure (Response.refused 400)
attach_requested latest (some opened) = answer 502 opened λ database.
    answer 502 (MiniBase.create_attachment database.id latest.app) λ attachment.
      save_and_redeploy latest (record {
        attachment_id = attachment.id;
        database_id = database.id;
        display_name = database.display_name;
        binding_name = binding_primary;
      })

abbrev pub attach_decoded : DeploymentRecord → Option DatabaseAttachmentRequest → Io Response
attach_decoded latest none = pure (Response.refused 400)
attach_decoded latest (some input) = attach_requested latest (requested_database input)

-- The environment is looked at before the body of the request is.
abbrev pub attach_unattached :
    DeploymentRecord
    → Option DatabaseAttachmentRequest
    → Option DatabaseAttachmentRecord
    → Io Response
attach_unattached latest input (some a) = pure (Response.refused 409)
attach_unattached latest input none = answer 500 (Environment.load latest.app) λ environment.
    if has_database_url environment
    then pure (Response.refused 409)
    else attach_decoded latest input

unfoldable pub attach_mini_base_database : Text → Option DatabaseAttachmentRequest → Io Response
attach_mini_base_database app input = answer 500 (get_deployment app) λ latest.
    if not (deployment_supports_mini_base latest)
    then pure (Response.refused 422)
    else if latest.database_detached
    then pure (Response.refused 409)
    else answer 500 (lift (current_database_attachment latest))
        λ found. attach_unattached latest input found

pub data Method : Type 0 where
  get : Method
  post : Option DatabaseAttachmentRequest → Method
  other : Method

abbrev pub not_loaded : Error → ℕ
not_loaded deployment_not_found = 404
not_loaded _ = 500

abbrev pub deployment_request : Method → Result DeploymentRecord → Io Response
deployment_request method (err e) = pure (Response.refused (not_loaded e))
deployment_request Method.get (ok r) = answer 500 (lift (current_database_attachment r)) λ found.
    pure (
      Response.attachment_status
        (record { supported = deployment_supports_mini_base r; attachment = found }))
deployment_request (Method.post input) (ok r) = attach_mini_base_database r.app input
deployment_request Method.other (ok r) = pure (Response.refused 405)

unfoldable pub deployment_database_handler : Text → Method → Io Response
deployment_database_handler app method = try (get_deployment app) >>= deployment_request method
