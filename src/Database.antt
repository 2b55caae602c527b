-- ===== src/Database.antt =====
-- app/database_integration.go: the database that an application has at MiniBase, in its record, in the
-- environment of its container, and in its migration.
pub mod Service
pub mod Detach
pub mod Attach
pub mod Dashboard
pub mod Unchanged
pub mod Handlers
pub mod Laws
pub mod Attachment
pub mod Migration
use mini_deploy.Prelude.{
  ℕ, ℤ, Bool, true, false, ◌&&◌, ◌||◌, not, Option, none, some, List, [], ◌∷◌, ◌++◌, any, eqb, leb,
  keep_if, if◌then◌else◌,
}
use mini_deploy.Text.{Text, codes, ◌==◌, is_empty, trim_space, byte_length, decimal, itoa}
use mini_deploy.Records.{DatabaseAttachmentRecord, DeploymentRecord, DeploymentServiceRecord}
use mini_deploy.Result.{
  Result, ok, err, Error, invalid_attachment, unsupported_database, database_conflict,
  run_migration, mini_base_operation, mini_base_database_unavailable, Error.resolve_binding,
}
use mini_deploy.Strategy
use mini_deploy.Config.{normalize_deployment_record, deployment_service_by_name}
use mini_deploy.Environment.Format.{lookup}
use mini_deploy.Detect.Plan.{ProjectPlan, ServicePlan}
use mini_deploy.Docker.{
  remove_container, temporary_docker_env_file, validate_reactor_lab_data_network,
}
use mini_deploy.World.{
  Io, Environment, Event.run_migration_container, run, pure, fail, lift, try, gets, ◌>>=◌, ◌>>◌,
}
use mini_deploy.World.Handle.{on_error}
use mini_deploy.MiniBase
use mini_deploy.MiniBase.{binding_primary, matches_attachment_id, matches_database_id}
use mini_deploy.MiniBase.Data.{MiniBaseDatabase, MiniBaseBinding}

-- databaseRuntime, without the values that only the logs redact
pub record DatabaseRuntime : Type 0 where
  pub environment : Environment
  pub data_network : Text

unfoldable pub is_valid_attachment : DatabaseAttachmentRecord → Bool
unfolding ◌==◌ trim_space byte_length
is_valid_attachment a =
    matches_attachment_id a.attachment_id
    && matches_database_id a.database_id
    && a.binding_name == binding_primary
    && trim_space a.display_name == a.display_name
    && not (is_empty a.display_name)
    && leb (byte_length a.display_name) 800

-- currentDatabaseAttachment, of the attachments of a record
unfoldable pub current_attachment :
    List DatabaseAttachmentRecord → Result (Option DatabaseAttachmentRecord)
current_attachment [] = ok none
current_attachment (a ∷ []) = if is_valid_attachment a then ok (some a) else err invalid_attachment
current_attachment (a ∷ b ∷ rest) = err invalid_attachment

abbrev pub current_database_attachment : DeploymentRecord → Result (Option DatabaseAttachmentRecord)
current_database_attachment r = current_attachment r.database_attachments

abbrev is_node_express : Option DeploymentServiceRecord → Bool
unfolding ◌==◌
is_node_express none = false
is_node_express (some service) = service.strategy == Strategy.node_express

unfoldable pub deployment_supports_mini_base : DeploymentRecord → Bool
unfolding ◌==◌ is_node_express deployment_service_by_name
deployment_supports_mini_base record_of_app =
    let r = normalize_deployment_record record_of_app in
    r.strategy == Strategy.node_express
    || r.strategy == Strategy.fullstack_vite_node
      && is_node_express (deployment_service_by_name r Strategy.backend_service)

-- fullstackBuildServiceByName
unfoldable pub fullstack_build_service_by_name : Text → List ServicePlan → Option ServicePlan
unfolding ◌==◌
fullstack_build_service_by_name name [] = none
fullstack_build_service_by_name name (s ∷ ss) =
    if s.name == name then some s else fullstack_build_service_by_name name ss

abbrev builds_node_express : Option ServicePlan → Bool
unfolding ◌==◌
builds_node_express none = false
builds_node_express (some service) = service.build.strategy == Strategy.node_express

unfoldable pub deployment_plan_supports_mini_base : ProjectPlan → Bool
unfolding ◌==◌ builds_node_express
deployment_plan_supports_mini_base project =
    project.build.strategy == Strategy.node_express
    || project.build.strategy == Strategy.fullstack_vite_node
      && builds_node_express
          (fullstack_build_service_by_name Strategy.backend_service project.services)

-- The loop of availableExistingMiniBaseDatabase.
unfoldable pub find_available : Text → List MiniBaseDatabase → Result MiniBaseDatabase
unfolding ◌==◌
find_available id [] = err mini_base_database_unavailable
find_available id (candidate ∷ rest) =
    if candidate.id == id && candidate.status == codes "ready" && not candidate.attached
    then ok candidate
    else find_available id rest

-- Every error of the client is reported as one.
abbrev pub reported {ℓ} : {A : Type ℓ} → Result A → Error → Result A
reported (ok a) error = ok a
reported (err e) error = err error

unfoldable pub available_existing_mini_base_database : Text → Io MiniBaseDatabase
available_existing_mini_base_database database_id =
    if not (matches_database_id database_id) then fail mini_base_database_unavailable else do
      listed ← try MiniBase.list_databases
      databases ← lift (reported listed mini_base_operation)
      lift (find_available database_id databases)

unfoldable pub create_existing_mini_base_attachment : Text → Text → Io DatabaseAttachmentRecord
create_existing_mini_base_attachment app database_id = do
  database ← available_existing_mini_base_database database_id
  created ← try (MiniBase.create_attachment database.id app)
  attachment ← lift (reported created mini_base_operation)
  pure (record {
    attachment_id = attachment.id;
    database_id = database.id;
    display_name = database.display_name;
    binding_name = binding_primary;
  })

-- No attachment stands for the zero value, whose AttachmentID is empty.
unfoldable pub create_initial_mini_base_attachment :
    Text → Text → ProjectPlan → Io (Option DatabaseAttachmentRecord)
create_initial_mini_base_attachment app database_id plan =
    if is_empty database_id
    then pure none
    else if not (deployment_plan_supports_mini_base plan)
    then fail unsupported_database
    else do
      attachment ← create_existing_mini_base_attachment app database_id
      pure (some attachment)

unfoldable pub delete_initial_mini_base_attachment : DatabaseAttachmentRecord → Io (Unit {0})
delete_initial_mini_base_attachment attachment =
    if is_empty attachment.attachment_id then pure tt else do
      deleted ← try (MiniBase.delete_attachment attachment.attachment_id)
      lift (reported deleted mini_base_operation)

abbrev pub database_url : Text
database_url = codes "DATABASE_URL"

abbrev pub has_database_url : Environment → Bool
has_database_url environment = elim (lookup database_url environment) [
  | none ↦ false
  | some v ↦ true
]

-- The environment of an attached database does not set DATABASE_URL itself.
abbrev pub refuse_conflict : Option DatabaseAttachmentRecord → Environment → Result (Unit {0})
refuse_conflict none environment = ok tt
refuse_conflict (some a) environment =
    if has_database_url environment then err database_conflict else ok tt

unfoldable pub validate_managed_database_environment :
    DeploymentRecord → Environment → Result (Unit {0})
validate_managed_database_environment r environment = elim (current_database_attachment r) [
  | ok found ↦ refuse_conflict found environment
  | err e ↦ err e
]

-- net.JoinHostPort
abbrev join_host_port : Text → Text → Text
join_host_port host port =
    if any (eqb b':') host
    then codes "[" ++ host ++ codes "]:" ++ port
    else host ++ codes ":" ++ port

-- runtime.Environment["DATABASE_URL"] = connection
abbrev pub with_database_url : Text → Environment → Environment
unfolding ◌==◌
with_database_url connection environment =
    (database_url, connection) ∷ keep_if (λ v. not (v.0 == database_url)) environment

unfoldable pub connect : Environment → MiniBaseBinding → Io DatabaseRuntime
unfolding with_database_url itoa
connect environment binding = do
  url_string ← gets (λ w. w.host.url_string)
  let connection =
      url_string (codes "postgresql") binding.username binding.password
        (join_host_port binding.host (itoa binding.port)) (b'/' ∷ binding.database)
        (codes "sslmode=disable")
  pure (record {
    environment = with_database_url connection environment;
    data_network = binding.docker_network;
  })

unfoldable pub resolve_attached :
    DeploymentRecord → Environment → DatabaseAttachmentRecord → Io DatabaseRuntime
unfolding ◌==◌
resolve_attached r environment attachment =
    if not (deployment_supports_mini_base r) then fail unsupported_database else do
      lift (validate_managed_database_environment r environment)
      binding ← MiniBase.resolve_binding attachment.attachment_id
      if not (binding.database_id == attachment.database_id)
          then fail Error.resolve_binding
          else connect environment binding

abbrev pub resolve_found :
    DeploymentRecord → Environment → Option DatabaseAttachmentRecord → Io DatabaseRuntime
resolve_found r environment none = pure (record { environment = environment; data_network = [] })
resolve_found r environment (some attachment) = resolve_attached r environment attachment

unfoldable pub resolve_database_runtime : DeploymentRecord → Environment → Io DatabaseRuntime
resolve_database_runtime r environment = do
  found ← lift (current_database_attachment r)
  resolve_found r environment found
