-- ===== src/MiniBase.antt =====
-- app/minibase_client.go: the client of the MiniBase service, and its checks of every reply. The service
-- itself is the host.
pub mod Data
pub mod Laws
use mini_deploy.Prelude.{
  ℕ, ℤ, pos, negsuc, Bool, true, false, ◌&&◌, ◌||◌, not, Option, none, some, List, [], ◌∷◌, every,
  length, leb, ltb, eqb, if◌then◌else◌,
}
use mini_deploy.Text.{
  Text, codes, ◌==◌, is_empty, trim_space, has_prefix, trim_prefix, byte_length, contains_any,
}
use mini_deploy.Result.{
  Result, ok, err, Error, mini_base_authentication, mini_base_unreachable, mini_base_response,
  mini_base_status,
}
use mini_deploy.Docker.{reactor_lab_data_network}
use mini_deploy.World.{
  Host, Event, Io, Event.check_mini_base_token, Event.read_mini_base_token, Event.get_databases,
  Event.post_database, Event.post_attachment, Event.remove_attachment, Event.get_binding, run, ask,
  pure, fail, lift, try, ◌>>=◌, ◌>>◌,
}
use Data.{MiniBaseDatabase, MiniBaseAttachment, MiniBaseBinding, Reply}

abbrev is_lower_hex : ℕ → Bool
is_lower_hex c = leb b'0' c && leb c b'9' || leb b'a' c && leb c b'f'

-- A prefix and 32 hexadecimal digits.
unfoldable pub matches_id : Text → Text → Bool
unfolding has_prefix trim_prefix
matches_id prefix s =
    let digits = trim_prefix s prefix in
    has_prefix s prefix && eqb (length digits) 32 && every is_lower_hex digits

-- miniBaseDatabaseIDPattern and its neighbours
abbrev pub matches_database_id : Text → Bool
matches_database_id = matches_id (codes "database_")

abbrev pub matches_attachment_id : Text → Bool
matches_attachment_id = matches_id (codes "attachment_")

abbrev pub matches_internal_database : Text → Bool
matches_internal_database = matches_id (codes "mb_db_")

abbrev pub matches_role : Text → Bool
matches_role = matches_id (codes "mb_role_")

abbrev pub binding_primary : Text
binding_primary = codes "primary"

abbrev pub response_limit : ℕ
response_limit = 65536

-- loadMiniBaseToken. The look at the file fails unless it is a regular file of mode 0600.
unfoldable pub load_mini_base_token : Io Text
unfolding trim_space byte_length contains_any
load_mini_base_token = do
  run check_mini_base_token mini_base_authentication
  content ← run read_mini_base_token mini_base_authentication
  let token = trim_space content
  if ltb (byte_length token) 32 || contains_any token (32 ∷ 9 ∷ 13 ∷ 10 ∷ [])
      then fail mini_base_authentication
      else pure token

-- What doJSON makes of a reply, `none` where the request failed or the body could not be read. Without an
-- output, or without content, the zero value stays.
unfoldable pub check_reply {ℓ} : {A : Type ℓ} → Bool → A → Option (Reply A) → Result A
check_reply has_output zero none = err mini_base_unreachable
check_reply has_output zero (some reply) =
    if ltb response_limit reply.size
    then err mini_base_response
    else if ltb reply.status 200 || leb 300 reply.status
    then err (mini_base_status reply.status)
    else if not has_output || eqb reply.status 204
    then ok zero
    else elim (reply.decoded) [ none ↦ err mini_base_response | some a ↦ ok a ]

unfoldable pub do_json {ℓ} :
    {A : Type ℓ} → Bool → A → (Host → List Event → Event → Option (Reply A)) → Event → Io A
do_json has_output zero reply e = do
  load_mini_base_token
  answer ← ask reply e
  lift (check_reply has_output zero answer)

abbrev pub zero_database : MiniBaseDatabase
zero_database = record { id = []; display_name = []; status = []; attached = false }

abbrev pub zero_attachment : MiniBaseAttachment
zero_attachment = record {
  id = [];
  database_id = [];
  consumer_type = [];
  consumer_ref = [];
  binding_name = [];
  created_at = [];
  updated_at = [];
}

abbrev pub zero_binding : MiniBaseBinding
zero_binding = record {
  database_id = [];
  engine = [];
  host = [];
  port = pos 0;
  database = [];
  username = [];
  password = [];
  docker_network = [];
}

unfoldable pub valid_mini_base_database : MiniBaseDatabase → Bool
unfolding ◌==◌ trim_space
valid_mini_base_database database =
    matches_database_id database.id
    && trim_space database.display_name == database.display_name
    && not (is_empty database.display_name)
    && leb (length database.display_name) 200
    && database.status == codes "ready"

abbrev pub is_postgres_port : ℤ → Bool
is_postgres_port (pos n) = eqb n 5432
is_postgres_port (negsuc n) = false

unfoldable pub valid_mini_base_binding : MiniBaseBinding → Bool
unfolding ◌==◌ contains_any
valid_mini_base_binding binding =
    matches_database_id binding.database_id
    && binding.engine == codes "postgresql"
    && binding.host == codes "minibase-postgres"
    && is_postgres_port binding.port
    && matches_internal_database binding.database
    && matches_role binding.username
    && not (is_empty binding.password)
    && not (contains_any binding.password (13 ∷ 10 ∷ 0 ∷ []))
    && binding.docker_network == reactor_lab_data_network

-- A value that passes its check.
abbrev pub checked {ℓ} : {A : Type ℓ} → Bool → A → Io A
checked valid a = if valid then pure a else fail mini_base_response

unfoldable pub list_databases : Io (List MiniBaseDatabase)
list_databases = do
  databases ← do_json true [] (λ h. h.databases_reply) Event.get_databases
  checked (every valid_mini_base_database databases) databases

unfoldable pub create_database : Text → Io MiniBaseDatabase
create_database display_name = do
  database ← do_json true zero_database (λ h. h.database_reply) (Event.post_database display_name)
  checked (valid_mini_base_database database) database

-- Whether an attachment is the one that was asked for.
unfoldable pub is_attachment_of : Text → Text → MiniBaseAttachment → Bool
unfolding ◌==◌
is_attachment_of database_id consumer_ref attachment =
    matches_attachment_id attachment.id
    && attachment.database_id == database_id
    && attachment.consumer_type == codes "minideploy"
    && attachment.consumer_ref == consumer_ref
    && attachment.binding_name == binding_primary

unfoldable pub create_attachment : Text → Text → Io MiniBaseAttachment
create_attachment database_id consumer_ref = do
  attachment ←
      do_json true zero_attachment (λ h. h.attachment_reply)
        (Event.post_attachment database_id consumer_ref)
  checked (is_attachment_of database_id consumer_ref attachment) attachment

abbrev is_not_found : Error → Bool
is_not_found (mini_base_status status) = eqb status 404
is_not_found _ = false

-- An attachment that does not exist counts as deleted.
abbrev pub unless_not_found : Result (Unit {0}) → Result (Unit {0})
unless_not_found (ok a) = ok a
unless_not_found (err e) = if is_not_found e then ok tt else err e

unfoldable pub delete_attachment : Text → Io (Unit {0})
delete_attachment attachment_id =
    if not (matches_attachment_id attachment_id) then fail mini_base_response else do
      deleted ←
          try (do_json false tt (λ h. h.deletion_reply) (Event.remove_attachment attachment_id))
      lift (unless_not_found deleted)

unfoldable pub resolve_binding : Text → Io MiniBaseBinding
resolve_binding attachment_id =
    if not (matches_attachment_id attachment_id) then fail mini_base_response else do
      binding ← do_json true zero_binding (λ h. h.binding_reply) (Event.get_binding attachment_id)
      checked (valid_mini_base_binding binding) binding
