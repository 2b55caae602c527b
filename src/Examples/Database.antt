-- ===== src/Examples/Database.antt =====
-- A database of MiniBase that is attached and resolved, at concrete inputs.
use mini_deploy.Prelude.{refl, ◌≡◌, false, true, some, pos, [], ◌∷◌}
use mini_deploy.Text.{Text, codes, ◌==◌, trim_space}
use mini_deploy.Names.{normalize_runtime_environment_names}
use mini_deploy.Config.{normalize_deployment_record}
use mini_deploy.Records.{DatabaseAttachmentRecord, DeploymentRecord}
use mini_deploy.Result.{ok}
use mini_deploy.Strategy
use mini_deploy.World.{World, Environment, io}
use mini_deploy.MiniBase
use mini_deploy.Environment.Format.{lookup}
use mini_deploy.MiniBase.{
  check_reply, do_json, load_mini_base_token, matches_id, valid_mini_base_binding,
  valid_mini_base_database, is_attachment_of,
}
use mini_deploy.MiniBase.Data.{MiniBaseAttachment, MiniBaseBinding, MiniBaseDatabase, Reply}
use mini_deploy.MiniBase.Laws.{IsAccepted, check_reply-IsAccepted}
use mini_deploy.Database.{
  DatabaseRuntime, available_existing_mini_base_database, connect,
  create_existing_mini_base_attachment, current_attachment, deployment_supports_mini_base,
  find_available, is_valid_attachment, resolve_attached, resolve_database_runtime,
  validate_managed_database_environment, with_database_url,
}
use mini_deploy.Database.Laws.{Resolves, resolve_database_runtime-Resolves}
use mini_deploy.Database.Attachment.{IsAttached, create_existing_mini_base_attachment-IsAttached}
use mini_deploy.Examples.Values.{blog, world, host}

abbrev pub digits : Text
digits = codes "0123456789abcdef0123456789abcdef"

abbrev pub database_id : Text
database_id = codes "database_0123456789abcdef0123456789abcdef"

abbrev pub attachment_id : Text
attachment_id = codes "attachment_0123456789abcdef0123456789abcdef"

abbrev pub accepted {ℓ} : {A : Type ℓ} → A → Reply A
accepted a = record { status = 200; size = 100; decoded = some a }

abbrev pub database : MiniBaseDatabase
database = record {
  id = database_id;
  display_name = codes "Shop";
  status = codes "ready";
  attached = false;
}

abbrev pub made : MiniBaseAttachment
made = record {
  id = attachment_id;
  database_id = database_id;
  consumer_type = codes "minideploy";
  consumer_ref = codes "blog";
  binding_name = codes "primary";
  created_at = [];
  updated_at = [];
}

abbrev pub binding : MiniBaseBinding
binding = record {
  database_id = database_id;
  engine = codes "postgresql";
  host = codes "minibase-postgres";
  port = pos 5432;
  database = codes "mb_db_0123456789abcdef0123456789abcdef";
  username = codes "mb_role_0123456789abcdef0123456789abcdef";
  password = codes "secret";
  docker_network = codes "reactorlab-data";
}

-- MiniBase lists one database, which is free, and every command prints 32 digits.
abbrev with_database : World
with_database = record world {
  host = record host {
    answer = λ trace e. some digits;
    databases_reply = λ trace e. some (accepted (database ∷ []));
    attachment_reply = λ trace e. some (accepted made);
    binding_reply = λ trace e. some (accepted binding);
  };
}

abbrev pub attachment : DatabaseAttachmentRecord
attachment = record {
  attachment_id = attachment_id;
  database_id = database_id;
  display_name = codes "Shop";
  binding_name = codes "primary";
}

created :
    (create_existing_mini_base_attachment (codes "blog") database_id with_database).0
    ≡ ok attachment
unfolding io create_existing_mini_base_attachment available_existing_mini_base_database matches_id
    MiniBase.list_databases do_json load_mini_base_token check_reply valid_mini_base_database
    find_available MiniBase.create_attachment is_attachment_of
created = refl

create_existing_mini_base_attachment-IsAttached_example :
    IsAttached database_id with_database attachment
create_existing_mini_base_attachment-IsAttached_example =
    create_existing_mini_base_attachment-IsAttached (codes "blog") database_id with_database
      attachment created

abbrev pub shop : DeploymentRecord
shop = record blog { strategy = Strategy.node_express; database_attachments = attachment ∷ [] }

abbrev keys : Environment
keys = (codes "MODE", codes "live") ∷ []

abbrev runtime : DatabaseRuntime
runtime = record {
  environment = with_database_url (codes "postgresql") keys;
  data_network = codes "reactorlab-data";
}

resolved : (resolve_database_runtime shop keys with_database).0 ≡ ok runtime
unfolding io resolve_database_runtime current_attachment is_valid_attachment matches_id
    resolve_attached deployment_supports_mini_base normalize_deployment_record ◌==◌ trim_space
    normalize_runtime_environment_names validate_managed_database_environment lookup
    MiniBase.resolve_binding do_json load_mini_base_token check_reply connect
    valid_mini_base_binding
resolved = refl

resolve_database_runtime-Resolves_example : Resolves shop keys runtime
resolve_database_runtime-Resolves_example =
    resolve_database_runtime-Resolves shop keys with_database runtime resolved

reply_accepted : check_reply true MiniBase.zero_binding (some (accepted binding)) ≡ ok binding
unfolding check_reply
reply_accepted = refl

check_reply-IsAccepted_example :
    (r : Reply MiniBaseBinding) × (some (accepted binding) ≡ some r)
    × IsAccepted MiniBase.zero_binding binding r
check_reply-IsAccepted_example =
    check_reply-IsAccepted MiniBase.zero_binding binding (some (accepted binding)) reply_accepted
