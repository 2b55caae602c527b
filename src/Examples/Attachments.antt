-- ===== src/Examples/Attachments.antt =====
-- The detachment and the attachment of a database, in app/minibase_lifecycle.go, at concrete inputs.
use mini_deploy.Prelude.{refl, ◌≡◌, true, Option, pos, some, [], ◌∷◌}
use mini_deploy.Text.{Text, codes}
use mini_deploy.Records.{DeploymentRecord}
use mini_deploy.Result.{ok}
use mini_deploy.World.{World, Event, entries}
use mini_deploy.Store.{stored}
use mini_deploy.Database.Attach.{attach_database_to_deployment}
use mini_deploy.Database.Attach.Laws.{attach_database_to_deployment-Attached}
use mini_deploy.Database.Detach.{detach_database_from_deployment}
use mini_deploy.Database.Detach.Laws.{Detached, detach_database_from_deployment-Detached}
use mini_deploy.Lifecycle.Carries.{Attached}
use mini_deploy.Examples.Running.{attaching}
use mini_deploy.Examples.Database.{
  accepted, attachment, attachment_id, binding, database, database_id, digits, made, shop,
}
use mini_deploy.Examples.Values.{host, world}

abbrev answers : Event → Option Text
answers Event.network_inspect = some (codes "bridge true")
answers Event.read_mini_base_token = some digits
answers (Event.container_status container) = some (codes "running")
answers e = some (codes "true")

abbrev connected : World
connected = record world {
  host = record host {
    answer = λ trace e. answers e;
    databases_reply = λ trace e. some (accepted (database ∷ []));
    attachment_reply = λ trace e. some (accepted made);
    deletion_reply = λ trace e. some (accepted tt);
    binding_reply = λ trace e. some (accepted binding);
  };
  store_file = entries (stored shop ∷ []);
}

detach_succeeds :
    (detach_database_from_deployment (codes "blog") database_id attachment_id connected).0 ≡ ok tt
unfolding attaching
detach_succeeds = refl

detach_database_from_deployment-Detached_example :
    Detached
      (codes "blog")
      (detach_database_from_deployment (codes "blog") database_id attachment_id connected).1
detach_database_from_deployment-Detached_example =
    detach_database_from_deployment-Detached (codes "blog") database_id attachment_id connected tt
      detach_succeeds

abbrev waiting : World
waiting = record connected {
  store_file =
      entries (stored (record shop { database_detached = true; database_attachments = [] }) ∷ []);
}

abbrev reattached : DeploymentRecord
reattached = record shop { port = pos 8081; database_attachments = attachment ∷ [] }

attach_succeeds :
    (attach_database_to_deployment (codes "blog") database_id waiting).0 ≡ ok reattached
unfolding attaching
attach_succeeds = refl

attach_database_to_deployment-Attached_example :
    Attached waiting reattached (attach_database_to_deployment (codes "blog") database_id waiting).1
attach_database_to_deployment-Attached_example =
    attach_database_to_deployment-Attached (codes "blog") database_id waiting reattached
      attach_succeeds
