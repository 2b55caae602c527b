-- ===== src/Database/Detach/Laws.antt =====
-- detachDatabaseFromDeployment of app/minibase_lifecycle.go, where it returns without an error.
use mini_deploy.Prelude.{
  ◌≡◌, refl, ap, ◌∙◌, sym, true, false, Bool, not, none, some, Option, List, ◌∷◌, if◌then◌else◌, [],
  arith,
}
use mini_deploy.Text.{Text, ◌==◌, eq_sound}
use mini_deploy.Records.{DeploymentServiceRecord, DatabaseAttachmentRecord, DeploymentRecord}
use mini_deploy.Result.{Result, ok, err, lifecycle_not_attached, lifecycle_unsupported}
use mini_deploy.Strategy
use mini_deploy.Config.{
  project_frontend, project_fullstack, normalize_fields, normalize_deployment_record,
}
use mini_deploy.World.{World, pure, fail}
use mini_deploy.World.Returns.{
  Returns, returned, Returns-bind, Returns-fail, Returns-if, Returns-if_of, Returns-lift,
  Returns-of, Returns-pure, Returns-then,
}
use mini_deploy.Store
use mini_deploy.Store.{find_deployment}
use mini_deploy.Store.Effects.{Leaving, view, get-Leaves}
use mini_deploy.Store.Contract.{saved_as}
use mini_deploy.Lifecycle.Live.{Stored, save-Stored, stored_record}
use mini_deploy.Lifecycle.Unchanged.{Unchanged-start}
use mini_deploy.Lifecycle.Delete.{get_deployment}
use mini_deploy.Database.{
  current_attachment, current_database_attachment, deployment_supports_mini_base,
}
use mini_deploy.Database.Detach.{
  leave_service, without_database, detach_attached, detach_current, detach_database_from_deployment,
}

-- The file holds a record of the application that is out of service and has no database.
pub record Detached (app : Text) (w : World) : Type 0 where
  pub records : List DeploymentRecord
  pub parsed : view w.store_file ≡ some records
  pub deployment : DeploymentRecord
  pub found : find_deployment app records ≡ some deployment
  pub detached : deployment.database_detached ≡ true
  pub unattached : deployment.database_attachments ≡ []

-- The record is the normal form of the one that the file holds for the application.
record Current (app : Text) (latest : DeploymentRecord) (w : World) : Type 0 where
  records : List DeploymentRecord
  parsed : view w.store_file ≡ some records
  deployment : DeploymentRecord
  found : find_deployment app records ≡ some deployment
  normal : latest ≡ normalize_deployment_record deployment

-- The file holds the record for the application.
record Found (app : Text) (d : DeploymentRecord) (w : World) : Type 0 where
  records : List DeploymentRecord
  parsed : view w.store_file ≡ some records
  found : find_deployment app records ≡ some d

kept :
    (r : Result DeploymentRecord) (w w' : World) (d : DeploymentRecord)
    → Leaving w r w' (λ _. view w.store_file)
    → r ≡ ok d
    → view w'.store_file ≡ view w.store_file
kept (ok x) w w' d l h = l.deployments
kept (err e) w w' d l h = cc

get-Found :
    (app : Text) (w : World) (d : DeploymentRecord)
    → (Store.get app w).0 ≡ ok d
    → Found app d (Store.get app w).1
get-Found app w d e =
    let (left, held) = get-Leaves app w in
    let (ds, parsed, found) = held d e in
    record {
      records = ds;
      parsed = kept (Store.get app w).0 w (Store.get app w).1 d left e ∙ parsed;
      found = found;
    }

find-app :
    (app : Text) (xs : List DeploymentRecord) (d : DeploymentRecord)
    → find_deployment app xs ≡ some d
    → d.app ≡ app
unfolding find_deployment
find-app app [] d h = cc
find-app app (x ∷ xs) d h = ground (arith, find-app app xs d, eq_sound x.app app)

-- A normal form has the application, the attachments and the state of the database of the record.
record Same (r s : DeploymentRecord) : Type 0 where
  app : r.app ≡ s.app
  attachments : r.database_attachments ≡ s.database_attachments
  detached : r.database_detached ≡ s.database_detached

project-Same :
    (r : DeploymentRecord) (o : Option DeploymentServiceRecord) → Same (project_frontend r o) r
project-Same r none = record { app = refl; attachments = refl; detached = refl }
project-Same r (some s) = record { app = refl; attachments = refl; detached = refl }

if-Same : (b : Bool) (r s t : DeploymentRecord) → Same r t → Same s t → Same (if b then r else s) t
if-Same true r s t h k = h
if-Same false r s t h k = k

project_fullstack-Same : (r : DeploymentRecord) → Same (project_fullstack r) r
unfolding project_fullstack
project_fullstack-Same r =
    if-Same (r.strategy == Strategy.fullstack_vite_node) _ r r (project-Same r _)
      (record { app = refl; attachments = refl; detached = refl })

normalize-Same : (r : DeploymentRecord) → Same (normalize_deployment_record r) r
unfolding normalize_deployment_record normalize_fields
normalize-Same r =
    let s = project_fullstack-Same (normalize_fields r) in
    record { app = s.app; attachments = s.attachments; detached = s.detached }

get_deployment-Current : (app : Text) (w : World) → Returns (Current app) (get_deployment app) w
unfolding get_deployment
get_deployment-Current app w = Returns-if _ _ _ _ w (Returns-fail _ _ w) (
    Returns-bind (λ d v. Found app d v) _ _ _ w
      (Returns-of _ (Store.get app) w λ d e. get-Found app w d e)
      λ d v h. Returns-pure _ _ v (record {
        records = h.records;
        parsed = h.parsed;
        deployment = d;
        found = h.found;
        normal = refl;
      }))

-- An attachment is one of the record, or there is none.
current-none : (xs : List DatabaseAttachmentRecord) → current_attachment xs ≡ ok none → xs ≡ []
unfolding current_attachment
current-none [] h = refl
current-none (a ∷ []) h = ground arith
current-none (a ∷ b ∷ rest) h = cc

leave_service-app :
    (latest : DeploymentRecord) (w : World)
    → Returns (λ d v. d.app ≡ latest.app) (leave_service latest) w
unfolding leave_service
leave_service-app latest w =
    Returns-if _ _ _ _ w (Returns-pure _ latest w refl)
      (Returns-then _ _ _ w λ _ w1. Returns-then _ _ _ w1 λ _ w2. Returns-pure _ _ w2 refl)

detach_attached-Detached :
    (app : Text) (latest : DeploymentRecord) (id : Text) (w : World)
    → latest.app ≡ app
    → Returns (λ _. Detached app) (detach_attached latest id) w
unfolding detach_attached
detach_attached-Detached app latest id w g =
    Returns-bind (λ d v. d.app ≡ latest.app) _ _ _ w (leave_service-app latest w)
      λ d w1 h. Returns-then _ _ _ w1 λ _ w2.
        Returns-of _ (Store.save (without_database d)) w2 λ a e.
          let s =
            returned (λ _. Stored w2 (without_database d)) (Store.save (without_database d)) w2 a
              (save-Stored w2 (without_database d) w2 (Unchanged-start w2)) e in
          record {
            records = s.records;
            parsed = s.parsed;
            deployment = saved_as (without_database d) (stored_record w2 d.app);
            found = ap (λ (t : Text). find_deployment t s.records) (sym (h ∙ g)) ∙ s.found;
            detached = refl;
            unattached = refl;
          }

already-Detached :
    (app : Text) (latest : DeploymentRecord) (w : World)
    → Current app latest w
    → latest.database_detached ≡ true
    → latest.database_attachments ≡ []
    → Detached app w
already-Detached app latest w c h k =
    let s = normalize-Same c.deployment in
    record {
      records = c.records;
      parsed = c.parsed;
      deployment = c.deployment;
      found = c.found;
      detached =
          sym s.detached ∙ ap (λ (r : DeploymentRecord). r.database_detached) (sym c.normal) ∙ h;
      unattached =
          sym s.attachments
          ∙ ap (λ (r : DeploymentRecord). r.database_attachments) (sym c.normal)
          ∙ k;
    }

latest-app :
    (app : Text) (latest : DeploymentRecord) (w : World) → Current app latest w → latest.app ≡ app
latest-app app latest w c =
    ap (λ (r : DeploymentRecord). r.app) c.normal
    ∙ (normalize-Same c.deployment).app
    ∙ find-app app c.records c.deployment c.found

detach_current-Detached :
    (app database_id id : Text) (latest : DeploymentRecord) (o : Option DatabaseAttachmentRecord)
    (w : World)
    → Current app latest w
    → current_database_attachment latest ≡ ok o
    → Returns (λ _. Detached app) (detach_current latest database_id id o) w
unfolding detach_current
detach_current-Detached app database_id id latest none w c e =
    Returns-if_of _ latest.database_detached (pure tt) (fail lifecycle_not_attached) w
      (λ h. Returns-pure _ tt w (already-Detached app latest w c h (current-none _ e)))
      (λ h. Returns-fail _ _ w)
detach_current-Detached app database_id id latest (some a) w c e =
    Returns-if _ _ _ _ w (Returns-fail _ _ w)
      (detach_attached-Detached app latest a.attachment_id w (latest-app app latest w c))

detach-Returns :
    (app database_id id : Text) (w : World)
    → Returns (λ _. Detached app) (detach_database_from_deployment app database_id id) w
unfolding detach_database_from_deployment
detach-Returns app database_id id w =
    Returns-bind (Current app) _ _ _ w (get_deployment-Current app w) λ latest w1 c.
      Returns-if _ (not (deployment_supports_mini_base latest)) (fail lifecycle_unsupported) _ w1
        (Returns-fail _ _ w1)
        (Returns-bind (λ o v. (current_database_attachment latest ≡ ok o) × Current app latest v) _
          _ _ w1 (Returns-lift _ _ w1 λ o e. (e, c))
          λ o w2 (e, c2). detach_current-Detached app database_id id latest o w2 c2 e)

-- A detachment that returns without an error, also of an application whose database was detached before, leaves
-- a record of the application in the file that is out of service and has no attachment.
pub detach_database_from_deployment-Detached :
    (app database_id attachment_id : Text) (w : World) (a : Unit {0})
    → (detach_database_from_deployment app database_id attachment_id w).0 ≡ ok a
    → Detached app (detach_database_from_deployment app database_id attachment_id w).1
detach_database_from_deployment-Detached app database_id attachment_id w a e =
    returned (λ _. Detached app) (detach_database_from_deployment app database_id attachment_id) w a
      (detach-Returns app database_id attachment_id w) e
