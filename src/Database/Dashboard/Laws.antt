-- ===== src/Database/Dashboard/Laws.antt =====
-- attachMiniBaseDatabase of app/minibase_handlers.go, where it answers with a deployment.
use mini_deploy.Prelude.{
  ◌≡◌, refl, Bool, true, false, if◌then◌else◌, ◌||◌, not, Option, none, some, ℕ,
}
use mini_deploy.Text.{Text, codes, ◌==◌, is_empty, trim_space}
use mini_deploy.MiniBase.{matches_database_id}
use mini_deploy.Records.{DatabaseAttachmentRecord, DeploymentRecord}
use mini_deploy.Result.{Result, ok, err}
use mini_deploy.World.{World, Io, pure}
use mini_deploy.World.Keeps.{
  Keeps, Keeps-bind, Keeps-fail, Keeps-if, Keeps-lift, Keeps-pure, Keeps-try,
}
use mini_deploy.World.Returns.{
  Returns, returned, Returns-bind, Returns-if, Returns-on_error, Returns-pure, Returns-try,
}
use mini_deploy.MiniBase.Data.{MiniBaseDatabase}
use mini_deploy.MiniBase
use mini_deploy.Lifecycle.Carries.{Attached, Carries, save-Carries}
use mini_deploy.Lifecycle.Unchanged.{Unchanged, Unchanged-start, Returns-Unchanged}
use mini_deploy.Lifecycle.Unchanged.Database.{
  available-Unchanged, create_attachment-Unchanged, do_json-Unchanged,
}
use mini_deploy.Lifecycle.Unchanged.Files.{Environment-load-Unchanged}
use mini_deploy.Database.Unchanged.{get_deployment-Unchanged}
use mini_deploy.Database.Attach.Laws.{redeployed-Attached}
use mini_deploy.Lifecycle.Redeploy.{safe_redeploy}
use mini_deploy.Fullstack.Platform.{platform}
use mini_deploy.Database.{
  available_existing_mini_base_database, deployment_supports_mini_base, has_database_url,
}
use mini_deploy.Database.Dashboard.{
  DatabaseAttachmentRequest, Response, answer, answered, attach_decoded, attach_mini_base_database,
  attach_requested, attach_unattached, requested_database, save_and_redeploy,
}

abbrev CalmOrNone : World → Option (Io MiniBaseDatabase) → Type 0
CalmOrNone v none = Unit {0}
CalmOrNone v (some m) = Keeps (Unchanged v) m

-- How a database is had changes no stored deployment.
record IsCalm (v : World) (opened : Option (Io MiniBaseDatabase)) : Type 0 where
  at : CalmOrNone v opened

if-IsCalm :
    (v : World) (b : Bool) (m n : Option (Io MiniBaseDatabase))
    → IsCalm v m
    → IsCalm v n
    → IsCalm v (if b then m else n)
if-IsCalm v true m n h k = h
if-IsCalm v false m n h k = k

create_database-Unchanged :
    (v : World) (name : Text) → Keeps (Unchanged v) (MiniBase.create_database name)
unfolding MiniBase.create_database
create_database-Unchanged v name =
    Keeps-bind _ _ (do_json-Unchanged v _ _ _ _) λ d. Keeps-if _ _ _ (Keeps-pure _) (Keeps-fail _)

requested_database-IsCalm :
    (v : World) (input : DatabaseAttachmentRequest) → IsCalm v (requested_database input)
unfolding requested_database
requested_database-IsCalm v input =
    if-IsCalm v (input.mode == codes "create") _ _
      (if-IsCalm v (is_empty (trim_space input.display_name) || not (is_empty input.database_id)) _
        (some (MiniBase.create_database (trim_space input.display_name))) refused
        (record { at = create_database-Unchanged v (trim_space input.display_name) }))
      (if-IsCalm v (input.mode == codes "attach") _ _
        (if-IsCalm v
          (not (is_empty input.display_name) || not (matches_database_id input.database_id)) _
          (some (available_existing_mini_base_database input.database_id)) refused
          (record { at = available-Unchanged v input.database_id }))
        refused)
  where
    refused : IsCalm v none
    refused = record { at = tt }

-- Where the response is a deployment, it is attached, with the visibility that its application had in `v`.
abbrev Shows : World → Response → World → Type 0
Shows v (Response.updated d) w = Attached v d w
Shows v _ w = Unit {0}

module _ (v : World) where
  answered-Shows :
      {A : Type 0} (status : ℕ) (next : A → Io Response) (r : Result A) (w : World)
      → ((a : A) → r ≡ ok a → Returns (Shows v) (next a) w)
      → Returns (Shows v) (answered status next r) w
  answered-Shows status next (ok a) w h = h a refl
  answered-Shows status next (err e) w h = Returns-pure _ _ w tt

  answer-Shows :
      {A : Type 0} (status : ℕ) (m : Io A) (next : A → Io Response) (w : World)
      → Keeps (Unchanged v) m
      → Unchanged v w
      → ((a : A) (u : World) → Unchanged v u → Returns (Shows v) (next a) u)
      → Returns (Shows v) (answer status m next) w
  unfolding answer
  answer-Shows status m next w h k l =
      Returns-Unchanged v _ _ _ w (Keeps-try m h) k
        λ r u k1. answered-Shows status next r u λ a e. l a u k1

  redeployed-Shows :
      (attached : DeploymentRecord) (w : World)
      → Carries v w
      → Returns
          (Shows v)
          (answer 502 (safe_redeploy platform attached none) λ r. pure (Response.updated r))
          w
  unfolding answer
  redeployed-Shows attached w c =
      Returns-bind (λ r u. (d : DeploymentRecord) → r ≡ ok d → Attached v d u) _ _ _ w
        (Returns-try _ _ w (redeployed-Attached v attached w c))
        λ r u k. answered-Shows 502 _ r u λ d e. Returns-pure _ _ u (k d e)

  save_and_redeploy-Shows :
      (latest : DeploymentRecord) (a : DatabaseAttachmentRecord) (w : World)
      → Unchanged v w
      → Returns (Shows v) (save_and_redeploy latest a) w
  unfolding save_and_redeploy answer
  save_and_redeploy-Shows latest a w k =
      Returns-bind (λ r u. (b : Unit {0}) → r ≡ ok b → Carries v u) _ _ _ w
        (Returns-try _ _ w (Returns-on_error _ _ _ w (save-Carries v _ w k)))
        λ r u h. answered-Shows 500 _ r u λ b e. redeployed-Shows _ u (h b e)

  attach_requested-Shows :
      (latest : DeploymentRecord) (opened : Option (Io MiniBaseDatabase)) (w : World)
      → IsCalm v opened
      → Unchanged v w
      → Returns (Shows v) (attach_requested latest opened) w
  attach_requested-Shows latest none w h k = Returns-pure _ _ w tt
  attach_requested-Shows latest (some opened) w h k =
      answer-Shows 502 opened _ w h.at k λ database u k1.
        answer-Shows 502 _ _ u (create_attachment-Unchanged v database.id latest.app) k1
          λ attachment t k2. save_and_redeploy-Shows latest _ t k2

  attach_decoded-Shows :
      (latest : DeploymentRecord) (input : Option DatabaseAttachmentRequest) (w : World)
      → Unchanged v w
      → Returns (Shows v) (attach_decoded latest input) w
  attach_decoded-Shows latest none w k = Returns-pure _ _ w tt
  attach_decoded-Shows latest (some input) w k =
      attach_requested-Shows latest (requested_database input) w (requested_database-IsCalm v input)
        k

  attach_unattached-Shows :
      (latest : DeploymentRecord) (input : Option DatabaseAttachmentRequest)
      (found : Option DatabaseAttachmentRecord) (w : World)
      → Unchanged v w
      → Returns (Shows v) (attach_unattached latest input found) w
  attach_unattached-Shows latest input (some a) w k = Returns-pure _ _ w tt
  attach_unattached-Shows latest input none w k =
      answer-Shows 500 _ _ w (Environment-load-Unchanged v _) k λ environment u k1.
        Returns-if _ (has_database_url environment) (pure (Response.refused 409)) _ u
          (Returns-pure _ _ u tt) (attach_decoded-Shows latest input u k1)

  attach-Shows :
      (app : Text) (input : Option DatabaseAttachmentRequest) (w : World)
      → Unchanged v w
      → Returns (Shows v) (attach_mini_base_database app input) w
  unfolding attach_mini_base_database
  attach-Shows app input w k =
      answer-Shows 500 _ _ w (get_deployment-Unchanged v app) k λ latest u k1.
        Returns-if _ (not (deployment_supports_mini_base latest)) (pure (Response.refused 422)) _ u
          (Returns-pure _ _ u tt)
          (Returns-if _ latest.database_detached (pure (Response.refused 409)) _ u
            (Returns-pure _ _ u tt)
            (answer-Shows 500 _ _ u (Keeps-lift _) k1
              λ found t k2. attach_unattached-Shows latest input found t k2))

-- The attachment of a database by the dashboard, also of a new one: where it answers with a deployment and not
-- with an error, that record is in the file as the one of its application, with the visibility that the
-- application had before, if it had a record, and Caddy serves the routes of the deployments in the file.
pub attach_mini_base_database-Attached :
    (app : Text) (input : Option DatabaseAttachmentRequest) (w : World) (d : DeploymentRecord)
    → (attach_mini_base_database app input w).0 ≡ ok (Response.updated d)
    → Attached w d (attach_mini_base_database app input w).1
attach_mini_base_database-Attached app input w d e =
    returned (Shows w) (attach_mini_base_database app input) w (Response.updated d)
      (attach-Shows w app input w (Unchanged-start w)) e
