-- ===== src/Database/Laws.antt =====
-- The runtime that app/database_integration.go resolves.
use mini_deploy.Prelude.{refl, ◌≡◌, Bool, true, false, not, Option, none, some, [], arith}
use mini_deploy.Text.{Text, eq_iff}
use mini_deploy.Records.{DatabaseAttachmentRecord, DeploymentRecord}
use mini_deploy.Result.{ok}
use mini_deploy.Docker.{reactor_lab_data_network}
use mini_deploy.World.{World, Environment}
use mini_deploy.World.Returns.{
  Returns, returned, Returns-pure, Returns-fail, Returns-if, Returns-bind, Returns-then,
  Returns-lift, Returns-if_of,
}
use mini_deploy.MiniBase
use mini_deploy.MiniBase.{
  binding_primary, matches_attachment_id, is_attachment_of, valid_mini_base_binding,
  valid_mini_base_database, checked, do_json,
}
use mini_deploy.MiniBase.Data.{MiniBaseBinding}
use mini_deploy.Database.{
  DatabaseRuntime, connect, current_database_attachment, deployment_supports_mini_base,
  has_database_url, resolve_attached, resolve_database_runtime, resolve_found,
  validate_managed_database_environment, with_database_url,
}

-- How the runtime of a deployment follows from its record and its environment.
pub data Resolves (r : DeploymentRecord) (environment : Environment) (runtime : DatabaseRuntime)
    : Type 0 where
  unattached :
      current_database_attachment r ≡ ok none
      → runtime.environment ≡ environment
      → runtime.data_network ≡ []
      → Resolves r environment runtime
  attached :
      (a : DatabaseAttachmentRecord) (connection : Text)
      → current_database_attachment r ≡ ok (some a)
      → deployment_supports_mini_base r ≡ true
      → has_database_url environment ≡ false
      → runtime.environment ≡ with_database_url connection environment
      → runtime.data_network ≡ reactor_lab_data_network
      → Resolves r environment runtime

checked-valid :
    (b : MiniBaseBinding) (w : World)
    → Returns (λ c _. valid_mini_base_binding c ≡ true) (checked (valid_mini_base_binding b) b) w
checked-valid b w =
    Returns-if_of _ (valid_mini_base_binding b) _ _ w (λ h. Returns-pure _ b w h)
      (λ h. Returns-fail _ _ w)

resolve_binding-valid :
    (id : Text) (w : World)
    → Returns (λ b _. valid_mini_base_binding b ≡ true) (MiniBase.resolve_binding id) w
unfolding MiniBase.resolve_binding
resolve_binding-valid id w =
    Returns-if _ _ _ _ w (Returns-fail _ _ w) (Returns-then _ _ _ w λ b w1. checked-valid b w1)

valid_binding-network :
    (b : MiniBaseBinding)
    → valid_mini_base_binding b ≡ true
    → b.docker_network ≡ reactor_lab_data_network
unfolding valid_mini_base_binding
valid_binding-network b h = ground (arith, eq_iff b.docker_network reactor_lab_data_network)

no_conflict :
    (r : DeploymentRecord) (environment : Environment) (a : DatabaseAttachmentRecord) (u : Unit {0})
    → current_database_attachment r ≡ ok (some a)
    → validate_managed_database_environment r environment ≡ ok u
    → has_database_url environment ≡ false
unfolding validate_managed_database_environment
no_conflict r environment a u e h = ground (arith, e, h)

connect-Resolves :
    (r : DeploymentRecord) (environment : Environment) (a : DatabaseAttachmentRecord)
    (b : MiniBaseBinding) (w : World)
    → current_database_attachment r ≡ ok (some a)
    → deployment_supports_mini_base r ≡ true
    → has_database_url environment ≡ false
    → valid_mini_base_binding b ≡ true
    → Returns (λ runtime _. Resolves r environment runtime) (connect environment b) w
unfolding connect
connect-Resolves r environment a b w e s h valid =
    Returns-then _ _ _ w
      λ url w1. Returns-pure _ _ w1 (attached a _ e s h refl (valid_binding-network b valid))

resolve_attached-Resolves :
    (r : DeploymentRecord) (environment : Environment) (a : DatabaseAttachmentRecord) (w : World)
    → current_database_attachment r ≡ ok (some a)
    → Returns (λ runtime _. Resolves r environment runtime) (resolve_attached r environment a) w
unfolding resolve_attached
resolve_attached-Resolves r environment a w e =
    Returns-if_of _ (not (deployment_supports_mini_base r)) _ _ w (λ _. Returns-fail _ _ w)
      λ s.
        Returns-bind (λ _ _. has_database_url environment ≡ false) _ _ _ w
          (Returns-lift _ _ w λ u h. no_conflict r environment a u e h)
          λ _ w1 h.
            Returns-bind (λ b _. valid_mini_base_binding b ≡ true) _ _ _ w1
              (resolve_binding-valid a.attachment_id w1)
              λ b w2 valid.
                Returns-if _ _ _ _ w2 (Returns-fail _ _ w2)
                  (connect-Resolves r environment a b w2 e (not_false _ s) h valid)
  where
    not_false : (b : Bool) → not b ≡ false → b ≡ true
    not_false true h = refl
    not_false false h = cc

resolve_found-Resolves :
    (r : DeploymentRecord) (environment : Environment) (found : Option DatabaseAttachmentRecord)
    (w : World)
    → current_database_attachment r ≡ ok found
    → Returns (λ runtime _. Resolves r environment runtime) (resolve_found r environment found) w
resolve_found-Resolves r environment none w e = Returns-pure _ _ w (unattached e refl refl)
resolve_found-Resolves r environment (some a) w e = resolve_attached-Resolves r environment a w e

-- A database runtime that is resolved without an error is that of the environment alone where the record
-- has no attachment. Where it has one, a valid one, the deployment is of a kind that a database fits, its
-- own environment sets no DATABASE_URL, and the runtime sets it and joins the private data network,
-- whatever MiniBase replied.
pub resolve_database_runtime-Resolves :
    (r : DeploymentRecord) (environment : Environment) (w : World) (runtime : DatabaseRuntime)
    → (resolve_database_runtime r environment w).0 ≡ ok runtime
    → Resolves r environment runtime
resolve_database_runtime-Resolves r environment w runtime h =
    returned (λ t _. Resolves r environment t) (resolve_database_runtime r environment) w runtime
      (unfold resolve_database_runtime in
        Returns-bind (λ found _. current_database_attachment r ≡ ok found) _ _ _ w
          (Returns-lift _ _ w λ found e. e)
          λ found w1 e. resolve_found-Resolves r environment found w1 e)
      h
