-- ===== src/Lifecycle/Deploy/Success.antt =====
-- deployRepository of app/deploy.go where it returns without an error: the record is stored.
use mini_deploy.Prelude.{◌≡◌, refl, ◌∙◌, sym, Option, none, some, List}
use mini_deploy.Text.{Text}
use mini_deploy.Records.{DatabaseAttachmentRecord, DeploymentRecord, DeploymentSourceRecord}
use mini_deploy.Result.{Result, ok, err, Error}
use mini_deploy.Environment.{RuntimeEnvironmentChange}
use mini_deploy.Detect.Plan.{DeploymentConfig, ProjectPlan}
use mini_deploy.Path.{FilePath}
use mini_deploy.Proxy.{sync_proxy_routes}
use mini_deploy.Proxy.Effects.{Serves, Unserved, sync_proxy_routes-Serves}
use mini_deploy.World.{World, Environment}
use mini_deploy.World.Spec.{Outcome}
use mini_deploy.World.Returns.{
  Returns, Returns-of, Returns-pure, Returns-fail, Returns-if, Returns-try, Returns-bind,
  Returns-then, Returns-on_error,
}
use mini_deploy.World.Keeps.{Keeps-gets, Keeps-lift}
use mini_deploy.Lifecycle.Live.{Stored, save-Stored}
use mini_deploy.Lifecycle.Unchanged.{Unchanged, Returns-Unchanged}
use mini_deploy.Lifecycle.Unchanged.Containers.{on_error-Unchanged}
use mini_deploy.Lifecycle.Unchanged.Files.{commit-Unchanged, prepare-Unchanged}
use mini_deploy.Lifecycle.Unchanged.Steps.{
  check_out-Unchanged, cleanup-Unchanged, create_initial-Unchanged, detect_strategy-Unchanged,
  start_initial-Unchanged,
}
use mini_deploy.Lifecycle.Platform.{Platform}
use mini_deploy.Lifecycle.Redeploy.{Candidate}
use mini_deploy.Lifecycle.Deploy.{
  Attempt, Attempt.deployed, Attempt.retained, activate, attempt, attachments_of,
  deploy_application, deploy_repository, end_fullstack, publish, published, settle, undo_publish,
}

-- A full-stack deployment that returns without an error has stored its record.
pub record IsStoring (p : Platform) : Type 0 where
  pub deploys :
      (app repo_url : Text) (source : DeploymentSourceRecord) (project : ProjectPlan)
      (change : RuntimeEnvironmentChange) (attachments : List DatabaseAttachmentRecord)
      (v w : World)
      → Unchanged v w
      → Returns (Stored v) (p.deploy_fullstack app repo_url source project change attachments) w

module _ (v : World) where
  activate-Stored :
      (change : RuntimeEnvironmentChange) (c : Candidate) (r : DeploymentRecord) (w : World)
      → Unchanged v w
      → Returns (λ active. Stored v active.1) (activate change c r) w
  unfolding activate
  activate-Stored change c r w k =
      Returns-Unchanged v _ _ _ w
        (on_error-Unchanged v _ _ (commit-Unchanged v change) (cleanup-Unchanged v c)) k
        λ committed w1 k1. Returns-Unchanged v _ _ _ w1 (Keeps-gets _) k1 λ now w2 k2.
          Returns-bind (λ _. Stored v (record r { activated_at = some now })) _ _ _ w2
            (Returns-on_error _ _ _ w2 (save-Stored v _ w2 k2)) λ _ w3 s. Returns-pure _ _ w3 s

  -- What an attempt leaves: a record that is deployed is stored.
  Ends : Attempt → World → Type 0
  Ends (deployed d) w = Stored v d w
  Ends (retained e) w = Unit {0}

  synced-Stored :
      (d : DeploymentRecord) (u w : World) (r : Result (Unit {0}))
      → Stored v d u
      → Outcome (λ _. Serves u) (Unserved u) r w
      → (a : Unit {0}) → r ≡ ok a
      → Stored v d w
  synced-Stored d u w (ok _) s h a e = record {
    records = s.records;
    parsed = h.deployments ∙ sym h.parsed ∙ s.parsed;
    found = s.found;
  }
  synced-Stored d u w (err x) s h a e = cc

  undo_publish-Ends :
      (committed : RuntimeEnvironmentChange) (c : Candidate) (e : Error) (r : Result (Unit {0}))
      (w : World)
      → Returns Ends (undo_publish committed c e r) w
  unfolding undo_publish Ends
  undo_publish-Ends committed c e (err x) w = Returns-pure _ (retained e) w tt
  undo_publish-Ends committed c e (ok _) w = Returns-then _ _ _ w λ _ w1.
      Returns-then _ _ _ w1
        λ _ w2. Returns-then _ _ _ w2 λ _ w3. Returns-then _ _ _ w3 λ _ w4. Returns-fail _ e w4

  published-Ends :
      (committed : RuntimeEnvironmentChange) (c : Candidate) (d : DeploymentRecord)
      (r : Result (Unit {0})) (w : World)
      → ((a : Unit {0}) → r ≡ ok a → Stored v d w)
      → Returns Ends (published committed c d r) w
  unfolding Ends
  published-Ends committed c d (ok a) w k = Returns-pure _ (deployed d) w (k a refl)
  published-Ends committed c d (err e) w k =
      Returns-then _ _ _ w λ deleted w1. undo_publish-Ends committed c e deleted w1

  publish-Ends :
      (attachment : Option DatabaseAttachmentRecord) (c : Candidate)
      (active : RuntimeEnvironmentChange × DeploymentRecord) (w : World)
      → Stored v active.1 w
      → Returns Ends (publish attachment c active) w
  unfolding publish Ends
  publish-Ends none c (committed, new) w s = Returns-pure _ (deployed new) w s
  publish-Ends (some attachment) c (committed, new) w s =
      Returns-bind (λ r u. (a : Unit {0}) → r ≡ ok a → Stored v new u) _ _ _ w
        (Returns-try _ _ w (
          Returns-of _ sync_proxy_routes w (
            synced-Stored new w (sync_proxy_routes w).1 (sync_proxy_routes w).0 s
              (sync_proxy_routes-Serves w))))
        λ r u k. published-Ends committed c new r u k

  end_fullstack-Ends :
      (attachment : Option DatabaseAttachmentRecord) (app : Text) (path : FilePath)
      (r : Result DeploymentRecord) (w : World)
      → ((d : DeploymentRecord) → r ≡ ok d → Stored v d w)
      → Returns Ends (end_fullstack attachment app path r) w
  unfolding Ends
  end_fullstack-Ends attachment app path (ok d) w k = Returns-pure _ (deployed d) w (k d refl)
  end_fullstack-Ends attachment app path (err e) w k = Returns-then _ _ _ w λ recovery w1.
      Returns-then _ _ _ w1 λ _ w2.
        Returns-if _ recovery _ _ w2 (Returns-pure _ (retained e) w2 tt) (Returns-fail _ e w2)

  settle-Stored :
      (attachment : Option DatabaseAttachmentRecord) (r : Result Attempt) (w : World)
      → ((a : Attempt) → r ≡ ok a → Ends a w)
      → Returns (Stored v) (settle attachment r) w
  unfolding settle Ends
  settle-Stored attachment (ok (deployed d)) w k = Returns-pure _ d w (k (deployed d) refl)
  settle-Stored attachment (ok (retained e)) w k = Returns-fail _ e w
  settle-Stored none (err e) w k = Returns-fail _ e w
  settle-Stored (some attachment) (err e) w k = Returns-then _ _ _ w λ _ w1. Returns-fail _ e w1

module _ (p : Platform) (s : IsStoring p) (v : World) where
  attempt-Ends :
      (app repo_url : Text) (source : DeploymentSourceRecord) (project : ProjectPlan)
      (change : RuntimeEnvironmentChange) (attachment : Option DatabaseAttachmentRecord)
      (c : Candidate) (w : World)
      → Unchanged v w
      → Returns (Ends v) (attempt p app repo_url source project change attachment c) w
  unfolding attempt
  attempt-Ends app repo_url source project change attachment c w k =
      Returns-if _ _ _ _ w
        (Returns-bind (λ r u. (d : DeploymentRecord) → r ≡ ok d → Stored v d u) _ _ _ w
          (Returns-try _ _ w
            (s.deploys app repo_url source project change (attachments_of attachment) v w k))
          λ r u h. end_fullstack-Ends v attachment app c.path r u h)
        (Returns-Unchanged v _ _ _ w
          (start_initial-Unchanged v app repo_url source project.build change attachment c) k
          λ r w1 k1.
            Returns-bind (λ active. Stored v active.1) _ _ _ w1 (activate-Stored v change c r w1 k1)
              λ active w2 h. publish-Ends v attachment c active w2 h)

  deploy_application-Stored :
      (app repo_url : Text) (requested : DeploymentConfig) (environment : Environment)
      (database_id : Text) (w : World)
      → Unchanged v w
      → Returns (Stored v) (deploy_application p app repo_url requested environment database_id) w
  unfolding deploy_application
  deploy_application-Stored app repo_url requested environment database_id w k =
      Returns-Unchanged v _ _ _ w (prepare-Unchanged v _ _ _) k λ change w1 k1.
        Returns-Unchanged v _ _ _ w1 (Keeps-lift _) k1 λ path w2 k2.
          Returns-Unchanged v _ _ _ w2 (Keeps-gets _) k2 λ stamp w3 k3.
            Returns-Unchanged v _ _ _ w3 (check_out-Unchanged v _ _) k3 λ source w4 k4.
              Returns-Unchanged v _ _ _ w4 (detect_strategy-Unchanged v _ _) k4 λ project w5 k5.
                Returns-Unchanged v _ _ _ w5 (create_initial-Unchanged v app database_id project) k5
                  λ attachment w6 k6.
                    Returns-bind (λ r u. (a : Attempt) → r ≡ ok a → Ends v a u) _ _ _ w6
                      (Returns-try _ _ w6
                        (attempt-Ends app repo_url source project change attachment _ w6 k6))
                      λ ended w7 h. settle-Stored v attachment ended w7 h

  pub deploy_repository-Stored :
      (repo_url : Text) (requested : DeploymentConfig) (environment : Environment)
      (database_id : Text) (w : World)
      → Unchanged v w
      → Returns (Stored v) (deploy_repository p repo_url requested environment database_id) w
  unfolding deploy_repository
  deploy_repository-Stored repo_url requested environment database_id w k =
      Returns-Unchanged v _ _ _ w (Keeps-gets _) k λ parse w1 k1.
        Returns-Unchanged v _ _ _ w1 (Keeps-lift _) k1 λ _ w2 k2.
          Returns-Unchanged v _ _ _ w2 (Keeps-lift _) k2 λ _ w3 k3.
            Returns-Unchanged v _ _ _ w3 (Keeps-lift _) k3 λ _ w4 k4.
              Returns-Unchanged v _ _ _ w4 (Keeps-gets _) k4 λ beyond w5 k5.
                Returns-if _ _ _ _ w5 (Returns-fail _ _ w5)
                  (deploy_application-Stored _ repo_url requested environment database_id w5 k5)
