-- ===== src/Lifecycle/Redeploy/Safety.antt =====
-- safeRedeploy of app/deploy.go as a whole: where it fails, it has not touched the release in service.
use mini_deploy.Prelude.{refl, ◌≡◌, false, Option, List, keep_if, arith}
use mini_deploy.Text.{Text, ◌==◌}
use mini_deploy.Records.{DeploymentRecord}
use mini_deploy.Result.{ok, err, Error}
use mini_deploy.Strategy
use mini_deploy.Config.{normalize_deployment_record}
use mini_deploy.World.{World, Host, Event, Io, Environment, io}
use mini_deploy.World.Keeps.{
  Keeps, Keeps-bind, Keeps-lift, Keeps-ignore, Keeps-gets, Keeps-pure, Keeps-fail, Safe, Safe-bind,
  Safe-bind_of, Safe-Keeps, Safe-if,
}
use mini_deploy.World.Handle.{finally}
use mini_deploy.Lifecycle.Platform.{Platform}
use mini_deploy.Lifecycle.Keeps.Database.{IsQuiet}
use mini_deploy.Lifecycle.Keeps.{Spares, Spares-run, touches}
use mini_deploy.Lifecycle.Keeps.Files.{prepare-Spares}
use mini_deploy.Lifecycle.Redeploy.{
  Candidate, candidate_container, candidate_image, name_candidate, redeploy_single, safe_redeploy,
}
use mini_deploy.Lifecycle.Redeploy.Failure.{IsOther, release-Safe}

-- At no time does the clock give a candidate the names of the release in service.
pub record IsFresh (old : DeploymentRecord) (host : Host) : Type 0 where
  pub container :
      (trace : List Event)
      → touches old (Event.docker_rm (candidate_container old.app (host.now trace))) ≡ false
  pub image :
      (trace : List Event)
      → touches old (Event.image_rm (candidate_image old.app (host.now trace))) ≡ false

name_candidate_lem :
    (app : Text) (w : World) (c : Candidate)
    → (name_candidate app w).0 ≡ ok c
    → (c.container ≡ candidate_container app (w.host.now w.trace))
      × (c.image ≡ candidate_image app (w.host.now w.trace))
unfolding name_candidate io
name_candidate_lem app w c h = ground arith

pub Safe-finally {ℓ} :
    {A : Type ℓ} {P : World → Type 0} (m : Io A) (deferred : Io (Unit {0}))
    → Safe P m
    → Keeps P deferred
    → Safe P (finally m deferred)
unfolding finally
Safe-finally m deferred k l = record { at = λ w h e f. l.at (m w).1 (k.at w h e f) }

module _ (p : Platform) (old : DeploymentRecord) (v : World) (q : IsQuiet old v.host)
    (n : IsFresh old v.host) where
  candidate-IsOther :
      (w : World) (c : Candidate)
      → Spares old v w
      → (name_candidate old.app w).0 ≡ ok c
      → IsOther old c
  candidate-IsOther w c s h =
      let names = name_candidate_lem old.app w c h in
      record {
        container = rw (names.0, s.host) (n.container w.trace);
        image = rw (names.1, s.host) (n.image w.trace);
      }

  name_candidate-Spares : (app : Text) → Keeps (Spares old v) (name_candidate app)
  unfolding name_candidate
  name_candidate-Spares app = Keeps-bind _ _ (Keeps-gets _) λ stamp.
      Keeps-bind _ _ (Keeps-lift _) λ current. Keeps-bind _ _ (Keeps-lift _) λ path. Keeps-pure _

  pub redeploy_single-Safe :
      (replacement : Option Environment) → Safe (Spares old v) (redeploy_single p old replacement)
  unfolding redeploy_single
  redeploy_single-Safe replacement = Safe-bind _ _ (prepare-Spares old v _ _ _) λ change.
      Safe-bind _ _ (Keeps-lift _) λ _. Safe-bind _ _ (Keeps-lift _) λ _.
        Safe-bind_of _ _ (name_candidate-Spares old.app) λ w s c h.
          Safe-finally _ _ (release-Safe p old v q change c (candidate-IsOther w c s h))
            (Keeps-ignore _ (Spares-run old v _ _ refl))

safe_redeploy-Safe :
    (p : Platform) (r : DeploymentRecord) (replacement : Option Environment) (v : World)
    → IsQuiet (normalize_deployment_record r) v.host
    → IsFresh (normalize_deployment_record r) v.host
    → ((normalize_deployment_record r).strategy == Strategy.fullstack_vite_node) ≡ false
    → Safe (Spares (normalize_deployment_record r) v) (safe_redeploy p r replacement)
unfolding safe_redeploy
safe_redeploy-Safe p r replacement v q n h = Safe-if _ _ _ (Safe-Keeps _ (Keeps-fail _)) (
    Safe-bind _ _ (Keeps-gets _) λ parse.
      Safe-bind _ _ (Keeps-lift _)
        λ _. rw h (redeploy_single-Safe p (normalize_deployment_record r) v q n replacement))

-- Where the redeployment of a single service fails, at any step and whatever the host answers, no
-- command of it stops or removes the container or the image of the release in service: the commands
-- that do are those from before it. The record counts in its normal form. The clock gives the
-- candidate and its migration other names than the release has.
pub safe_redeploy-Spares :
    (p : Platform) (r : DeploymentRecord) (replacement : Option Environment) (w : World) (e : Error)
    → IsQuiet (normalize_deployment_record r) w.host
    → IsFresh (normalize_deployment_record r) w.host
    → ((normalize_deployment_record r).strategy == Strategy.fullstack_vite_node) ≡ false
    → (safe_redeploy p r replacement w).0 ≡ err e
    → keep_if (touches (normalize_deployment_record r)) (safe_redeploy p r replacement w).1.trace
      ≡ keep_if (touches (normalize_deployment_record r)) w.trace
safe_redeploy-Spares p r replacement w e q n h k =
    ((safe_redeploy-Safe p r replacement w q n h).at w (record { host = refl; untouched = refl }) e
      k).untouched
