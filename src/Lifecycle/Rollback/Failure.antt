-- ===== src/Lifecycle/Rollback/Failure.antt =====
-- A rollback of app/rollback.go that fails has not touched the release in service.
use mini_deploy.Prelude.{ℤ, refl, ◌≡◌, false, List, [], ◌∷◌, keep_if, if◌then◌else◌}
use mini_deploy.Text.{Text, ◌==◌}
use mini_deploy.Records.{DeploymentRecord, DeploymentVersion}
use mini_deploy.Result.{err, Error, database_detached}
use mini_deploy.Strategy
use mini_deploy.Config.{normalize_deployment_record}
use mini_deploy.World.{World, Host, Event, Environment, fail}
use mini_deploy.World.Keeps.{
  Keeps, Keeps-bind, Keeps-try, Keeps-ignore, Keeps-pure, Keeps-gets, Keeps-lift, Keeps-fail, Safe,
  Safe-bind, Safe-Keeps, Safe-Succeeds, Safe-if, Succeeds, Succeeds-bind, Succeeds-pure,
  Succeeds-try, Succeeds-gets, Safe-gets,
}
use mini_deploy.Lifecycle.Platform.{Platform}
use mini_deploy.Database.{DatabaseRuntime}
use mini_deploy.Lifecycle.Keeps.Database.{IsQuiet, resolve-Spares, migration-Spares}
use mini_deploy.Lifecycle.Keeps.{Spares, Spares-run, touches}
use mini_deploy.Lifecycle.Keeps.Files.{
  Store-save-Spares, sync_proxy_routes-Spares, Environment-load-Spares, History-list-Spares,
}
use mini_deploy.Lifecycle.Keeps.Containers.{
  on_error-Spares, if_ok-Spares, remove_container-Spares, start-Spares, find_deploy_port-Spares,
  startup-Spares, health-Spares,
}
use mini_deploy.Lifecycle.Retire.Total.{
  remove_pruned_history_images-Succeeds, retire_container-Succeeds, if_ok-Succeeds,
}
use mini_deploy.Lifecycle.Rollback.{
  rollback_container, reject_rollback, prepare_rollback, start_rollback, restore_current,
  switch_back, retire_current, rollback_to, rollback_first, rollback_single, rollback_deployment,
}

-- At no time does the clock give a rollback candidate the name of the container in service.
pub record IsFresh (current : DeploymentRecord) (host : Host) : Type 0 where
  pub container :
      (trace : List Event)
      → touches current (Event.docker_rm (rollback_container current.app (host.now trace))) ≡ false

module _ (p : Platform) (current : DeploymentRecord) (v : World) (q : IsQuiet current v.host) where
  reject-Spares :
      (c : Text)
      → touches current (Event.docker_rm c) ≡ false
      → Keeps (Spares current v) (reject_rollback c)
  unfolding reject_rollback
  reject-Spares c o =
      Keeps-bind _ _ (Keeps-ignore _ (Spares-run current v _ _ refl))
        λ _. remove_container-Spares current v c o

  prepare_rollback-Spares :
      (previous : DeploymentRecord) (environment : Environment)
      → Keeps (Spares current v) (prepare_rollback p current previous environment)
  unfolding prepare_rollback
  prepare_rollback-Spares previous environment = Keeps-bind _ _ (Spares-run current v _ _ refl) λ _.
      Keeps-bind _ _ (resolve-Spares current v _ _)
        λ runtime. Keeps-bind _ _ (migration-Spares current v _ _ _ _ q) λ _. Keeps-pure _

  start_rollback-Spares :
      (previous : DeploymentRecord) (runtime : DatabaseRuntime) (c : Text)
      → touches current (Event.docker_rm c) ≡ false
      → Keeps (Spares current v) (start_rollback p current previous runtime c)
  unfolding start_rollback
  start_rollback-Spares previous runtime c o =
      Keeps-bind _ _ (find_deploy_port-Spares current v) λ port.
        Keeps-bind _ _ (start-Spares current v _ _ _ _ _ _ _ _ o) λ _.
          Keeps-bind _ _
            (on_error-Spares current v _ _ (startup-Spares current v _) (reject-Spares c o))
            λ _.
              Keeps-bind _ _
                (on_error-Spares current v _ _ (health-Spares current v _ _) (reject-Spares c o))
                λ _. Keeps-pure _

  restore_current-Spares :
      (c : Text)
      → touches current (Event.docker_rm c) ≡ false
      → Keeps (Spares current v) (restore_current p current c)
  unfolding restore_current
  restore_current-Spares c o =
      Keeps-bind _ _ (Keeps-try _ (Store-save-Spares current v current)) λ restored.
        Keeps-bind _ _
          (if_ok-Spares current v _ _ (λ _. Keeps-ignore _ (sync_proxy_routes-Spares current v)))
          λ _. remove_container-Spares current v c o

  switch_back-Spares :
      (previous : DeploymentRecord) (environment : Environment) (c : Text) (port : ℤ)
      → touches current (Event.docker_rm c) ≡ false
      → Keeps (Spares current v) (switch_back p current previous environment c port)
  unfolding switch_back
  switch_back-Spares previous environment c port o = Keeps-bind _ _ (Keeps-gets _) λ now.
      Keeps-bind _ _
        (on_error-Spares current v _ _ (Store-save-Spares current v _)
          (remove_container-Spares current v c o))
        λ _.
          Keeps-bind _ _
            (on_error-Spares current v _ _ (sync_proxy_routes-Spares current v)
              (restore_current-Spares c o))
            λ _. Keeps-pure _

  retire_current-Succeeds :
      (older : List DeploymentVersion) (new : DeploymentRecord) (c : Text)
      → Succeeds (retire_current p current older new c)
  unfolding retire_current
  retire_current-Succeeds older new c = Succeeds-bind _ _ (Succeeds-gets _) λ now.
      Succeeds-bind _ _ (Succeeds-try _) λ pruned.
        Succeeds-bind _ _
          (if_ok-Succeeds pruned _ (remove_pruned_history_images-Succeeds (new.image ∷ [])))
          λ _. retire_container-Succeeds current.container c

  rollback_to-Safe :
      (environment : Environment) (version : DeploymentVersion) (older : List DeploymentVersion)
      → IsFresh current v.host
      → Safe (Spares current v) (rollback_to p current environment version older)
  unfolding rollback_to
  rollback_to-Safe environment version older n =
      Safe-bind _ _ (prepare_rollback-Spares _ _) λ runtime. Safe-gets _ _ λ w s.
        let c = rollback_container current.app (w.host.now w.trace) in
        let o : touches current (Event.docker_rm c) ≡ false = rw s.host (n.container w.trace) in
        Safe-bind _ _ (start_rollback-Spares _ _ c o) λ port.
          Safe-bind _ _ (switch_back-Spares _ _ c port o) λ new.
            Safe-Succeeds _
              (Succeeds-bind _ _ (retire_current-Succeeds _ _ _) λ _. Succeeds-pure new)

  rollback_first-Safe :
      (environment : Environment) (versions : List DeploymentVersion)
      → IsFresh current v.host
      → Safe (Spares current v) (rollback_first p current environment versions)
  rollback_first-Safe environment [] n = Safe-Keeps _ (Keeps-fail _)
  rollback_first-Safe environment (version ∷ older) n = rollback_to-Safe environment version older n

  pub rollback_single-Safe :
      IsFresh current v.host → Safe (Spares current v) (rollback_single p current)
  unfolding rollback_single
  rollback_single-Safe n = Safe-bind _ _ (Environment-load-Spares current v _) λ environment.
      Safe-bind _ _ (Keeps-lift _) λ _.
        Safe-bind _ _ (History-list-Spares current v _)
          λ versions. rollback_first-Safe environment versions n

rollback_deployment-Safe :
    (p : Platform) (r : DeploymentRecord) (v : World)
    → IsQuiet (normalize_deployment_record r) v.host
    → IsFresh (normalize_deployment_record r) v.host
    → ((normalize_deployment_record r).strategy == Strategy.fullstack_vite_node) ≡ false
    → Safe (Spares (normalize_deployment_record r) v) (rollback_deployment p r)
unfolding rollback_deployment
rollback_deployment-Safe p r v q n h =
    Safe-if ((normalize_deployment_record r).database_detached) (fail database_detached)
      (if (normalize_deployment_record r).strategy == Strategy.fullstack_vite_node
        then p.rollback_fullstack (normalize_deployment_record r)
        else rollback_single p (normalize_deployment_record r))
      (Safe-Keeps _ (Keeps-fail _))
      (rw h (rollback_single-Safe p (normalize_deployment_record r) v q n))

-- Where the rollback of a single service fails, at any step and whatever the host answers, no command of
-- it stops or removes the container or the image of the release in service: the commands that do are
-- those from before it. The record counts in its normal form. The clock gives the candidate and its
-- migration other names than the release has.
pub rollback_deployment-Spares :
    (p : Platform) (r : DeploymentRecord) (w : World) (e : Error)
    → IsQuiet (normalize_deployment_record r) w.host
    → IsFresh (normalize_deployment_record r) w.host
    → ((normalize_deployment_record r).strategy == Strategy.fullstack_vite_node) ≡ false
    → (rollback_deployment p r w).0 ≡ err e
    → keep_if (touches (normalize_deployment_record r)) (rollback_deployment p r w).1.trace
      ≡ keep_if (touches (normalize_deployment_record r)) w.trace
rollback_deployment-Spares p r w e q n h k =
    ((rollback_deployment-Safe p r w q n h).at w (record { host = refl; untouched = refl }) e
      k).untouched
