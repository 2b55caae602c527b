-- ===== src/Fullstack/Failure/Rollback.antt =====
-- A rollback of a full-stack project in app/fullstack_lifecycle.go that fails has not touched the release in
-- service.
use mini_deploy.Prelude.{◌≡◌, refl, false, List, [], ◌∷◌, All, arith}
use mini_deploy.Text.{Text, codes, decimal}
use mini_deploy.Records.{DeploymentRecord, DeploymentServiceRecord, DeploymentVersion}
use mini_deploy.Result.{Result, ok, err}
use mini_deploy.World.{World, Event, Environment}
use mini_deploy.World.Keeps.{
  Keeps, Keeps-bind, Keeps-fail, Keeps-gets, Keeps-gets_of, Keeps-ignore, Keeps-lift, Keeps-lift_of,
  Keeps-pure, Safe, Safe-bind, Safe-bind_of, Safe-Keeps, Safe-Succeeds, Succeeds, Succeeds-bind,
  Succeeds-gets, Succeeds-ignore, Succeeds-pure, Succeeds-try,
}
use mini_deploy.World.Returns.{
  Returns, returned, Returns-bind, Returns-gets, Returns-lift, Returns-of, Returns-then,
}
use mini_deploy.Lifecycle.Keeps.{Spares, Spares-run, touches}
use mini_deploy.Lifecycle.Keeps.Containers.{on_error-Spares}
use mini_deploy.Lifecycle.Keeps.Database.{IsQuiet}
use mini_deploy.Lifecycle.Keeps.Files.{
  Environment-load-Spares, History-list-Spares, Store-save-Spares, sync_proxy_routes-Spares,
}
use mini_deploy.Lifecycle.Retire.Total.{if_ok-Succeeds, remove_pruned_history_images-Succeeds}
use mini_deploy.Fullstack.{fullstack_service_container_name}
use mini_deploy.Proxy.Fullstack.{validate_fullstack_service_metadata}
use mini_deploy.Fullstack.Apart.{Apart, OtherContainer, normalize-Apart}
use mini_deploy.Fullstack.Apart.Names.{
  HasOtherNames, IsFreshRelease, container_name-Other, network_name-Other,
}
use mini_deploy.Fullstack.Apart.Start.{
  cleanup-Spares, start_or_clean_up-Apart, start_or_clean_up-Spares,
}
use mini_deploy.Fullstack.Failure.{activated-Apart, restore_release-Spares}
use mini_deploy.Fullstack.Rollback.{
  check_images, name_containers, retire_current_fullstack, returning_record, returning_service,
  rollback_fullstack, rollback_fullstack_to, start_returning, start_named, switch_back_fullstack,
}

module _ (old : DeploymentRecord) (release : Text)
    (n : HasOtherNames old (codes "rollback") release) where
  joined-Other :
      (container : Result Text) (rest : Result (List DeploymentServiceRecord))
      (s : DeploymentServiceRecord) (ts : List DeploymentServiceRecord)
      → ((c : Text) → container ≡ ok c → touches old (Event.docker_rm c) ≡ false)
      → ((later : List DeploymentServiceRecord) → rest ≡ ok later → All (OtherContainer old) later)
      → ◌≡◌ {A = Result (List DeploymentServiceRecord)}
          (elim container [
            | err e ↦ err e
            | ok c ↦ elim rest [ ok later ↦ ok (returning_service c s ∷ later) | err e ↦ err e ]
          ])
          (ok ts)
      → All (OtherContainer old) ts
  joined-Other (err e) rest s ts k l h = cc
  joined-Other (ok c) (err e) s ts k l h = cc
  joined-Other (ok c) (ok later) s ts k l h =
      let same : returning_service c s ∷ later ≡ ts = ground (arith, h) in
      rw⁻¹ same (k c refl, l later refl)

  name_containers-Other :
      (ss ts : List DeploymentServiceRecord)
      → name_containers old.app release ss ≡ ok ts
      → All (OtherContainer old) ts
  unfolding name_containers
  name_containers-Other [] ts h =
      let same : ◌≡◌ {A = List DeploymentServiceRecord} [] ts = ground (arith, h) in rw⁻¹ same tt
  name_containers-Other (s ∷ ss) ts h =
      joined-Other (fullstack_service_container_name old.app s.name (codes "rollback") release)
        (name_containers old.app release ss) s ts
        (λ c e. container_name-Other old (codes "rollback") release n s.name c e)
        (λ later e. name_containers-Other ss later e) h

  -- The candidate has a network and containers of its own; its images are those of the release that comes back.
  returning-Apart :
      (previous : DeploymentRecord) (environment : Environment) (network : Text)
      (services : List DeploymentServiceRecord)
      → touches old (Event.network_rm network) ≡ false
      → All (OtherContainer old) services
      → Apart old false (returning_record old previous environment network services)
  returning-Apart previous environment network services h k =
      normalize-Apart old false _
        (record { app = refl; network = h; containers = k; other_images = tt })

  start_named-Apart :
      (previous : DeploymentRecord) (environment : Environment) (w : World)
      → Returns (λ r _. Apart old false r) (start_named old previous environment release) w
  unfolding start_named
  start_named-Apart previous environment w =
      Returns-bind (λ network _. touches old (Event.network_rm network) ≡ false) _ _ _ w
        (Returns-lift _ _ w (network_name-Other old (codes "rollback") release n))
        λ network w1 h.
          Returns-bind (λ services _. All (OtherContainer old) services) _ _ _ w1
            (Returns-lift _ _ w1 (name_containers-Other previous.services))
            λ services w2 k. Returns-then _ _ _ w2 λ _ w3.
              start_or_clean_up-Apart old false _ environment false w3
                (returning-Apart previous environment network services h k)

  start_named-Spares :
      (v : World)
      → IsQuiet old v.host
      → (previous : DeploymentRecord) (environment : Environment)
      → Keeps (Spares old v) (start_named old previous environment release)
  unfolding start_named
  start_named-Spares v q previous environment = Keeps-lift_of _ _ λ network e.
      Keeps-lift_of _ _ λ services f. Keeps-bind _ _ (Keeps-lift _) λ _.
        start_or_clean_up-Spares old false v q _ environment (
          returning-Apart previous environment network services
            (network_name-Other old (codes "rollback") release n network e)
            (name_containers-Other previous.services services f))

module _ (old : DeploymentRecord) (v : World) (q : IsQuiet old v.host)
    (n : IsFreshRelease old (codes "rollback") v.host) where
  check_images-Spares :
      (app : Text) (ss : List DeploymentServiceRecord) → Keeps (Spares old v) (check_images app ss)
  unfolding check_images
  check_images-Spares app [] = Keeps-pure tt
  check_images-Spares app (s ∷ ss) =
      Keeps-bind _ _ (Keeps-lift _)
        λ _. Keeps-bind _ _ (Spares-run old v _ _ refl) λ _. check_images-Spares app ss

  names :
      (w : World)
      → Spares old v w
      → HasOtherNames old (codes "rollback") (decimal (w.host.now w.trace))
  names w s = rw s.host (n.at w.trace)

  start_returning-Spares :
      (previous : DeploymentRecord) (environment : Environment)
      → Keeps (Spares old v) (start_returning old previous environment)
  unfolding start_returning
  start_returning-Spares previous environment = Keeps-bind _ _ (Keeps-lift _) λ _.
      Keeps-bind _ _ (check_images-Spares old.app previous.services)
        λ _. Keeps-gets_of _ _ λ w s. start_named-Spares old _ (names w s) v q previous environment

  switch_back-Spares :
      (r : DeploymentRecord)
      → Apart old false r
      → Keeps (Spares old v) (switch_back_fullstack old r)
  unfolding switch_back_fullstack
  switch_back-Spares r a = Keeps-bind _ _ (Keeps-gets _) λ now.
      let b = activated-Apart old false now r a in
      Keeps-bind _ _
        (on_error-Spares old v _ _ (Store-save-Spares old v _)
          (Keeps-ignore _ (cleanup-Spares old false v q _ b)))
        λ _.
          Keeps-bind _ _
            (on_error-Spares old v _ _ (sync_proxy_routes-Spares old v)
              (restore_release-Spares old false v q _ _ (Keeps-pure tt) b))
            λ _. Keeps-pure _

  retire_current-Succeeds :
      (older : List DeploymentVersion) (new : DeploymentRecord)
      → Succeeds (retire_current_fullstack old older new)
  unfolding retire_current_fullstack
  retire_current-Succeeds older new = Succeeds-bind _ _ (Succeeds-gets _) λ now.
      Succeeds-bind _ _ (Succeeds-try _) λ pruned.
        Succeeds-bind _ _ (if_ok-Succeeds pruned _ (remove_pruned_history_images-Succeeds _))
          λ _. Succeeds-ignore _

  start_returning-Apart :
      (previous : DeploymentRecord) (environment : Environment) (w : World)
      → Spares old v w
      → Returns (λ r _. Apart old false r) (start_returning old previous environment) w
  unfolding start_returning
  start_returning-Apart previous environment w s =
      Returns-bind (λ _. Spares old v) _ _ _ w
        (Returns-of _ _ w λ _ _.
          (Keeps-lift {P = Spares old v} (validate_fullstack_service_metadata previous.services)).at
            w s)
        λ _ w1 s1.
          Returns-bind (λ _. Spares old v) _ _ _ w1
            (Returns-of _ _ w1 λ _ _. (check_images-Spares old.app previous.services).at w1 s1)
            λ _ w2 s2.
              Returns-bind (λ release _. HasOtherNames old (codes "rollback") release) _ _ _ w2
                (Returns-gets _ _ w2 (names w2 s2))
                λ release w3 m. start_named-Apart old release m previous environment w3

  rollback_fullstack_to-Safe :
      (environment : Environment) (versions : List DeploymentVersion)
      → Safe (Spares old v) (rollback_fullstack_to old environment versions)
  rollback_fullstack_to-Safe environment [] = Safe-Keeps _ (Keeps-fail _)
  rollback_fullstack_to-Safe environment (version ∷ older) =
      Safe-bind_of _ _ (start_returning-Spares _ environment) λ w s r e.
        let a =
          returned (λ r _. Apart old false r) _ w r (start_returning-Apart _ environment w s) e in
        Safe-bind _ _ (switch_back-Spares r a) λ new.
          Safe-Succeeds _
            (Succeeds-bind _ _ (retire_current-Succeeds older new) λ _. Succeeds-pure new)

  pub rollback_fullstack-Safe : Safe (Spares old v) (rollback_fullstack old)
  unfolding rollback_fullstack
  rollback_fullstack-Safe = Safe-bind _ _ (Keeps-lift _) λ _.
      Safe-bind _ _ (Environment-load-Spares old v _) λ environment.
        Safe-bind _ _ (Keeps-lift _) λ _.
          Safe-bind _ _ (History-list-Spares old v _)
            λ versions. rollback_fullstack_to-Safe environment versions
