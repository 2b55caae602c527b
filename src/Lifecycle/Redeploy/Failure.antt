-- ===== src/Lifecycle/Redeploy/Failure.antt =====
-- A redeployment that fails has not touched the release in service.
use mini_deploy.Prelude.{refl, ◌≡◌, false, keep_if, [], ◌∷◌}
use mini_deploy.Records.{DeploymentRecord}
use mini_deploy.Result.{err, Error}
use mini_deploy.World.{World, Environment, Event}
use mini_deploy.World.Keeps.{
  Keeps, Keeps-bind, Keeps-try, Keeps-ignore, Keeps-pure, Keeps-gets, keeps_rules, Safe, Safe-bind,
  Safe-Succeeds, Succeeds, Succeeds-bind, Succeeds-pure, Succeeds-ignore, Succeeds-try,
}
use mini_deploy.Environment.{RuntimeEnvironmentChange}
use mini_deploy.Lifecycle.Platform.{Platform}
use mini_deploy.Lifecycle.Keeps.Database.{IsQuiet, resolve-Spares, migration-Spares}
use mini_deploy.Lifecycle.Keeps.Checkout.{
  inspect_source-Spares, strategy-Spares, build_image-Spares,
}
use mini_deploy.Lifecycle.Retire.{remove_image}
use mini_deploy.Lifecycle.Retire.Total.{
  remove_pruned_history_images-Succeeds, retire_container-Succeeds, if_ok-Succeeds,
}
use mini_deploy.Lifecycle.Keeps.{Spares, Spares-run, touches}
use mini_deploy.Lifecycle.Keeps.Files.{
  Store-save-Spares, commit-Spares, rollback-Spares, sync_proxy_routes-Spares,
}
use mini_deploy.Lifecycle.Keeps.Containers.{
  on_error-Spares, if_ok-Spares, remove_container-Spares, remove_image-Spares, start-Spares,
  find_deploy_port-Spares, startup-Spares, health-Spares, image_id-Spares,
}
use mini_deploy.Lifecycle.Redeploy.{
  Candidate, Healthy, cleanup_candidate, reject_candidate, build_candidate, restore_old, cut_over,
  retire, release,
}

-- The names of a candidate are not those of the release in service.
pub record IsOther (old : DeploymentRecord) (c : Candidate) : Type 0 where
  pub container : touches old (Event.docker_rm c.container) ≡ false
  pub image : touches old (Event.image_rm c.image) ≡ false

module _ (p : Platform) (old : DeploymentRecord) (v : World) (q : IsQuiet old v.host) where
  cleanup-Spares : (c : Candidate) → IsOther old c → Keeps (Spares old v) (cleanup_candidate c)
  unfolding cleanup_candidate
  cleanup-Spares c o =
      search (
        keeps_rules,
        remove_container-Spares old v,
        remove_image-Spares old v,
        o.container,
        o.image,
      )

  reject-Spares : (c : Candidate) → IsOther old c → Keeps (Spares old v) (reject_candidate c)
  unfolding reject_candidate
  reject-Spares c o = search (keeps_rules, Spares-run old v, cleanup-Spares)

  build-Spares :
      (environment : Environment) (c : Candidate)
      → IsOther old c
      → Keeps (Spares old v) (build_candidate p old environment c)
  unfolding build_candidate
  build-Spares environment c o = Keeps-bind _ _ (Spares-run old v _ _ refl) λ _.
      Keeps-bind _ _ (inspect_source-Spares old v _ _) λ source.
        Keeps-bind _ _ (strategy-Spares old v _ _) λ plan.
          Keeps-bind _ _ (build_image-Spares old v _ _ _) λ _.
            Keeps-bind _ _ (on_error-Spares old v _ _ (image_id-Spares old v _) drop) λ id.
              Keeps-bind _ _ (on_error-Spares old v _ _ (resolve-Spares old v _ _) drop) λ runtime.
                Keeps-bind _ _ (on_error-Spares old v _ _ (migration-Spares old v _ _ _ _ q) drop)
                  λ _.
                    Keeps-bind _ _ (on_error-Spares old v _ _ (find_deploy_port-Spares old v) drop)
                      λ port.
                        Keeps-bind _ _
                          (on_error-Spares old v _ _
                            (start-Spares old v _ _ _ _ _ _ _ _ o.container) drop)
                          λ _.
                            Keeps-bind _ _
                              (on_error-Spares old v _ _ (startup-Spares old v _)
                                (reject-Spares c o))
                              λ _.
                                Keeps-bind _ _
                                  (on_error-Spares old v _ _ (health-Spares old v _ _)
                                    (reject-Spares c o))
                                  λ _. Keeps-pure _
    where
      drop : Keeps (Spares old v) (remove_image c.image)
      drop = remove_image-Spares old v c.image o.image

  restore-Spares :
      (change : RuntimeEnvironmentChange) (c : Candidate)
      → IsOther old c
      → Keeps (Spares old v) (restore_old p old change c)
  unfolding restore_old
  restore-Spares change c o = Keeps-bind _ _ (Keeps-try _ (Store-save-Spares old v old)) λ restored.
      Keeps-bind _ _ (if_ok-Spares old v _ _ (λ _. Keeps-ignore _ (sync_proxy_routes-Spares old v)))
        λ _. Keeps-bind _ _ (Keeps-ignore _ (rollback-Spares old v change)) λ _. cleanup-Spares c o

  cut_over-Spares :
      (change : RuntimeEnvironmentChange) (c : Candidate) (h : Healthy)
      → IsOther old c
      → Keeps (Spares old v) (cut_over p old change c h)
  unfolding cut_over
  cut_over-Spares change c h o =
      Keeps-bind _ _ (on_error-Spares old v _ _ (commit-Spares old v _) (cleanup-Spares c o))
        λ committed. Keeps-bind _ _ (Keeps-gets _) λ now.
          Keeps-bind _ _
            (on_error-Spares old v _ _ (Store-save-Spares old v _) (
              Keeps-bind _ _ (Keeps-ignore _ (rollback-Spares old v committed))
                λ _. cleanup-Spares c o))
            λ _.
              Keeps-bind _ _
                (on_error-Spares old v _ _ (sync_proxy_routes-Spares old v)
                  (restore-Spares committed c o))
                λ _. Keeps-pure _

  retire-Succeeds : (c : Candidate) → Succeeds (retire p old c)
  unfolding retire
  retire-Succeeds c = Succeeds-bind _ _ (Succeeds-try _) λ pushed.
      Succeeds-bind _ _
        (if_ok-Succeeds pushed _ (remove_pruned_history_images-Succeeds (c.image ∷ [])))
        λ _.
          Succeeds-bind _ _ (Succeeds-ignore _)
            λ _. retire_container-Succeeds old.container c.container

  pub release-Safe :
      (change : RuntimeEnvironmentChange) (c : Candidate)
      → IsOther old c
      → Safe (Spares old v) (release p old change c)
  unfolding release
  release-Safe change c o = Safe-bind _ _ (build-Spares change.effective c o) λ h.
      Safe-bind _ _ (cut_over-Spares change c h o)
        λ new. Safe-Succeeds _ (Succeeds-bind _ _ (retire-Succeeds c) λ _. Succeeds-pure new)

-- Where a redeployment to a candidate of other names fails, at any step and whatever the host answers,
-- no command of it stops or removes the container or the image of the release in service: the commands
-- that do are those from before it. The clock gives a migration another name than the release has.
pub release-Spares :
    (p : Platform) (old : DeploymentRecord) (change : RuntimeEnvironmentChange) (c : Candidate)
    (w : World) (e : Error)
    → IsQuiet old w.host
    → IsOther old c
    → (release p old change c w).0 ≡ err e
    → keep_if (touches old) (release p old change c w).1.trace ≡ keep_if (touches old) w.trace
release-Spares p old change c w e q o h =
    ((release-Safe p old w q change c o).at w (record { host = refl; untouched = refl }) e
      h).untouched
