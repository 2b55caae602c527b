-- ===== src/Fullstack/Failure.antt =====
-- A redeployment of a full-stack project in app/fullstack_lifecycle.go that fails has not touched the release in
-- service.
pub mod Rollback
use mini_deploy.Prelude.{◌≡◌, refl, ℕ, true, Bool, Option, List, [], if◌then◌else◌}
use mini_deploy.Text.{Text, codes, decimal}
use mini_deploy.Records.{DeploymentRecord}
use mini_deploy.Result.{ok}
use mini_deploy.Path.{FilePath}
use mini_deploy.Environment
use mini_deploy.Environment.{RuntimeEnvironmentChange}
use mini_deploy.World.{World, Environment as Values, Io, io}
use mini_deploy.World.Keeps.{
  Keeps, Keeps-bind, Keeps-bind_of, Keeps-gets, Keeps-ignore, Keeps-lift, Keeps-lift_of, Keeps-pure,
  Keeps-try, Safe, Safe-bind, Safe-bind_of, Safe-gets, Safe-Succeeds, Succeeds, Succeeds-bind,
  Succeeds-ignore, Succeeds-pure, Succeeds-try,
}
use mini_deploy.World.Returns.{Returns, returned, Returns-bind, Returns-lift, Returns-then}
use mini_deploy.Lifecycle.Keeps.{Spares, Spares-run}
use mini_deploy.Lifecycle.Keeps.Checkout.{inspect_source-Spares}
use mini_deploy.Lifecycle.Keeps.Containers.{if_ok-Spares, on_error-Spares}
use mini_deploy.Lifecycle.Keeps.Database.{IsQuiet}
use mini_deploy.Lifecycle.Keeps.Files.{
  Store-save-Spares, commit-Spares, prepare-Spares, rollback-Spares, sync_proxy_routes-Spares,
}
use mini_deploy.Lifecycle.Redeploy.Safety.{Safe-finally}
use mini_deploy.Lifecycle.Retire.Total.{if_ok-Succeeds, remove_pruned_history_images-Succeeds}
use mini_deploy.Fullstack.Apart.{Apart}
use mini_deploy.Fullstack.Apart.Build.{
  build_fullstack_release-Apart, build_fullstack_release-Spares,
}
use mini_deploy.Fullstack.Apart.Names.{
  HasOtherNames, IsFreshRelease, new_fullstack_release_record-Apart,
}
use mini_deploy.Fullstack.Apart.Start.{
  cleanup-Spares, start_or_clean_up-Apart, start_or_clean_up-Spares,
}
use mini_deploy.Fullstack.Publish.{activated, restore_release}
use mini_deploy.Fullstack.Redeploy.{
  build_fullstack_candidate, cut_over_fullstack, release_fullstack, replace_source,
  retire_fullstack, safe_redeploy_fullstack,
}

pub activated-Apart :
    (old : DeploymentRecord) (images : Bool) (now : ℕ) (r : DeploymentRecord)
    → Apart old images r
    → Apart old images (activated now r)
activated-Apart old images now r a = record {
  app = a.app;
  network = a.network;
  containers = a.containers;
  other_images = a.other_images;
}

-- The release in service is stored and served again, and a candidate that is apart goes.
pub restore_release-Spares :
    (old : DeploymentRecord) (images : Bool) (v : World) (q : IsQuiet old v.host)
    (r : DeploymentRecord) (rollback : Io (Unit {0}))
    → Keeps (Spares old v) rollback
    → Apart old images r
    → Keeps (Spares old v) (restore_release old r images rollback)
unfolding restore_release
restore_release-Spares old images v q r rollback k a =
    Keeps-bind _ _ (Keeps-try _ (Store-save-Spares old v old)) λ restored.
      Keeps-bind _ _
        (if_ok-Spares old v restored _ (λ _. Keeps-ignore _ (sync_proxy_routes-Spares old v)))
        λ _. Keeps-bind _ _ k λ _. Keeps-ignore _ (cleanup-Spares old images v q r a)

module _ (old : DeploymentRecord) (v : World) (q : IsQuiet old v.host) where
  module _ (release : Text) (n : HasOtherNames old (codes "candidate") release) where
    candidate-Apart :
        (environment : Values) (path : FilePath) (w : World)
        → Returns
            (λ r _. Apart old true r)
            (build_fullstack_candidate old environment release path)
            w
    unfolding build_fullstack_candidate
    candidate-Apart environment path w = Returns-then _ _ _ w λ _ w1.
        Returns-then _ _ _ w1 λ source w2. Returns-then _ _ _ w2 λ disk w3.
          Returns-then _ _ _ w3 λ beyond w4. Returns-then _ _ _ w4 λ plan w5.
            Returns-bind (λ r _. Apart old true r) _ _ _ w5
              (Returns-lift _ _ w5
                (new_fullstack_release_record-Apart old _ release n old.repo_url plan environment))
              λ r w6 a.
                Returns-bind (λ r _. Apart old true r) _ _ _ w6
                  (build_fullstack_release-Apart old r plan w6 a)
                  λ s w7 b. start_or_clean_up-Apart old true _ environment true w7 (record {
                    app = b.app;
                    network = b.network;
                    containers = b.containers;
                    other_images = b.other_images;
                  })

    candidate-Spares :
        (environment : Values) (path : FilePath)
        → Keeps (Spares old v) (build_fullstack_candidate old environment release path)
    unfolding build_fullstack_candidate
    candidate-Spares environment path = Keeps-bind _ _ (Spares-run old v _ _ refl) λ _.
        Keeps-bind _ _ (inspect_source-Spares old v _ _) λ source.
          Keeps-bind _ _ (Keeps-gets _) λ disk. Keeps-bind _ _ (Keeps-gets _) λ beyond.
            Keeps-bind _ _ (Keeps-lift _) λ plan. Keeps-lift_of _ _ λ r e.
              let a =
                new_fullstack_release_record-Apart old _ release n old.repo_url plan environment r
                  e in
              Keeps-bind_of _ _ (build_fullstack_release-Spares old v r plan a) λ w1 h1 s e1.
                let b =
                  returned (λ r _. Apart old true r) _ w1 s
                    (build_fullstack_release-Apart old r plan w1 a) e1 in
                start_or_clean_up-Spares old true v q _ environment (record {
                  app = b.app;
                  network = b.network;
                  containers = b.containers;
                  other_images = b.other_images;
                })

    cut_over-Spares :
        (change : RuntimeEnvironmentChange) (r : DeploymentRecord)
        → Apart old true r
        → Keeps (Spares old v) (cut_over_fullstack old change r)
    unfolding cut_over_fullstack
    cut_over-Spares change r a =
        Keeps-bind _ _
          (on_error-Spares old v _ _ (commit-Spares old v change)
            (Keeps-ignore _ (cleanup-Spares old true v q r a)))
          λ committed. Keeps-bind _ _ (Keeps-gets _) λ now.
            let b = activated-Apart old true now r a in
            Keeps-bind _ _
              (on_error-Spares old v _ _ (Store-save-Spares old v _) (
                Keeps-bind _ _ (Keeps-ignore _ (rollback-Spares old v committed))
                  λ _. Keeps-ignore _ (cleanup-Spares old true v q _ b)))
              λ _.
                Keeps-bind _ _
                  (on_error-Spares old v _ _ (sync_proxy_routes-Spares old v) (
                    restore_release-Spares old true v q _ _
                      (Keeps-ignore _ (rollback-Spares old v committed)) b))
                  λ _. Keeps-pure _

    replace_source-Succeeds : (path : FilePath) → Succeeds (replace_source old path)
    unfolding replace_source
    replace_source-Succeeds path =
        Succeeds-bind _ _ (Succeeds-try _)
          λ current. if_ok-Succeeds current _ (λ c. Succeeds-ignore _)

    retire_fullstack-Succeeds :
        (new : DeploymentRecord) (path : FilePath) → Succeeds (retire_fullstack old new path)
    unfolding retire_fullstack
    retire_fullstack-Succeeds new path = Succeeds-bind _ _ (Succeeds-try _) λ pushed.
        Succeeds-bind _ _ (if_ok-Succeeds pushed _ (remove_pruned_history_images-Succeeds _))
          λ _. Succeeds-bind _ _ (replace_source-Succeeds path) λ _. Succeeds-ignore _

    release_fullstack-Safe :
        (change : RuntimeEnvironmentChange) (path : FilePath)
        → Safe (Spares old v) (release_fullstack old change release path)
    unfolding release_fullstack
    release_fullstack-Safe change path =
        Safe-bind_of _ _ (candidate-Spares change.effective path) λ w h r e.
          let a =
            returned (λ r _. Apart old true r) _ w r (candidate-Apart change.effective path w) e in
          Safe-bind _ _ (cut_over-Spares change r a) λ new.
            Safe-Succeeds _
              (Succeeds-bind _ _ (retire_fullstack-Succeeds new path) λ _. Succeeds-pure new)

  pub safe_redeploy_fullstack-Safe :
      (replacement : Option Values)
      → IsFreshRelease old (codes "candidate") v.host
      → Safe (Spares old v) (safe_redeploy_fullstack old replacement)
  unfolding safe_redeploy_fullstack
  safe_redeploy_fullstack-Safe replacement n = Safe-bind _ _ (Keeps-lift _) λ _.
      Safe-bind _ _ (prepare-Spares old v _ _ _) λ change. Safe-bind _ _ (Keeps-lift _) λ _.
        Safe-bind _ _ (Keeps-lift _) λ _. Safe-gets _ _ λ w s. Safe-bind _ _ (Keeps-lift _) λ path.
          Safe-finally _ _
            (release_fullstack-Safe (decimal (w.host.now w.trace)) (rw s.host (n.at w.trace)) change
              path)
            (Keeps-ignore _ (Spares-run old v _ _ refl))
