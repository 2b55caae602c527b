-- ===== src/Fullstack/Settled.antt =====
-- A deployment, a redeployment and a rollback of a full-stack project in app/fullstack_lifecycle.go that return
-- without an error: what is stored and served.
use mini_deploy.Prelude.{ℕ, true, false, Option, List, [], ◌∷◌, All}
use mini_deploy.Text.{Text}
use mini_deploy.Records.{
  DatabaseAttachmentRecord, DeploymentRecord, DeploymentServiceRecord, DeploymentSourceRecord,
  DeploymentVersion,
}
use mini_deploy.Path.{FilePath}
use mini_deploy.Environment
use mini_deploy.Environment.{RuntimeEnvironmentChange}
use mini_deploy.Detect.Plan.{ProjectPlan}
use mini_deploy.World.Handle.{on_error}
use mini_deploy.Store
use mini_deploy.Proxy.{sync_proxy_routes}
use mini_deploy.Fullstack.Publish.{activated}
use mini_deploy.World.{gets, pure, ◌>>=◌, World, Environment as Values, Io}
use mini_deploy.World.Keeps.{Keeps, Keeps-bind, Keeps-gets, Keeps-ignore, Keeps-lift, Keeps-try}
use mini_deploy.World.Returns.{
  Returns, Returns-of, Returns-bind, Returns-fail, Returns-finally, Returns-pure,
}
use mini_deploy.Lifecycle.Live.{Settled, Returns-Settled, Returns-saved_and_synced}
use mini_deploy.Lifecycle.Unchanged.{Unchanged, Returns-Unchanged}
use mini_deploy.Lifecycle.Unchanged.Containers.{on_error-Unchanged}
use mini_deploy.Lifecycle.Unchanged.Files.{
  commit-Unchanged, prepare-Unchanged, Environment-load-Unchanged, History-list-Unchanged,
}
use mini_deploy.Fullstack.Unchanged.{
  build_fullstack_release-Unchanged, candidate-Unchanged, cleanup-Unchanged,
  start_or_clean_up-Unchanged, start_returning-Unchanged,
}
use mini_deploy.Lifecycle.Keeps.Settled.{
  event-Settled, run-Settled, History-push-Settled, History-set-Settled,
  remove_pruned_history_images-Settled, replace_deployment_source-Settled, if_ok-Settled,
}
use mini_deploy.Fullstack.Resources.{cleanup_fullstack_release}
use mini_deploy.Fullstack.Resources.Keeps.{cleanup-Keeps}
use mini_deploy.Fullstack.Deploy.{publish_release, deploy_fullstack_project}
use mini_deploy.Fullstack.Redeploy.{
  cut_over_fullstack, replace_source, retire_fullstack, release_fullstack, safe_redeploy_fullstack,
}
use mini_deploy.Fullstack.Rollback.{
  switch_back_fullstack, retire_current_fullstack, rollback_fullstack_to, rollback_fullstack,
}

each :
    (P : DeploymentServiceRecord → Type 0) (ss : List DeploymentServiceRecord)
    → ((s : DeploymentServiceRecord) → P s)
    → All P ss
each P [] h = tt
each P (s ∷ ss) h = (h s, each P ss h)

pub cleanup-Settled :
    (v : World) (d r : DeploymentRecord) → Keeps (Settled v d) (cleanup_fullstack_release r false)
cleanup-Settled v d r =
    cleanup-Keeps (λ e h. event-Settled v d e) r false
      (record {
        network = event-Settled v d _;
        containers = each _ r.services λ s. event-Settled v d _;
        each_image = tt;
      })

module _ (v : World) where
  -- A commit, a save and a synchronisation, whatever is done where one of them fails.
  committed_and_synced-Settled :
      (change : RuntimeEnvironmentChange) (new : ℕ → DeploymentRecord) (uncommit : Io (Unit {0}))
      (unsave unsync : RuntimeEnvironmentChange → ℕ → Io (Unit {0})) (w : World)
      → Keeps (Unchanged v) uncommit
      → Unchanged v w
      → Returns
          (Settled v)
          (on_error (Environment.commit change) uncommit >>= λ committed.
            gets (λ u. u.host.now u.trace) >>= λ now.
            on_error (Store.save (new now)) (unsave committed now) >>= λ _.
            on_error sync_proxy_routes (unsync committed now) >>= λ _. pure (new now))
          w
  committed_and_synced-Settled change new uncommit unsave unsync w h k = Returns-Settled v _ w (
      Returns-Unchanged v _ _ _ w (on_error-Unchanged v _ _ (commit-Unchanged v change) h) k
        λ committed w1 k1.
          Returns-Unchanged v _ _ _ w1 (Keeps-gets _) k1
            λ now w2 k2. Returns-saved_and_synced v _ _ _ w2 k2)

  publish_release-Settled :
      (change : RuntimeEnvironmentChange) (r : DeploymentRecord) (w : World)
      → Unchanged v w
      → Returns (Settled v) (publish_release change r) w
  unfolding publish_release
  publish_release-Settled change r w k =
      committed_and_synced-Settled change (λ now. activated now r) _ _ _ w
        (Keeps-ignore _ (cleanup-Unchanged v r true)) k

  pub deploy_fullstack_project-Settled :
      (app repo_url : Text) (source : DeploymentSourceRecord) (plan : ProjectPlan)
      (change : RuntimeEnvironmentChange) (attachments : List DatabaseAttachmentRecord) (w : World)
      → Unchanged v w
      → Returns (Settled v) (deploy_fullstack_project app repo_url source plan change attachments) w
  unfolding deploy_fullstack_project
  deploy_fullstack_project-Settled app repo_url source plan change attachments w k =
      Returns-Unchanged v _ _ _ w (Keeps-gets _) k λ release w1 k1.
        Returns-Unchanged v _ _ _ w1 (Keeps-lift _) k1 λ r w2 k2.
          Returns-Unchanged v _ _ _ w2 (build_fullstack_release-Unchanged v _ plan) k2
            λ built w3 k3.
              Returns-Unchanged v _ _ _ w3 (start_or_clean_up-Unchanged v built _ true) k3
                λ started w4 k4. publish_release-Settled change started w4 k4

  cut_over_fullstack-Settled :
      (old : DeploymentRecord) (change : RuntimeEnvironmentChange) (candidate : DeploymentRecord)
      (w : World)
      → Unchanged v w
      → Returns (Settled v) (cut_over_fullstack old change candidate) w
  unfolding cut_over_fullstack
  cut_over_fullstack-Settled old change candidate w k =
      committed_and_synced-Settled change (λ now. activated now candidate) _ _ _ w
        (Keeps-ignore _ (cleanup-Unchanged v candidate true)) k

  replace_source-Settled :
      (d old : DeploymentRecord) (path : FilePath) → Keeps (Settled v d) (replace_source old path)
  unfolding replace_source
  replace_source-Settled d old path = Keeps-bind _ _ (Keeps-try _ (Keeps-lift _)) λ current.
      if_ok-Settled v d current _
        (λ c. Keeps-ignore _ (replace_deployment_source-Settled v d c path))

  retire_fullstack-Settled :
      (d old new : DeploymentRecord) (path : FilePath)
      → Keeps (Settled v d) (retire_fullstack old new path)
  unfolding retire_fullstack
  retire_fullstack-Settled d old new path =
      Keeps-bind _ _ (Keeps-try _ (History-push-Settled v d old)) λ pushed.
        Keeps-bind _ _ (if_ok-Settled v d pushed _ (remove_pruned_history_images-Settled v d _))
          λ _.
            Keeps-bind _ _ (replace_source-Settled d old path)
              λ _. Keeps-ignore _ (cleanup-Settled v d old)

  release_fullstack-Settled :
      (old : DeploymentRecord) (change : RuntimeEnvironmentChange) (release : Text)
      (path : FilePath) (w : World)
      → Unchanged v w
      → Returns (Settled v) (release_fullstack old change release path) w
  unfolding release_fullstack
  release_fullstack-Settled old change release path w k =
      Returns-Unchanged v _ _ _ w (candidate-Unchanged v old change.effective release path) k
        λ candidate w1 k1.
          Returns-bind (Settled v) _ _ _ w1 (cut_over_fullstack-Settled old change candidate w1 k1)
            λ new w2 l.
              Returns-bind (λ _. Settled v new) _ _ _ w2
                (Returns-of _ _ w2 λ _ _. (retire_fullstack-Settled new old new path).at w2 l)
                λ _ w3 l3. Returns-pure _ new w3 l3

  pub safe_redeploy_fullstack-Settled :
      (old : DeploymentRecord) (replacement : Option Values) (w : World)
      → Unchanged v w
      → Returns (Settled v) (safe_redeploy_fullstack old replacement) w
  unfolding safe_redeploy_fullstack
  safe_redeploy_fullstack-Settled old replacement w k =
      Returns-Unchanged v _ _ _ w (Keeps-lift _) k λ _ w1 k1.
        Returns-Unchanged v _ _ _ w1 (prepare-Unchanged v _ _ _) k1 λ change w2 k2.
          Returns-Unchanged v _ _ _ w2 (Keeps-lift _) k2 λ _ w3 k3.
            Returns-Unchanged v _ _ _ w3 (Keeps-lift _) k3 λ _ w4 k4.
              Returns-Unchanged v _ _ _ w4 (Keeps-gets _) k4 λ release w5 k5.
                Returns-Unchanged v _ _ _ w5 (Keeps-lift _) k5 λ path w6 k6.
                  Returns-finally _ _ _ w6 (release_fullstack-Settled old change release path w6 k6)
                    λ d. Keeps-ignore _ (run-Settled v d _ _)

  switch_back_fullstack-Settled :
      (current candidate : DeploymentRecord) (w : World)
      → Unchanged v w
      → Returns (Settled v) (switch_back_fullstack current candidate) w
  unfolding switch_back_fullstack
  switch_back_fullstack-Settled current candidate w k = Returns-Settled v _ w (
      Returns-Unchanged v _ _ _ w (Keeps-gets _) k
        λ now w1 k1. Returns-saved_and_synced v _ _ _ w1 k1)

  retire_current_fullstack-Settled :
      (d current : DeploymentRecord) (older : List DeploymentVersion) (new : DeploymentRecord)
      → Keeps (Settled v d) (retire_current_fullstack current older new)
  unfolding retire_current_fullstack
  retire_current_fullstack-Settled d current older new = Keeps-bind _ _ (Keeps-gets _) λ now.
      Keeps-bind _ _ (Keeps-try _ (History-set-Settled v d _ _)) λ pruned.
        Keeps-bind _ _ (if_ok-Settled v d pruned _ (remove_pruned_history_images-Settled v d _))
          λ _. Keeps-ignore _ (cleanup-Settled v d current)

  rollback_fullstack_to-Settled :
      (current : DeploymentRecord) (environment : Values) (versions : List DeploymentVersion)
      (w : World)
      → Unchanged v w
      → Returns (Settled v) (rollback_fullstack_to current environment versions) w
  rollback_fullstack_to-Settled current environment [] w k = Returns-fail _ _ w
  rollback_fullstack_to-Settled current environment (version ∷ older) w k =
      Returns-Unchanged v _ _ _ w (start_returning-Unchanged v current _ environment) k
        λ candidate w1 k1.
          Returns-bind (Settled v) _ _ _ w1 (switch_back_fullstack-Settled current candidate w1 k1)
            λ new w2 l.
              Returns-bind (λ _. Settled v new) _ _ _ w2
                (Returns-of _ _ w2
                  λ _ _. (retire_current_fullstack-Settled new current older new).at w2 l)
                λ _ w3 l3. Returns-pure _ new w3 l3

  pub rollback_fullstack-Settled :
      (current : DeploymentRecord) (w : World)
      → Unchanged v w
      → Returns (Settled v) (rollback_fullstack current) w
  unfolding rollback_fullstack
  rollback_fullstack-Settled current w k = Returns-Unchanged v _ _ _ w (Keeps-lift _) k λ _ w1 k1.
      Returns-Unchanged v _ _ _ w1 (Environment-load-Unchanged v _) k1 λ environment w2 k2.
        Returns-Unchanged v _ _ _ w2 (Keeps-lift _) k2 λ _ w3 k3.
          Returns-Unchanged v _ _ _ w3 (History-list-Unchanged v _) k3
            λ versions w4 k4. rollback_fullstack_to-Settled current environment versions w4 k4
