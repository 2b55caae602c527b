-- ===== src/Lifecycle/Redeploy/Success.antt =====
-- safeRedeploy of app/deploy.go for a single service: where it returns without an error, what is stored and served.
use mini_deploy.Prelude.{Option, [], ◌∷◌}
use mini_deploy.Records.{DeploymentRecord}
use mini_deploy.Environment.{RuntimeEnvironmentChange}
use mini_deploy.World.{World, Environment}
use mini_deploy.World.Keeps.{Keeps, Keeps-bind, Keeps-ignore, Keeps-lift, Keeps-try}
use mini_deploy.World.Returns.{Returns, Returns-of, Returns-pure, Returns-bind, Returns-finally}
use mini_deploy.Lifecycle.Platform.{Platform}
use mini_deploy.Lifecycle.Live.{Settled}
use mini_deploy.Lifecycle.Keeps.Settled.{
  run-Settled, History-push-Settled, remove_pruned_history_images-Settled,
  replace_deployment_source-Settled, retire_container-Settled, if_ok-Settled,
}
use mini_deploy.Lifecycle.Redeploy.{Candidate, retire, release, redeploy_single}
use mini_deploy.Lifecycle.Redeploy.Cutover.{cut_over-Settled}
use mini_deploy.Lifecycle.Unchanged.{Unchanged, Returns-Unchanged}
use mini_deploy.Lifecycle.Unchanged.Files.{prepare-Unchanged}
use mini_deploy.Lifecycle.Unchanged.Steps.{build_candidate-Unchanged, name_candidate-Unchanged}

module _ (p : Platform) (old : DeploymentRecord) (v : World) where
  retire-Settled : (d : DeploymentRecord) (c : Candidate) → Keeps (Settled v d) (retire p old c)
  unfolding retire
  retire-Settled d c = Keeps-bind _ _ (Keeps-try _ (History-push-Settled v d old)) λ pushed.
      Keeps-bind _ _
        (if_ok-Settled v d pushed _ (remove_pruned_history_images-Settled v d (c.image ∷ [])))
        λ _.
          Keeps-bind _ _ (Keeps-ignore _ (replace_deployment_source-Settled v d _ _))
            λ _. retire_container-Settled v d old.container c.container

  release-Settled :
      (change : RuntimeEnvironmentChange) (c : Candidate) (w : World)
      → Unchanged v w
      → Returns (Settled v) (release p old change c) w
  unfolding release
  release-Settled change c w k =
      Returns-Unchanged v _ _ _ w (build_candidate-Unchanged v p old change.effective c) k
        λ h w1 k1.
          Returns-bind (Settled v) _ _ _ w1 (cut_over-Settled p old change c h v w1 k1) λ new w2 l.
            Returns-bind (λ _. Settled v new) _ _ _ w2
              (Returns-of _ _ w2 λ _ _. (retire-Settled new c).at w2 l)
              λ _ w3 l3. Returns-pure _ new w3 l3

  pub redeploy_single-Settled :
      (replacement : Option Environment) (w : World)
      → Unchanged v w
      → Returns (Settled v) (redeploy_single p old replacement) w
  unfolding redeploy_single
  redeploy_single-Settled replacement w k =
      Returns-Unchanged v _ _ _ w (prepare-Unchanged v _ _ _) k λ change w1 k1.
        Returns-Unchanged v _ _ _ w1 (Keeps-lift _) k1 λ _ w2 k2.
          Returns-Unchanged v _ _ _ w2 (Keeps-lift _) k2 λ _ w3 k3.
            Returns-Unchanged v _ _ _ w3 (name_candidate-Unchanged v old.app) k3 λ c w4 k4.
              Returns-finally _ _ _ w4 (release-Settled change c w4 k4)
                λ d. Keeps-ignore _ (run-Settled v d _ _)
