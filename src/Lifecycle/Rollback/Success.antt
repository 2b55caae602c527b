-- ===== src/Lifecycle/Rollback/Success.antt =====
-- A rollback of a single service in app/rollback.go that returns without an error: what is stored and served.
use mini_deploy.Prelude.{List, [], ◌∷◌, ℤ}
use mini_deploy.Text.{Text}
use mini_deploy.Records.{DeploymentRecord, DeploymentVersion}
use mini_deploy.World.{World, Environment}
use mini_deploy.World.Keeps.{Keeps, Keeps-bind, Keeps-gets, Keeps-lift, Keeps-try}
use mini_deploy.World.Returns.{Returns, Returns-of, Returns-pure, Returns-fail, Returns-bind}
use mini_deploy.Lifecycle.Platform.{Platform}
use mini_deploy.Lifecycle.Live.{Settled, Returns-Settled, Returns-saved_and_synced}
use mini_deploy.Lifecycle.Unchanged.{Unchanged, Returns-Unchanged}
use mini_deploy.Lifecycle.Unchanged.Files.{Environment-load-Unchanged, History-list-Unchanged}
use mini_deploy.Lifecycle.Unchanged.Steps.{prepare_rollback-Unchanged, start_rollback-Unchanged}
use mini_deploy.Lifecycle.Keeps.Settled.{
  History-set-Settled, remove_pruned_history_images-Settled, retire_container-Settled,
  if_ok-Settled,
}
use mini_deploy.Lifecycle.Rollback.{
  switch_back, retire_current, rollback_to, rollback_first, rollback_single,
}

module _ (p : Platform) (current : DeploymentRecord) (v : World) where
  switch_back-Settled :
      (previous : DeploymentRecord) (environment : Environment) (c : Text) (port : ℤ) (w : World)
      → Unchanged v w
      → Returns (Settled v) (switch_back p current previous environment c port) w
  unfolding switch_back
  switch_back-Settled previous environment c port w k = Returns-Settled v _ w (
      Returns-Unchanged v _ _ _ w (Keeps-gets _) k
        λ now w1 k1. Returns-saved_and_synced v _ _ _ w1 k1)

  retire_current-Settled :
      (d : DeploymentRecord) (older : List DeploymentVersion) (new : DeploymentRecord) (c : Text)
      → Keeps (Settled v d) (retire_current p current older new c)
  unfolding retire_current
  retire_current-Settled d older new c = Keeps-bind _ _ (Keeps-gets _) λ now.
      Keeps-bind _ _ (Keeps-try _ (History-set-Settled v d _ _)) λ pruned.
        Keeps-bind _ _
          (if_ok-Settled v d pruned _ (remove_pruned_history_images-Settled v d (new.image ∷ [])))
          λ _. retire_container-Settled v d current.container c

  rollback_to-Settled :
      (environment : Environment) (version : DeploymentVersion) (older : List DeploymentVersion)
      (w : World)
      → Unchanged v w
      → Returns (Settled v) (rollback_to p current environment version older) w
  unfolding rollback_to
  rollback_to-Settled environment version older w k =
      Returns-Unchanged v _ _ _ w (prepare_rollback-Unchanged v p current _ environment) k
        λ runtime w1 k1. Returns-Unchanged v _ _ _ w1 (Keeps-gets _) k1 λ stamp w2 k2.
          Returns-Unchanged v _ _ _ w2 (start_rollback-Unchanged v p current _ runtime _) k2
            λ port w3 k3.
              Returns-bind (Settled v) _ _ _ w3 (switch_back-Settled _ environment _ port w3 k3)
                λ new w4 l.
                  Returns-bind (λ _. Settled v new) _ _ _ w4
                    (Returns-of _ _ w4 λ _ _. (retire_current-Settled new older new _).at w4 l)
                    λ _ w5 l5. Returns-pure _ new w5 l5

  rollback_first-Settled :
      (environment : Environment) (versions : List DeploymentVersion) (w : World)
      → Unchanged v w
      → Returns (Settled v) (rollback_first p current environment versions) w
  rollback_first-Settled environment [] w k = Returns-fail _ _ w
  rollback_first-Settled environment (version ∷ older) w k =
      rollback_to-Settled environment version older w k

  pub rollback_single-Settled :
      (w : World) → Unchanged v w → Returns (Settled v) (rollback_single p current) w
  unfolding rollback_single
  rollback_single-Settled w k =
      Returns-Unchanged v _ _ _ w (Environment-load-Unchanged v _) k λ environment w1 k1.
        Returns-Unchanged v _ _ _ w1 (Keeps-lift _) k1 λ _ w2 k2.
          Returns-Unchanged v _ _ _ w2 (History-list-Unchanged v _) k2
            λ versions w3 k3. rollback_first-Settled environment versions w3 k3
