-- ===== src/Lifecycle/Redeploy/Cutover.antt =====
-- A cutover of safeRedeploy in app/deploy.go that returns without an error: what is stored and served.
use mini_deploy.Records.{DeploymentRecord}
use mini_deploy.Environment.{RuntimeEnvironmentChange}
use mini_deploy.World.{World}
use mini_deploy.World.Keeps.{Keeps-gets}
use mini_deploy.World.Returns.{Returns}
use mini_deploy.Lifecycle.Platform.{Platform}
use mini_deploy.Lifecycle.Live.{Settled, Returns-Settled, Returns-saved_and_synced}
use mini_deploy.Lifecycle.Unchanged.{Unchanged, Returns-Unchanged}
use mini_deploy.Lifecycle.Unchanged.Containers.{on_error-Unchanged}
use mini_deploy.Lifecycle.Unchanged.Files.{commit-Unchanged}
use mini_deploy.Lifecycle.Unchanged.Steps.{cleanup-Unchanged}
use mini_deploy.Lifecycle.Redeploy.{Candidate, Healthy, cut_over}

pub cut_over-Settled :
    (p : Platform) (old : DeploymentRecord) (change : RuntimeEnvironmentChange) (c : Candidate)
    (h : Healthy) (v w : World)
    → Unchanged v w
    → Returns (Settled v) (cut_over p old change c h) w
unfolding cut_over
cut_over-Settled p old change c h v w k = Returns-Settled v _ w (
    Returns-Unchanged v _ _ _ w
      (on_error-Unchanged v _ _ (commit-Unchanged v change) (cleanup-Unchanged v c)) k
      λ committed w1 k1.
        Returns-Unchanged v _ _ _ w1 (Keeps-gets _) k1
          λ now w2 k2. Returns-saved_and_synced v _ _ _ w2 k2)
