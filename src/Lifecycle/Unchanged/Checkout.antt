-- ===== src/Lifecycle/Unchanged/Checkout.antt =====
-- The inspection and the build of a checkout do not change the stored deployments.
use mini_deploy.Prelude.{Bool}
use mini_deploy.Text.{Text}
use mini_deploy.Records.{DeploymentRecord}
use mini_deploy.Result.{Result, ok, err}
use mini_deploy.Path.{FilePath}
use mini_deploy.World.{World}
use mini_deploy.World.Keeps.{
  Keeps, Keeps-bind, Keeps-if, Keeps-pure, Keeps-fail, Keeps-gets, Keeps-try, Keeps-ignore,
  Keeps-lift,
}
use mini_deploy.Source.{inspect_deployment_source, branch_of}
use mini_deploy.Build.{build_deployment_image, strategy_for_record}
use mini_deploy.Detect.Plan.{BuildPlan}
use mini_deploy.Lifecycle.Unchanged.{Unchanged, Unchanged-run}
use mini_deploy.Lifecycle.Unchanged.Containers.{finally-Unchanged}

module _ (v : World) where
  branch-Unchanged : (b : Bool) (r : Result Text) → Keeps (Unchanged v) (branch_of b r)
  unfolding branch_of
  branch-Unchanged b (ok output) = Keeps-bind _ _ (Keeps-lift _) λ _. Keeps-pure _
  branch-Unchanged b (err e) = Keeps-if b _ _ (Keeps-pure _) (Keeps-fail _)

  pub inspect_source-Unchanged :
      (path : FilePath) (url : Text) → Keeps (Unchanged v) (inspect_deployment_source path url)
  unfolding inspect_deployment_source
  inspect_source-Unchanged path url = Keeps-bind _ _ (Unchanged-run v _ _) λ output.
      Keeps-if _ _ _ (Keeps-fail _) (
        Keeps-bind _ _ (Keeps-gets _) λ exit_one.
          Keeps-bind _ _ (Keeps-try _ (Unchanged-run v _ _)) λ answer.
            Keeps-bind _ _ (branch-Unchanged exit_one answer)
              λ branch. Keeps-bind _ _ (Keeps-gets _) λ parse. Keeps-pure _)

  pub strategy-Unchanged :
      (r : DeploymentRecord) (path : FilePath) → Keeps (Unchanged v) (strategy_for_record r path)
  unfolding strategy_for_record
  strategy-Unchanged r path =
      Keeps-bind _ _ (Keeps-gets _) λ disk. Keeps-bind _ _ (Keeps-gets _) λ beyond. Keeps-lift _

  pub build_image-Unchanged :
      (path : FilePath) (image : Text) (plan : BuildPlan)
      → Keeps (Unchanged v) (build_deployment_image path image plan)
  unfolding build_deployment_image
  build_image-Unchanged path image plan =
      Keeps-if _ _ _ (Keeps-bind _ _ (Unchanged-run v _ _) λ _. Keeps-pure _) (
        Keeps-bind _ _ (Unchanged-run v _ _) λ _.
          finally-Unchanged v _ _
            (Keeps-bind _ _ (Keeps-bind _ _ (Unchanged-run v _ _) λ _. Unchanged-run v _ _)
              λ _. Keeps-pure _)
            (Keeps-ignore _ (Unchanged-run v _ _)))
