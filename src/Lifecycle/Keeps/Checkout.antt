-- ===== src/Lifecycle/Keeps/Checkout.antt =====
-- The inspection and the build of a checkout do not touch the release in service.
use mini_deploy.Prelude.{refl, Bool}
use mini_deploy.Text.{Text}
use mini_deploy.Records.{DeploymentRecord}
use mini_deploy.Result.{Result, ok, err}
use mini_deploy.Path.{FilePath}
use mini_deploy.World.{World}
use mini_deploy.World.Keeps.{
  Keeps, Keeps-bind, Keeps-if, Keeps-pure, Keeps-fail, Keeps-gets, Keeps-try, Keeps-ignore,
  Keeps-lift,
}
use mini_deploy.Source.{inspect_deployment_source, branch_of}
use mini_deploy.Build.{build_deployment_image, strategy_for_record}
use mini_deploy.Detect.Plan.{BuildPlan}
use mini_deploy.Lifecycle.Keeps.{Spares, Spares-run}
use mini_deploy.Lifecycle.Keeps.Containers.{finally-Spares}

module _ (old : DeploymentRecord) (v : World) where
  branch-Spares : (b : Bool) (r : Result Text) → Keeps (Spares old v) (branch_of b r)
  unfolding branch_of
  branch-Spares b (ok output) = Keeps-bind _ _ (Keeps-lift _) λ _. Keeps-pure _
  branch-Spares b (err e) = Keeps-if b _ _ (Keeps-pure _) (Keeps-fail _)

  pub inspect_source-Spares :
      (path : FilePath) (url : Text) → Keeps (Spares old v) (inspect_deployment_source path url)
  unfolding inspect_deployment_source
  inspect_source-Spares path url = Keeps-bind _ _ (Spares-run old v _ _ refl) λ output.
      Keeps-if _ _ _ (Keeps-fail _) (
        Keeps-bind _ _ (Keeps-gets _) λ exit_one.
          Keeps-bind _ _ (Keeps-try _ (Spares-run old v _ _ refl)) λ answer.
            Keeps-bind _ _ (branch-Spares exit_one answer)
              λ branch. Keeps-bind _ _ (Keeps-gets _) λ parse. Keeps-pure _)

  pub strategy-Spares :
      (r : DeploymentRecord) (path : FilePath) → Keeps (Spares old v) (strategy_for_record r path)
  unfolding strategy_for_record
  strategy-Spares r path =
      Keeps-bind _ _ (Keeps-gets _) λ disk. Keeps-bind _ _ (Keeps-gets _) λ beyond. Keeps-lift _

  pub build_image-Spares :
      (path : FilePath) (image : Text) (plan : BuildPlan)
      → Keeps (Spares old v) (build_deployment_image path image plan)
  unfolding build_deployment_image
  build_image-Spares path image plan =
      Keeps-if _ _ _ (Keeps-bind _ _ (Spares-run old v _ _ refl) λ _. Keeps-pure _) (
        Keeps-bind _ _ (Spares-run old v _ _ refl) λ _.
          finally-Spares old v _ _
            (Keeps-bind _ _
              (Keeps-bind _ _ (Spares-run old v _ _ refl) λ _. Spares-run old v _ _ refl)
              λ _. Keeps-pure _)
            (Keeps-ignore _ (Spares-run old v _ _ refl)))
