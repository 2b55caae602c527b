-- ===== src/Lifecycle/Unchanged/Steps.antt =====
-- What a deployment, a redeployment and a rollback of a single service do before they save, in app/deploy.go and
-- app/rollback.go, does not change the stored deployments.
use mini_deploy.Prelude.{Option, none, some}
use mini_deploy.Text.{Text}
use mini_deploy.Records.{DatabaseAttachmentRecord, DeploymentRecord, DeploymentSourceRecord}
use mini_deploy.Path.{FilePath}
use mini_deploy.Environment.{RuntimeEnvironmentChange}
use mini_deploy.Detect.Plan.{BuildPlan, DeploymentConfig, ProjectPlan}
use mini_deploy.World.{World, Environment}
use mini_deploy.World.Keeps.{
  Keeps, Keeps-bind, Keeps-gets, Keeps-ignore, Keeps-lift, Keeps-pure, keeps_rules,
}
use mini_deploy.Lifecycle.Platform.{Platform}
use mini_deploy.Database.{DatabaseRuntime, create_initial_mini_base_attachment}
use mini_deploy.Lifecycle.Retire.{remove_image}
use mini_deploy.Build.{detect_strategy}
use mini_deploy.Lifecycle.Deploy.{check_out, initial_runtime, start_initial}
use mini_deploy.Lifecycle.Redeploy.{
  Candidate, build_candidate, cleanup_candidate, name_candidate, reject_candidate,
}
use mini_deploy.Lifecycle.Rollback.{prepare_rollback, reject_rollback, start_rollback}
use mini_deploy.Lifecycle.Unchanged.{Unchanged, Unchanged-run}
use mini_deploy.Lifecycle.Unchanged.Checkout.{
  build_image-Unchanged, inspect_source-Unchanged, strategy-Unchanged,
}
use mini_deploy.Lifecycle.Unchanged.Containers.{
  find_deploy_port-Unchanged, health-Unchanged, image_id-Unchanged, on_error-Unchanged,
  remove_container-Unchanged, remove_image-Unchanged, start-Unchanged, startup-Unchanged,
}
use mini_deploy.Lifecycle.Unchanged.Database.{
  create_existing-Unchanged, migration-Unchanged, resolve-Unchanged,
}

module _ (v : World) where
  pub cleanup-Unchanged : (c : Candidate) → Keeps (Unchanged v) (cleanup_candidate c)
  unfolding cleanup_candidate
  cleanup-Unchanged c = search (keeps_rules, remove_container-Unchanged v, remove_image-Unchanged v)

  reject-Unchanged : (c : Candidate) → Keeps (Unchanged v) (reject_candidate c)
  unfolding reject_candidate
  reject-Unchanged c = search (keeps_rules, Unchanged-run v, cleanup-Unchanged)

  pub name_candidate-Unchanged : (app : Text) → Keeps (Unchanged v) (name_candidate app)
  unfolding name_candidate
  name_candidate-Unchanged app = Keeps-bind _ _ (Keeps-gets _) λ stamp.
      Keeps-bind _ _ (Keeps-lift _) λ current. Keeps-bind _ _ (Keeps-lift _) λ path. Keeps-pure _

  -- A start, its two checks, and what follows them.
  pub build_candidate-Unchanged :
      (p : Platform) (old : DeploymentRecord) (environment : Environment) (c : Candidate)
      → Keeps (Unchanged v) (build_candidate p old environment c)
  unfolding build_candidate
  build_candidate-Unchanged p old environment c = Keeps-bind _ _ (Unchanged-run v _ _) λ _.
      Keeps-bind _ _ (inspect_source-Unchanged v _ _) λ source.
        Keeps-bind _ _ (strategy-Unchanged v _ _) λ plan.
          Keeps-bind _ _ (build_image-Unchanged v _ _ _) λ _.
            Keeps-bind _ _ (on_error-Unchanged v _ _ (image_id-Unchanged v _) drop) λ id.
              Keeps-bind _ _ (on_error-Unchanged v _ _ (resolve-Unchanged v _ _) drop) λ runtime.
                Keeps-bind _ _ (on_error-Unchanged v _ _ (migration-Unchanged v _ _ _ _ _) drop)
                  λ _.
                    Keeps-bind _ _ (on_error-Unchanged v _ _ (find_deploy_port-Unchanged v) drop)
                      λ port.
                        Keeps-bind _ _
                          (on_error-Unchanged v _ _ (start-Unchanged v _ _ _ _ _ _ _ _) drop)
                          λ _.
                            Keeps-bind _ _
                              (on_error-Unchanged v _ _ (startup-Unchanged v _)
                                (reject-Unchanged c))
                              λ _.
                                Keeps-bind _ _
                                  (on_error-Unchanged v _ _ (health-Unchanged v _ _)
                                    (reject-Unchanged c))
                                  λ _. Keeps-pure _
    where
      drop : Keeps (Unchanged v) (remove_image c.image)
      drop = remove_image-Unchanged v c.image

  reject_rollback-Unchanged : (c : Text) → Keeps (Unchanged v) (reject_rollback c)
  unfolding reject_rollback
  reject_rollback-Unchanged c =
      Keeps-bind _ _ (Keeps-ignore _ (Unchanged-run v _ _)) λ _. remove_container-Unchanged v c

  pub prepare_rollback-Unchanged :
      (p : Platform) (current previous : DeploymentRecord) (environment : Environment)
      → Keeps (Unchanged v) (prepare_rollback p current previous environment)
  unfolding prepare_rollback
  prepare_rollback-Unchanged p current previous environment =
      Keeps-bind _ _ (Unchanged-run v _ _) λ _.
        Keeps-bind _ _ (resolve-Unchanged v _ _)
          λ runtime. Keeps-bind _ _ (migration-Unchanged v _ _ _ _ _) λ _. Keeps-pure _

  pub start_rollback-Unchanged :
      (p : Platform) (current previous : DeploymentRecord) (runtime : DatabaseRuntime) (c : Text)
      → Keeps (Unchanged v) (start_rollback p current previous runtime c)
  unfolding start_rollback
  start_rollback-Unchanged p current previous runtime c =
      Keeps-bind _ _ (find_deploy_port-Unchanged v) λ port.
        Keeps-bind _ _ (start-Unchanged v _ _ _ _ _ _ _ _) λ _.
          Keeps-bind _ _
            (on_error-Unchanged v _ _ (startup-Unchanged v _) (reject_rollback-Unchanged c))
            λ _.
              Keeps-bind _ _
                (on_error-Unchanged v _ _ (health-Unchanged v _ _) (reject_rollback-Unchanged c))
                λ _. Keeps-pure _

  pub check_out-Unchanged :
      (repo_url : Text) (path : FilePath) → Keeps (Unchanged v) (check_out repo_url path)
  unfolding check_out
  check_out-Unchanged repo_url path = Keeps-bind _ _ (Unchanged-run v _ _) λ _.
      Keeps-bind _ _ (Unchanged-run v _ _)
        λ _. Keeps-bind _ _ (Unchanged-run v _ _) λ _. inspect_source-Unchanged v _ _

  pub detect_strategy-Unchanged :
      (path : FilePath) (requested : DeploymentConfig)
      → Keeps (Unchanged v) (detect_strategy path requested)
  unfolding detect_strategy
  detect_strategy-Unchanged path requested = search keeps_rules

  pub create_initial-Unchanged :
      (app id : Text) (plan : ProjectPlan)
      → Keeps (Unchanged v) (create_initial_mini_base_attachment app id plan)
  unfolding create_initial_mini_base_attachment
  create_initial-Unchanged app id plan = search (keeps_rules, create_existing-Unchanged v)

  initial_runtime-Unchanged :
      (attachment : Option DatabaseAttachmentRecord) (r : DeploymentRecord)
      (environment : Environment)
      → Keeps (Unchanged v) (initial_runtime attachment r environment)
  unfolding initial_runtime
  initial_runtime-Unchanged none r environment = Keeps-pure _
  initial_runtime-Unchanged (some attachment) r environment =
      Keeps-bind _ _ (resolve-Unchanged v _ _)
        λ runtime. Keeps-bind _ _ (migration-Unchanged v _ _ _ _ _) λ _. Keeps-pure _

  pub start_initial-Unchanged :
      (app repo_url : Text) (source : DeploymentSourceRecord) (plan : BuildPlan)
      (change : RuntimeEnvironmentChange) (attachment : Option DatabaseAttachmentRecord)
      (c : Candidate)
      → Keeps (Unchanged v) (start_initial app repo_url source plan change attachment c)
  unfolding start_initial
  start_initial-Unchanged app repo_url source plan change attachment c =
      Keeps-bind _ _ (Keeps-lift _) λ _. Keeps-bind _ _ (build_image-Unchanged v _ _ _) λ _.
        Keeps-bind _ _
          (on_error-Unchanged v _ _ (image_id-Unchanged v _) (remove_image-Unchanged v _))
          λ id. Keeps-bind _ _ (find_deploy_port-Unchanged v) λ port.
            Keeps-bind _ _ (initial_runtime-Unchanged attachment _ _) λ runtime.
              Keeps-bind _ _ (start-Unchanged v _ _ _ _ _ _ _ _) λ _.
                Keeps-bind _ _
                  (on_error-Unchanged v _ _ (startup-Unchanged v _) (reject-Unchanged c))
                  λ _.
                    Keeps-bind _ _
                      (on_error-Unchanged v _ _ (health-Unchanged v _ _) (reject-Unchanged c))
                      λ _. Keeps-pure _
