-- ===== src/Database/Unchanged.antt =====
-- What an attachment of app/minibase_lifecycle.go does before it saves does not change the stored deployments.
use mini_deploy.Prelude.{false, List, [], ◌∷◌}
use mini_deploy.Text.{Text}
use mini_deploy.Records.{DeploymentRecord}
use mini_deploy.Result.{Result, ok, err}
use mini_deploy.World.{World, Environment, ignore}
use mini_deploy.World.Keeps.{
  Keeps, Keeps-bind, Keeps-fail, Keeps-if, Keeps-ignore, Keeps-lift, Keeps-pure, Keeps-try,
}
use mini_deploy.Docker.{container_exists}
use mini_deploy.Lifecycle.Delete.{get_deployment, remove_existing}
use mini_deploy.Lifecycle.Unchanged.{Unchanged, Unchanged-run}
use mini_deploy.Lifecycle.Unchanged.Containers.{
  find_deploy_port-Unchanged, health-Unchanged, on_error-Unchanged, start-Unchanged,
  startup-Unchanged,
}
use mini_deploy.Lifecycle.Unchanged.Database.{
  available-Unchanged, create_attachment-Unchanged, delete_attachment-Unchanged,
  migration-Unchanged, resolve-Unchanged,
}
use mini_deploy.Lifecycle.Unchanged.Files.{Environment-load-Unchanged, Store-get-Unchanged}
use mini_deploy.Fullstack.Status.{
  container_status, deployment_project_status, fullstack_status, services_status,
}
use mini_deploy.Fullstack.Unchanged.{start_or_clean_up-Unchanged}
use mini_deploy.Database.Service.{start_deployment_after_database_attach, start_node_service}
use mini_deploy.Database.Attach.{attach_available, check_unattached, forget_attachment}

module _ (v : World) where
  pub get_deployment-Unchanged : (app : Text) → Keeps (Unchanged v) (get_deployment app)
  unfolding get_deployment
  get_deployment-Unchanged app =
      Keeps-if _ _ _ (Keeps-fail _) (Keeps-bind _ _ (Store-get-Unchanged v app) λ r. Keeps-pure _)

  container_status-Unchanged : (c : Text) → Keeps (Unchanged v) (container_status c)
  unfolding container_status
  container_status-Unchanged c =
      Keeps-bind _ _ (Keeps-try _ (Unchanged-run v _ _)) λ output. Keeps-pure _

  services_status-Unchanged :
      (r : DeploymentRecord) (names : List Text) → Keeps (Unchanged v) (services_status r names)
  unfolding services_status
  services_status-Unchanged r [] = Keeps-pure _
  services_status-Unchanged r (name ∷ names) =
      Keeps-bind _ _ (container_status-Unchanged _)
        λ status. Keeps-if _ _ _ (services_status-Unchanged r names) (Keeps-pure _)

  fullstack_status-Unchanged :
      (r : DeploymentRecord) (valid : Result (Unit {0}))
      → Keeps (Unchanged v) (fullstack_status r valid)
  fullstack_status-Unchanged r (ok _) = services_status-Unchanged r _
  fullstack_status-Unchanged r (err e) = Keeps-pure _

  pub status-Unchanged : (r : DeploymentRecord) → Keeps (Unchanged v) (deployment_project_status r)
  unfolding deployment_project_status
  status-Unchanged r =
      Keeps-if _ _ _ (Keeps-pure _)
        (Keeps-if _ _ _ (container_status-Unchanged _) (fullstack_status-Unchanged _ _))

  pub check_unattached-Unchanged : (r : DeploymentRecord) → Keeps (Unchanged v) (check_unattached r)
  unfolding check_unattached
  check_unattached-Unchanged r = Keeps-bind _ _ (Keeps-lift _) λ found.
      Keeps-bind _ _ (Keeps-lift _)
        λ _. Keeps-bind _ _ (Environment-load-Unchanged v _) λ environment. Keeps-lift _

  pub attach_available-Unchanged : (app id : Text) → Keeps (Unchanged v) (attach_available app id)
  unfolding attach_available
  attach_available-Unchanged app id =
      Keeps-bind _ _ (Keeps-try _ (available-Unchanged v id)) λ looked.
        Keeps-bind _ _ (Keeps-lift _) λ database.
          Keeps-bind _ _ (Keeps-try _ (create_attachment-Unchanged v _ app))
            λ created. Keeps-bind _ _ (Keeps-lift _) λ attachment. Keeps-pure _

  pub forget-Unchanged : (id : Text) → Keeps (Unchanged v) (forget_attachment id)
  unfolding forget_attachment
  forget-Unchanged id = Keeps-ignore _ (delete_attachment-Unchanged v id)

  remove_existing-Unchanged : (c : Text) → Keeps (Unchanged v) (remove_existing c)
  unfolding remove_existing container_exists
  remove_existing-Unchanged c =
      Keeps-bind _ _ (Keeps-bind _ _ (Keeps-try _ (Unchanged-run v _ _)) λ r. Keeps-pure _) λ found.
        Keeps-if _ _ _ (Keeps-bind _ _ (Unchanged-run v _ _) λ _. Keeps-pure _) (Keeps-pure _)

  start_node_service-Unchanged :
      (r : DeploymentRecord) (environment : Environment)
      → Keeps (Unchanged v) (start_node_service r environment)
  unfolding start_node_service
  start_node_service-Unchanged r environment =
      Keeps-bind _ _ (resolve-Unchanged v r environment) λ runtime.
        Keeps-bind _ _ (migration-Unchanged v _ _ _ _ runtime) λ _.
          Keeps-bind _ _ (find_deploy_port-Unchanged v) λ port.
            Keeps-bind _ _ (start-Unchanged v _ _ _ _ _ _ _ _) λ _.
              Keeps-bind _ _ (on_error-Unchanged v _ _ (startup-Unchanged v _) remove) λ _.
                Keeps-bind _ _ (on_error-Unchanged v _ _ (health-Unchanged v _ _) remove)
                  λ _. Keeps-pure _
    where
      remove : Keeps (Unchanged v) (ignore (remove_existing r.container))
      remove = Keeps-ignore _ (remove_existing-Unchanged r.container)

  pub start_attached-Unchanged :
      (r : DeploymentRecord) → Keeps (Unchanged v) (start_deployment_after_database_attach r)
  unfolding start_deployment_after_database_attach
  start_attached-Unchanged r = Keeps-bind _ _ (Environment-load-Unchanged v _) λ environment.
      Keeps-bind _ _ (Keeps-lift _) λ _.
        Keeps-if _ _ _ (start_or_clean_up-Unchanged v _ environment false)
          (Keeps-if _ _ _ (start_node_service-Unchanged _ environment) (Keeps-fail _))
