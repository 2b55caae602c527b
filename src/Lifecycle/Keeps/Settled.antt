-- ===== src/Lifecycle/Keeps/Settled.antt =====
-- What follows a cutover changes neither the stored deployments nor what Caddy serves.
use mini_deploy.Prelude.{refl, List, [], ◌∷◌}
use mini_deploy.Text.{Text}
use mini_deploy.Records.{DeploymentRecord, DeploymentServiceRecord, DeploymentVersion}
use mini_deploy.Result.{Result, ok, err, Error}
use mini_deploy.Path.{FilePath}
use mini_deploy.World.{
  World, Io, Event, History as HistoryMap, HistoryFile, absent, blank, malformed, contents,
  record_event, run, pure, replace_file,
}
use mini_deploy.World.Handle.{if_ok}
use mini_deploy.World.Keeps.{
  Allows, Keeps, Keeps-bind, Keeps-if, Keeps-ignore, Keeps-lift, Keeps-modify, Keeps-pure,
  Keeps-run, keeps_rules,
}
use mini_deploy.History
use mini_deploy.History.{load_history}
use mini_deploy.Docker.{container_exists, remove_container}
use mini_deploy.Lifecycle.Live.{Settled}
use mini_deploy.Lifecycle.Retire.{
  remove_image, remove_fullstack_image, remove_service_images, remove_version_images,
  remove_pruned_history_images, remove_managed_deployment_path, replace_deployment_source,
  retire_container,
}

module _ (v : World) (d : DeploymentRecord) where
  pub event-Settled : (e : Event) → Allows (Settled v d) e
  unfolding record_event
  event-Settled e w k = record {
    records = k.records;
    stored = k.stored;
    found = k.found;
    served = k.served;
    same_host = refl;
  }

  pub run-Settled : (e : Event) (error : Error) → Keeps (Settled v d) (run e error)
  run-Settled e error = Keeps-run e error (event-Settled e)

  History-write-Settled : (h : HistoryMap) → Keeps (Settled v d) (History.write h)
  unfolding History.write replace_file
  History-write-Settled h = Keeps-bind _ _ (run-Settled _ _) λ _.
      Keeps-bind _ _ (run-Settled _ _) λ _. Keeps-bind _ _ (run-Settled _ _) λ _.
        Keeps-modify _ λ w k. record {
          records = k.records;
          stored = k.stored;
          found = k.found;
          served = k.served;
          same_host = refl;
        }

  load_history-Settled : (file : HistoryFile) → Keeps (Settled v d) (load_history file)
  unfolding load_history
  load_history-Settled absent = search keeps_rules
  load_history-Settled blank = search keeps_rules
  load_history-Settled malformed = search keeps_rules
  load_history-Settled (contents h) = search keeps_rules

  History-read-Settled : Keeps (Settled v d) History.read
  unfolding History.read
  History-read-Settled = search (keeps_rules, run-Settled, load_history-Settled)

  pub History-push-Settled : (r : DeploymentRecord) → Keeps (Settled v d) (History.push r)
  unfolding History.push
  History-push-Settled r =
      search (keeps_rules, History-read-Settled, History-write-Settled) depth 14

  pub History-set-Settled :
      (app : Text) (vs : List DeploymentVersion) → Keeps (Settled v d) (History.set app vs)
  unfolding History.set
  History-set-Settled app vs =
      search (keeps_rules, History-read-Settled, History-write-Settled) depth 14

  remove_image-Settled : (image : Text) → Keeps (Settled v d) (remove_image image)
  unfolding remove_image
  remove_image-Settled image = Keeps-ignore _ (run-Settled _ _)

  remove_fullstack_image-Settled :
      (app service image : Text) → Keeps (Settled v d) (remove_fullstack_image app service image)
  unfolding remove_fullstack_image
  remove_fullstack_image-Settled app service image =
      Keeps-if _ _ _ (Keeps-pure tt) (remove_image-Settled image)

  remove_service_images-Settled :
      (keep : List Text) (app : Text) (ss : List DeploymentServiceRecord)
      → Keeps (Settled v d) (remove_service_images keep app ss)
  unfolding remove_service_images
  remove_service_images-Settled keep app [] = Keeps-pure tt
  remove_service_images-Settled keep app (s ∷ ss) =
      Keeps-bind _ _
        (Keeps-if _ _ _ (Keeps-pure tt) (remove_fullstack_image-Settled app s.name s.image))
        (λ _. remove_service_images-Settled keep app ss)

  if_valid-Settled :
      (r : Result (Unit {0})) (m : Io (Unit {0}))
      → Keeps (Settled v d) m
      → Keeps (Settled v d) (elim r [ ok _ ↦ m | err _ ↦ pure tt ])
  if_valid-Settled (ok a) m k = k
  if_valid-Settled (err e) m k = Keeps-pure tt

  remove_version_images-Settled :
      (keep : List Text) (past : DeploymentVersion)
      → Keeps (Settled v d) (remove_version_images keep past)
  unfolding remove_version_images
  remove_version_images-Settled keep past =
      Keeps-if _ _ _ (if_valid-Settled _ _ (remove_service_images-Settled keep _ _))
        (Keeps-if _ _ _ (Keeps-pure tt) (remove_image-Settled _))

  pub remove_pruned_history_images-Settled :
      (keep : List Text) (vs : List DeploymentVersion)
      → Keeps (Settled v d) (remove_pruned_history_images keep vs)
  unfolding remove_pruned_history_images
  remove_pruned_history_images-Settled keep [] = Keeps-pure tt
  remove_pruned_history_images-Settled keep (past ∷ vs) =
      Keeps-bind _ _ (remove_version_images-Settled keep past)
        λ _. remove_pruned_history_images-Settled keep vs

  remove_managed-Settled :
      (path : FilePath) → Keeps (Settled v d) (remove_managed_deployment_path path)
  unfolding remove_managed_deployment_path
  remove_managed-Settled path = search (keeps_rules, Keeps-lift, run-Settled)

  pub replace_deployment_source-Settled :
      (current candidate : FilePath)
      → Keeps (Settled v d) (replace_deployment_source current candidate)
  unfolding replace_deployment_source
  replace_deployment_source-Settled current candidate =
      search (keeps_rules, Keeps-lift, run-Settled, remove_managed-Settled)

  remove_container-Settled : (name : Text) → Keeps (Settled v d) (remove_container name)
  unfolding remove_container
  remove_container-Settled name = Keeps-ignore _ (run-Settled _ _)

  container_exists-Settled : (name : Text) → Keeps (Settled v d) (container_exists name)
  unfolding container_exists
  container_exists-Settled name = search (keeps_rules, run-Settled)

  pub retire_container-Settled :
      (old candidate : Text) → Keeps (Settled v d) (retire_container old candidate)
  unfolding retire_container
  retire_container-Settled old candidate = Keeps-if _ _ _ (Keeps-pure tt) (
      Keeps-bind _ _ (container_exists-Settled old)
        λ found. Keeps-if _ _ _ (remove_container-Settled old) (Keeps-pure tt))

  pub if_ok-Settled {ℓ} :
      {A : Type ℓ} (r : Result A) (next : A → Io (Unit {0}))
      → ((a : A) → Keeps (Settled v d) (next a))
      → Keeps (Settled v d) (if_ok r next)
  if_ok-Settled (ok a) next k = k a
  if_ok-Settled (err e) next k = Keeps-pure tt
