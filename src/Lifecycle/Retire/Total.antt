-- ===== src/Lifecycle/Retire/Total.antt =====
-- What follows a cutover in app/deploy.go returns no error.
use mini_deploy.Prelude.{List, [], ◌∷◌}
use mini_deploy.Text.{Text}
use mini_deploy.Records.{DeploymentServiceRecord, DeploymentVersion}
use mini_deploy.Result.{Result, ok, err}
use mini_deploy.Docker.{container_exists, remove_container}
use mini_deploy.World.Handle.{if_ok}
use mini_deploy.World.{Io, pure}
use mini_deploy.World.Keeps.{
  Succeeds, Succeeds-bind, Succeeds-pure, Succeeds-if, Succeeds-ignore, succeeds_rules,
}
use mini_deploy.Lifecycle.Retire.{
  remove_image, remove_fullstack_image, remove_service_images, remove_version_images,
  remove_pruned_history_images, retire_container,
}

remove_image-Succeeds : (image : Text) → Succeeds (remove_image image)
unfolding remove_image
remove_image-Succeeds image = Succeeds-ignore _

remove_fullstack_image-Succeeds :
    (app service image : Text) → Succeeds (remove_fullstack_image app service image)
unfolding remove_fullstack_image
remove_fullstack_image-Succeeds app service image =
    Succeeds-if _ _ _ (Succeeds-pure tt) (remove_image-Succeeds image)

remove_service_images-Succeeds :
    (keep : List Text) (app : Text) (ss : List DeploymentServiceRecord)
    → Succeeds (remove_service_images keep app ss)
unfolding remove_service_images
remove_service_images-Succeeds keep app [] = Succeeds-pure tt
remove_service_images-Succeeds keep app (s ∷ ss) =
    Succeeds-bind _ _
      (Succeeds-if _ _ _ (Succeeds-pure tt) (remove_fullstack_image-Succeeds app s.name s.image))
      (λ _. remove_service_images-Succeeds keep app ss)

if_valid-Succeeds :
    (r : Result (Unit {0})) (m : Io (Unit {0}))
    → Succeeds m
    → Succeeds (elim r [ ok _ ↦ m | err _ ↦ pure tt ])
if_valid-Succeeds (ok a) m k = k
if_valid-Succeeds (err e) m k = Succeeds-pure tt

remove_version_images-Succeeds :
    (keep : List Text) (v : DeploymentVersion) → Succeeds (remove_version_images keep v)
unfolding remove_version_images
remove_version_images-Succeeds keep v =
    Succeeds-if _ _ _ (if_valid-Succeeds _ _ (remove_service_images-Succeeds keep _ _))
      (Succeeds-if _ _ _ (Succeeds-pure tt) (remove_image-Succeeds _))

pub remove_pruned_history_images-Succeeds :
    (keep : List Text) (vs : List DeploymentVersion)
    → Succeeds (remove_pruned_history_images keep vs)
unfolding remove_pruned_history_images
remove_pruned_history_images-Succeeds keep [] = Succeeds-pure tt
remove_pruned_history_images-Succeeds keep (v ∷ vs) =
    Succeeds-bind _ _ (remove_version_images-Succeeds keep v)
      λ _. remove_pruned_history_images-Succeeds keep vs

remove_container-Succeeds : (name : Text) → Succeeds (remove_container name)
unfolding remove_container
remove_container-Succeeds name = Succeeds-ignore _

container_exists-Succeeds : (name : Text) → Succeeds (container_exists name)
unfolding container_exists
container_exists-Succeeds name = search succeeds_rules

pub retire_container-Succeeds : (old candidate : Text) → Succeeds (retire_container old candidate)
unfolding retire_container
retire_container-Succeeds old candidate = Succeeds-if _ _ _ (Succeeds-pure tt) (
    Succeeds-bind _ _ (container_exists-Succeeds old)
      λ found. Succeeds-if _ _ _ (remove_container-Succeeds old) (Succeeds-pure tt))

pub if_ok-Succeeds {ℓ} :
    {A : Type ℓ} (r : Result A) (next : A → Io (Unit {0}))
    → ((a : A) → Succeeds (next a))
    → Succeeds (if_ok r next)
if_ok-Succeeds (ok a) next k = k a
if_ok-Succeeds (err e) next k = Succeeds-pure tt
