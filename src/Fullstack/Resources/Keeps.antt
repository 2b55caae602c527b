-- ===== src/Fullstack/Resources/Keeps.antt =====
-- The cleanup of a full-stack release in app/fullstack_runtime.go, for an invariant that only removals can
-- break: it has to allow the removal of what the record names.
use mini_deploy.Prelude.{◌≡◌, refl, Bool, true, false, List, [], ◌∷◌, All, if◌then◌else◌}
use mini_deploy.Text.{Text, is_empty}
use mini_deploy.Records.{DeploymentRecord, DeploymentServiceRecord}
use mini_deploy.Result.{Error, Result, ok, err}
use mini_deploy.World.{World, Io, Event.docker_rm, Event.image_rm, Event.network_rm, pure}
use mini_deploy.World.Keeps.{
  Allows, Calm, Keeps, Keeps-bind, Keeps-fail, Keeps-gets, Keeps-if, Keeps-if_of, Keeps-lift,
  Keeps-pure, Keeps-run, Keeps-try,
}
use mini_deploy.Fullstack.Resources.{
  remove_labelled_network, remove_fullstack_network, verify_fullstack_container_ownership,
  remove_verified, remove_fullstack_container, remove_fullstack_image, create_fullstack_network,
  for_services, cleanup_fullstack_release,
}

-- The removals of a cleanup are allowed: those of the network and of each container, and where the images go
-- too, those of each image.
pub record Removable (P : World → Type 0) (r : DeploymentRecord) (images : Bool) : Type 0 where
  pub network : Allows P (network_rm r.network)
  pub containers : All (λ s. Allows P (docker_rm s.container)) r.services
  pub each_image :
      if images
      then All (λ s. is_empty s.image ≡ false → Allows P (image_rm s.image)) r.services
      else Unit {0}

module _ {P : World → Type 0} (calm : Calm P) where
  labelled-Keeps :
      (app network : Text) (missing : Bool) (labels : Result Text)
      → Allows P (network_rm network)
      → Keeps P (remove_labelled_network app network missing labels)
  unfolding remove_labelled_network
  labelled-Keeps app network missing (err e) a = Keeps-if missing _ _ (Keeps-pure _) (Keeps-fail _)
  labelled-Keeps app network missing (ok labels) a =
      Keeps-if _ _ _ (Keeps-fail _) (Keeps-bind _ _ (Keeps-run _ _ a) λ _. Keeps-pure _)

  remove_network-Keeps :
      (app network : Text)
      → Allows P (network_rm network)
      → Keeps P (remove_fullstack_network app network)
  unfolding remove_fullstack_network
  remove_network-Keeps app network a = Keeps-if _ _ _ (Keeps-pure _) (
      Keeps-bind _ _ (Keeps-lift _) λ _. Keeps-bind _ _ (Keeps-gets _) λ missing.
        Keeps-bind _ _ (Keeps-try _ (Keeps-run _ _ (calm _ refl)))
          λ labels. labelled-Keeps app network missing labels a)

  pub create_network-Keeps : (app network : Text) → Keeps P (create_fullstack_network app network)
  unfolding create_fullstack_network
  create_network-Keeps app network =
      Keeps-bind _ _ (Keeps-lift _)
        λ _. Keeps-bind _ _ (Keeps-run _ _ (calm _ refl)) λ _. Keeps-pure _

  verify-Keeps :
      (app service container : Text)
      → Keeps P (verify_fullstack_container_ownership app service container)
  unfolding verify_fullstack_container_ownership
  verify-Keeps app service container = Keeps-bind _ _ (Keeps-lift _) λ _.
      Keeps-bind _ _ (Keeps-run _ _ (calm _ refl))
        λ labels. Keeps-if _ _ _ (Keeps-pure _) (Keeps-fail _)

  verified-Keeps :
      (container : Text) (missing : Error → Bool) (verified : Result (Unit {0}))
      → Allows P (docker_rm container)
      → Keeps P (remove_verified container missing verified)
  unfolding remove_verified
  verified-Keeps container missing (ok a) k = Keeps-bind _ _ (Keeps-run _ _ k) λ _. Keeps-pure _
  verified-Keeps container missing (err e) k = Keeps-if _ _ _ (Keeps-pure _) (Keeps-fail _)

  remove_container-Keeps :
      (app service container : Text)
      → Allows P (docker_rm container)
      → Keeps P (remove_fullstack_container app service container)
  unfolding remove_fullstack_container
  remove_container-Keeps app service container k = Keeps-if _ _ _ (Keeps-pure _) (
      Keeps-bind _ _ (Keeps-gets _) λ missing.
        Keeps-bind _ _ (Keeps-try _ (verify-Keeps app service container))
          λ verified. verified-Keeps container missing verified k)

  pub remove_fullstack_image-Keeps :
      (app service image : Text)
      → (is_empty image ≡ false → Allows P (image_rm image))
      → Keeps P (remove_fullstack_image app service image)
  unfolding remove_fullstack_image
  remove_fullstack_image-Keeps app service image k =
      Keeps-if_of (is_empty image) _ _ (λ _. Keeps-pure _)
        λ h.
          Keeps-bind _ _ (Keeps-lift _) λ _. Keeps-bind _ _ (Keeps-run _ _ (k h)) λ _. Keeps-pure _

  for_services-Keeps :
      (A : DeploymentServiceRecord → Type 0) (step : DeploymentServiceRecord → Io (Unit {0}))
      (ss : List DeploymentServiceRecord)
      → ((s : DeploymentServiceRecord) → A s → Keeps P (step s))
      → All A ss
      → Keeps P (for_services step ss)
  unfolding for_services
  for_services-Keeps A step [] k a = Keeps-pure _
  for_services-Keeps A step (s ∷ ss) k (first, later) =
      Keeps-bind _ _ (Keeps-try _ (k s first))
        λ _. Keeps-bind _ _ (Keeps-try _ (for_services-Keeps A step ss k later)) λ _. Keeps-lift _

  images-Keeps :
      (r : DeploymentRecord) (images : Bool)
      → Removable P r images
      → Keeps P (
          if images
          then for_services (λ s. remove_fullstack_image r.app s.name s.image) r.services
          else pure tt)
  images-Keeps r true m =
      for_services-Keeps _ _ r.services (λ s. remove_fullstack_image-Keeps r.app s.name s.image)
        m.each_image
  images-Keeps r false m = Keeps-pure _

  pub cleanup-Keeps :
      (r : DeploymentRecord) (images : Bool)
      → Removable P r images
      → Keeps P (cleanup_fullstack_release r images)
  unfolding cleanup_fullstack_release
  cleanup-Keeps r images m = Keeps-bind _ _ (Keeps-lift _) λ _.
      Keeps-bind _ _
        (Keeps-try _ (
          for_services-Keeps _ _ r.services (λ s. remove_container-Keeps r.app s.name s.container)
            m.containers))
        λ containers.
          Keeps-bind _ _ (Keeps-try _ (remove_network-Keeps r.app r.network m.network))
            λ network. Keeps-bind _ _ (Keeps-try _ (images-Keeps r images m)) λ images. Keeps-lift _
