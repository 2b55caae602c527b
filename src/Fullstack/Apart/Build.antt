-- ===== src/Fullstack/Apart/Build.antt =====
-- The build and the start of a full-stack candidate in app/fullstack_lifecycle.go leave it apart from the release in
-- service, and do not touch that release.
use mini_deploy.Prelude.{true, List, [], ◌∷◌, All}
use mini_deploy.Text.{Text}
use mini_deploy.Records.{DeploymentRecord, DeploymentServiceRecord}
use mini_deploy.Strategy
use mini_deploy.Detect.Plan.{ProjectPlan}
use mini_deploy.Detect.Project.{zero_service}
use mini_deploy.World.{World}
use mini_deploy.World.Keeps.{Keeps, Keeps-bind, Keeps-bind_of, Keeps-ignore, Keeps-pure}
use mini_deploy.World.Returns.{Returns, returned, Returns-bind, Returns-pure, Returns-then}
use mini_deploy.Lifecycle.Keeps.{Spares, Spares-event, calm-Spares}
use mini_deploy.Lifecycle.Keeps.Checkout.{build_image-Spares}
use mini_deploy.Lifecycle.Keeps.Containers.{image_id-Spares, on_error-Spares}
use mini_deploy.Fullstack.Resources.Keeps.{remove_fullstack_image-Keeps}
use mini_deploy.Fullstack.Release.{service_of}
use mini_deploy.Fullstack.Release.Images.{build_fullstack_release, build_service, remove_built}
use mini_deploy.Fullstack.Apart.{Apart, OtherImage, service-All, with_image_id-Apart}

module _ (old : DeploymentRecord) where
  build_service-Apart :
      (plan : ProjectPlan) (name : Text) (built also : List DeploymentServiceRecord)
      (r : DeploymentRecord) (w : World)
      → Apart old true r
      → Returns (λ s _. Apart old true s) (build_service plan name built also r) w
  unfolding build_service
  build_service-Apart plan name built also r w a = Returns-then _ _ _ w λ _ w1.
      Returns-then _ _ _ w1 λ id w2. Returns-pure _ _ w2 (with_image_id-Apart old true name id r a)

  pub build_fullstack_release-Apart :
      (r : DeploymentRecord) (plan : ProjectPlan) (w : World)
      → Apart old true r
      → Returns (λ s _. Apart old true s) (build_fullstack_release r plan) w
  unfolding build_fullstack_release
  build_fullstack_release-Apart r plan w a =
      Returns-bind (λ s _. Apart old true s) _ _ _ w (build_service-Apart plan _ _ _ r w a)
        λ s w1 b. build_service-Apart plan _ _ _ s w1 b

  module _ (v : World) where
    remove_built-Spares :
        (app : Text) (built : List DeploymentServiceRecord)
        → All (OtherImage old) built
        → Keeps (Spares old v) (remove_built app built)
    unfolding remove_built
    remove_built-Spares app [] h = Keeps-pure tt
    remove_built-Spares app (s ∷ ss) (h, hs) =
        Keeps-bind _ _
          (Keeps-ignore _ (
            remove_fullstack_image-Keeps (calm-Spares old v) app s.name s.image
              λ e. Spares-event old v _ (h e)))
          λ _. remove_built-Spares app ss hs

    build_service-Spares :
        (plan : ProjectPlan) (name : Text) (built also : List DeploymentServiceRecord)
        (r : DeploymentRecord)
        → All (OtherImage old) built
        → All (OtherImage old) also
        → Keeps (Spares old v) (build_service plan name built also r)
    unfolding build_service
    build_service-Spares plan name built also r h k =
        Keeps-bind _ _
          (on_error-Spares old v _ _ (build_image-Spares old v _ _ _)
            (remove_built-Spares r.app built h))
          λ _.
            Keeps-bind _ _
              (on_error-Spares old v _ _ (image_id-Spares old v _)
                (remove_built-Spares r.app also k))
              λ id. Keeps-pure _

    zero-OtherImage : OtherImage old zero_service
    zero-OtherImage e = cc

    service_of-OtherImage :
        (name : Text) (r : DeploymentRecord) → Apart old true r → OtherImage old (service_of name r)
    service_of-OtherImage name r a =
        service-All (OtherImage old) name r.services (λ _. zero-OtherImage) a.other_images

    pub build_fullstack_release-Spares :
        (r : DeploymentRecord) (plan : ProjectPlan)
        → Apart old true r
        → Keeps (Spares old v) (build_fullstack_release r plan)
    unfolding build_fullstack_release
    build_fullstack_release-Spares r plan a =
        let front = service_of-OtherImage Strategy.frontend_service r a in
        Keeps-bind_of _ _ (build_service-Spares plan _ _ _ r tt (front, tt)) λ w h s e.
          let b =
            returned (λ s _. Apart old true s) _ w s (build_service-Apart plan _ _ _ r w a) e in
          build_service-Spares plan _ _ _ s (front, tt)
            (front, (service_of-OtherImage Strategy.backend_service s b, tt))
