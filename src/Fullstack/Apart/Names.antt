-- ===== src/Fullstack/Apart/Names.antt =====
-- The names of a full-stack candidate in app/fullstack_lifecycle.go, where the clock gives it other names than the
-- release in service has.
use mini_deploy.Prelude.{◌≡◌, refl, Bool, true, false, ◌&&◌, ◌||◌, List, ◌++◌, arith, inl, inr, ◌⊎◌}
use mini_deploy.Text.{Text, codes, decimal, eq_sound}
use mini_deploy.Records.{DeploymentRecord, DeploymentServiceRecord}
use mini_deploy.Result.{Result, ok, guard, fullstack_metadata, invalid_plan, >>=-eq-ok}
use mini_deploy.Strategy
use mini_deploy.Path.{validate_application_name}
use mini_deploy.Detect.Plan.{ProjectPlan}
use mini_deploy.World.{Environment, Event, Host}
use mini_deploy.Lifecycle.Keeps.{touches}
use mini_deploy.Lifecycle.Retire.{is_trusted_docker_identifier}
use mini_deploy.Fullstack.{
  container_prefix, fullstack_release_network_name, fullstack_service_container_name,
  fullstack_service_image_name, image_prefix, is_fullstack_container_kind,
  is_fullstack_service_name, network_prefix, validate_fullstack_active_resources,
}
use mini_deploy.Fullstack.Laws.{and_true, guard-true}
use mini_deploy.Fullstack.Release.{
  new_fullstack_release_record, new_release_service, is_fullstack_plan, planned, release_record,
  release_service,
}
use mini_deploy.Database.{fullstack_build_service_by_name}
use mini_deploy.Fullstack.Apart.{Apart, OtherContainer, OtherImage, normalize-Apart}

-- The names of a release of the kind: those of its network, of its containers and of its images are not those of the
-- release in service.
pub record HasOtherNames (old : DeploymentRecord) (kind release : Text) : Type 0 where
  pub network : touches old (Event.network_rm (network_prefix old.app ++ release)) ≡ false
  pub container :
      (service : Text)
      → (service ≡ Strategy.frontend_service) ⊎ (service ≡ Strategy.backend_service)
      → touches old
          (Event.docker_rm (container_prefix old.app service ++ (kind ++ codes "-" ++ release)))
        ≡ false
  pub image :
      (service : Text)
      → (service ≡ Strategy.frontend_service) ⊎ (service ≡ Strategy.backend_service)
      → touches old (Event.image_rm (image_prefix old.app service ++ release)) ≡ false

-- At no time does the clock give a release of the kind the names of the release in service.
pub record IsFreshRelease (old : DeploymentRecord) (kind : Text) (host : Host) : Type 0 where
  pub at : (trace : List Event) → HasOtherNames old kind (decimal (host.now trace))

or_true : (a b : Bool) → (a || b) ≡ true → (a ≡ true) ⊎ (b ≡ true)
or_true true b h = inl refl
or_true false b h = inr h

service_names :
    (service : Text)
    → is_fullstack_service_name service ≡ true
    → (service ≡ Strategy.frontend_service) ⊎ (service ≡ Strategy.backend_service)
unfolding is_fullstack_service_name
service_names service h = elim (or_true _ _ h) [
  | inl e ↦ inl (eq_sound service Strategy.frontend_service e)
  | inr e ↦ inr (eq_sound service Strategy.backend_service e)
]

same_Apart :
    {old : DeploymentRecord} {images : Bool} (r s : DeploymentRecord)
    → ◌≡◌ {A = Result DeploymentRecord} (ok r) (ok s)
    → Apart old images r
    → Apart old images s
same_Apart r s h a = let same : r ≡ s = ground (arith, h) in rw⁻¹ same a

module _ (old : DeploymentRecord) (kind release : Text) (n : HasOtherNames old kind release) where
  pub network_name-Other :
      (network : Text)
      → fullstack_release_network_name old.app release ≡ ok network
      → touches old (Event.network_rm network) ≡ false
  unfolding fullstack_release_network_name
  network_name-Other network h =
      let (u, e, k) = >>=-eq-ok (validate_application_name old.app) _ h in
      let (v, f, l) =
        >>=-eq-ok (guard (is_trusted_docker_identifier release) fullstack_metadata) _ k in
      let same : network_prefix old.app ++ release ≡ network = ground (arith, l) in
      rw⁻¹ same n.network

  pub container_name-Other :
      (service container : Text)
      → fullstack_service_container_name old.app service kind release ≡ ok container
      → touches old (Event.docker_rm container) ≡ false
  unfolding fullstack_service_container_name
  container_name-Other service container h =
      let (u, e, k) = >>=-eq-ok (validate_application_name old.app) _ h in
      let (v, f, l) =
        >>=-eq-ok
          (guard
            (is_fullstack_service_name service
              && is_fullstack_container_kind kind
              && is_trusted_docker_identifier release)
            fullstack_metadata)
          _ k in
      let all =
        and_true (is_fullstack_service_name service && is_fullstack_container_kind kind) _
          (guard-true _ _ v f) in
      let both = and_true (is_fullstack_service_name service) _ all.0 in
      let same : container_prefix old.app service ++ (kind ++ codes "-" ++ release) ≡ container =
        ground (arith, l) in
      rw⁻¹ same (n.container service (service_names service both.0))

  image_name-Other :
      (service image : Text)
      → fullstack_service_image_name old.app service release ≡ ok image
      → touches old (Event.image_rm image) ≡ false
  unfolding fullstack_service_image_name
  image_name-Other service image h =
      let (u, e, k) = >>=-eq-ok (validate_application_name old.app) _ h in
      let (v, f, l) =
        >>=-eq-ok
          (guard (is_fullstack_service_name service && is_trusted_docker_identifier release)
            fullstack_metadata)
          _ k in
      let both = and_true (is_fullstack_service_name service) _ (guard-true _ _ v f) in
      let same : image_prefix old.app service ++ release ≡ image = ground (arith, l) in
      rw⁻¹ same (n.image service (service_names service both.0))

  new_release_service-Other :
      (plan : ProjectPlan) (name : Text) (s : DeploymentServiceRecord)
      → new_release_service old.app plan release kind name ≡ ok s
      → OtherContainer old s × OtherImage old s
  unfolding new_release_service
  new_release_service-Other plan name s h =
      let (service, e, k) =
        >>=-eq-ok (planned name (fullstack_build_service_by_name name plan.services)) _ h in
      let (container, f, l) =
        >>=-eq-ok (fullstack_service_container_name old.app name kind release) _ k in
      let (image, g, m) = >>=-eq-ok (fullstack_service_image_name old.app name release) _ l in
      let same : release_service name service container image ≡ s = ground (arith, m) in
      rw⁻¹ same (container_name-Other name container f, λ _. image_name-Other name image g)

  pub new_fullstack_release_record-Apart :
      (repo_url : Text) (plan : ProjectPlan) (environment : Environment) (r : DeploymentRecord)
      → new_fullstack_release_record old.app repo_url plan release kind environment ≡ ok r
      → Apart old true r
  unfolding new_fullstack_release_record
  new_fullstack_release_record-Apart repo_url plan environment r h =
      let (u, e, k) = >>=-eq-ok (guard (is_fullstack_plan plan) invalid_plan) _ h in
      let (network, f, l) = >>=-eq-ok (fullstack_release_network_name old.app release) _ k in
      let (frontend, g, m) =
        >>=-eq-ok (new_release_service old.app plan release kind Strategy.frontend_service) _ l in
      let (backend, i, o) =
        >>=-eq-ok (new_release_service old.app plan release kind Strategy.backend_service) _ m in
      let (v, j, q) = >>=-eq-ok (validate_fullstack_active_resources _) _ o in
      let first = new_release_service-Other plan Strategy.frontend_service frontend g in
      let second = new_release_service-Other plan Strategy.backend_service backend i in
      same_Apart _ r q (
        normalize-Apart old true
          (release_record old.app repo_url network environment frontend backend)
          (record {
            app = refl;
            network = network_name-Other network f;
            containers = (first.0, (second.0, tt));
            other_images = (first.1, (second.1, tt));
          }))
