-- ===== src/Fullstack/Apart.antt =====
-- A full-stack candidate of app/fullstack_lifecycle.go has other names than the release in service, from its record
-- to its start.
pub mod Names
pub mod Build
pub mod Start
use mini_deploy.Prelude.{
  ◌≡◌, refl, ap, ◌∙◌, ℤ, Bool, true, false, Option, none, some, List, [], ◌∷◌, ◌++◌, All, map,
  arith, if◌then◌else◌,
}
use mini_deploy.Text.{Text, codes, ◌==◌, is_empty}
use mini_deploy.Records.{DeploymentRecord, DeploymentServiceRecord}
use mini_deploy.Result
use mini_deploy.Result.{Result, ok, err}
use mini_deploy.Strategy
use mini_deploy.Config.{
  find_service, normalize_deployment_record, normalize_fields, normalize_service, project_frontend,
  project_fullstack,
}
use mini_deploy.World.{World, Event}
use mini_deploy.Lifecycle.Keeps.{Spares, Spares-event, touches}
use mini_deploy.Detect.Project.{service_or_zero, zero_service}
use mini_deploy.Fullstack.Resources.Keeps.{Removable}
use mini_deploy.Detect.Npm.{is_some}
use mini_deploy.Fullstack.Release.Images.{with_image_id}
use mini_deploy.Fullstack.Release.Start.{with_port}
use mini_deploy.Fullstack.Release.{service_of, update_service, with_service}

module _ (old : DeploymentRecord) where
  -- A container, and an image that has a name, are not those of the release in service.
  abbrev pub OtherContainer : DeploymentServiceRecord → Type 0
  OtherContainer s = touches old (Event.docker_rm s.container) ≡ false

  abbrev pub OtherImage : DeploymentServiceRecord → Type 0
  OtherImage s = is_empty s.image ≡ false → touches old (Event.image_rm s.image) ≡ false

  -- The record is of the same application, with another network and other containers and, where `images` says
  -- so, other images.
  pub record Apart (images : Bool) (r : DeploymentRecord) : Type 0 where
    pub app : r.app ≡ old.app
    pub network : touches old (Event.network_rm r.network) ≡ false
    pub containers : All OtherContainer r.services
    pub other_images : if images then All OtherImage r.services else Unit {0}

module _ (P Q : DeploymentServiceRecord → Type 0) where
  each_of :
      ((s : DeploymentServiceRecord) → P s → Q s)
      → (ss : List DeploymentServiceRecord) → All P ss
      → All Q ss
  each_of f [] h = tt
  each_of f (s ∷ ss) (h, k) = (f s h, each_of f ss k)

  if_each :
      (b : Bool) (ss ts : List DeploymentServiceRecord)
      → (All P ss → All Q ts)
      → (if b then All P ss else Unit {0})
      → (if b then All Q ts else Unit {0})
  if_each true ss ts f h = f h
  if_each false ss ts f h = tt

module _ (old : DeploymentRecord) (v : World) where
  pub Apart-Removable :
      (images : Bool) (r : DeploymentRecord)
      → Apart old images r
      → Removable (Spares old v) r images
  Apart-Removable images r a = record {
    network = Spares-event old v _ a.network;
    containers = each_of _ _ (λ s h. Spares-event old v _ h) r.services a.containers;
    each_image =
        if_each _ _ images r.services r.services
          (each_of _ _ (λ s h k. Spares-event old v _ (h k)) r.services) a.other_images;
  }

module _ (P : DeploymentServiceRecord → Type 0) where
  module _ (name : Text) (f : DeploymentServiceRecord → DeploymentServiceRecord)
      (k : (s : DeploymentServiceRecord) → P s → P (f s)) where
    if_update :
        (b : Bool) (s : DeploymentServiceRecord) (ss ts : List DeploymentServiceRecord)
        → P s
        → All P ss
        → All P ts
        → All P (if b then f s ∷ ss else s ∷ ts)
    if_update true s ss ts h hs ks = (k s h, hs)
    if_update false s ss ts h hs ks = (h, ks)

    update-All : (ss : List DeploymentServiceRecord) → All P ss → All P (update_service name f ss)
    unfolding update_service
    update-All [] h = tt
    update-All (s ∷ ss) (h, hs) =
        if_update (s.name == name) s ss (update_service name f ss) h hs (update-All ss hs)

  -- What holds of a service, if there is one.
  abbrev When : Option DeploymentServiceRecord → Type 0
  When none = Unit {0}
  When (some s) = P s

  by_test :
      (b : Bool) (t : DeploymentServiceRecord) (o : Option DeploymentServiceRecord)
      → P t
      → When o
      → When (if b then some t else o)
  by_test true t o h k = h
  by_test false t o h k = k

  found-When :
      (name : Text) (ss : List DeploymentServiceRecord) → All P ss → When (find_service name ss)
  unfolding find_service
  found-When name [] h = tt
  found-When name (t ∷ ts) (h, hs) =
      by_test (t.name == name) t (find_service name ts) h (found-When name ts hs)

  of_some :
      (o : Option DeploymentServiceRecord) (s : DeploymentServiceRecord) → o ≡ some s → When o → P s
  of_some o s e h = rw e at h

  -- A service that is found is one of those of the list.
  pub found-All :
      (name : Text) (ss : List DeploymentServiceRecord) (s : DeploymentServiceRecord)
      → find_service name ss ≡ some s
      → All P ss
      → P s
  found-All name ss s e h = of_some (find_service name ss) s e (found-When name ss h)

  or_zero :
      (o : Option DeploymentServiceRecord)
      → (is_some o ≡ false → P zero_service)
      → When o
      → P (service_or_zero o)
  or_zero none z k = z refl
  or_zero (some s) z k = k

  pub service-All :
      (name : Text) (ss : List DeploymentServiceRecord)
      → (is_some (find_service name ss) ≡ false → P zero_service)
      → All P ss
      → P (service_or_zero (find_service name ss))
  service-All name ss z h = or_zero (find_service name ss) z (found-When name ss h)

-- An update finds what was found before.
pub is_some-update_service :
    (name : Text) (f : DeploymentServiceRecord → DeploymentServiceRecord)
    (ss : List DeploymentServiceRecord)
    → ((t : DeploymentServiceRecord) → (f t).name ≡ t.name)
    → is_some (find_service name (update_service name f ss)) ≡ is_some (find_service name ss)
unfolding find_service update_service
is_some-update_service name f [] k = refl
is_some-update_service name f (x ∷ xs) k = ground (arith, k x, is_some-update_service name f xs k)

module _ (old : DeploymentRecord) (images : Bool) where
  with_service-Apart :
      (name : Text) (f : DeploymentServiceRecord → DeploymentServiceRecord) (r : DeploymentRecord)
      → ((s : DeploymentServiceRecord) → OtherContainer old s → OtherContainer old (f s))
      → ((s : DeploymentServiceRecord) → OtherImage old s → OtherImage old (f s))
      → Apart old images r
      → Apart old images (with_service name f r)
  with_service-Apart name f r k l a = record {
    app = a.app;
    network = a.network;
    containers = update-All _ name f k r.services a.containers;
    other_images =
        if_each _ _ images r.services (update_service name f r.services)
          (update-All _ name f l r.services) a.other_images;
  }

  pub with_port-Apart :
      (name : Text) (port : ℤ) (r : DeploymentRecord)
      → Apart old images r
      → Apart old images (with_service name (with_port port) r)
  with_port-Apart name port r a = with_service-Apart name _ r (λ s h. h) (λ s h. h) a

  pub with_image_id-Apart :
      (name id : Text) (r : DeploymentRecord)
      → Apart old images r
      → Apart old images (with_service name (with_image_id id) r)
  with_image_id-Apart name id r a = with_service-Apart name _ r (λ s h. h) (λ s h. h) a

  map-All :
      (P : DeploymentServiceRecord → Type 0)
      → ((s : DeploymentServiceRecord) → P s → P (normalize_service s))
      → (ss : List DeploymentServiceRecord) → All P ss
      → All P (map normalize_service ss)
  map-All P k [] h = tt
  map-All P k (s ∷ ss) (h, hs) = (k s h, map-All P k ss hs)

  project_frontend-Apart :
      (r : DeploymentRecord) (o : Option DeploymentServiceRecord)
      → Apart old images r
      → Apart old images (project_frontend r o)
  project_frontend-Apart r none a = a
  project_frontend-Apart r (some s) a = record {
    app = a.app;
    network = a.network;
    containers = a.containers;
    other_images = a.other_images;
  }

  if-Apart :
      (b : Bool) (r s : DeploymentRecord)
      → Apart old images r
      → Apart old images s
      → Apart old images (if b then r else s)
  if-Apart true r s h k = h
  if-Apart false r s h k = k

  project_fullstack-Apart :
      (r : DeploymentRecord) → Apart old images r → Apart old images (project_fullstack r)
  unfolding project_fullstack
  project_fullstack-Apart r a =
      if-Apart (r.strategy == Strategy.fullstack_vite_node) _ r (project_frontend-Apart r _ a) a

  pub normalize-Apart :
      (r : DeploymentRecord) → Apart old images r → Apart old images (normalize_deployment_record r)
  unfolding normalize_deployment_record normalize_fields normalize_service
  normalize-Apart r a = project_fullstack-Apart (normalize_fields r) (record {
    app = a.app;
    network = a.network;
    containers = map-All _ (λ s h. h) r.services a.containers;
    other_images =
        if_each _ _ images r.services (map normalize_service r.services)
          (map-All _ (λ s h. h) r.services) a.other_images;
  })
