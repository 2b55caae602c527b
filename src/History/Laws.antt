-- ===== src/History/Laws.antt =====
-- The versions that a push keeps, the ones that it prunes, and what a rollback restores from them.
use mini_deploy.Prelude.{
  ℕ, zero, suc, ◌≡◌, refl, ap, ◌∙◌, ◌≤◌, ◌+◌, false, not, List, [], ◌∷◌, take, keep_if, arith,
  if◌then◌else◌,
}
use mini_deploy.Text.{Text, ◌==◌, eq_iff}
use mini_deploy.Records.{DeploymentRecord, DeploymentVersion}
use mini_deploy.Names.{normalize_runtime_environment_names}
use mini_deploy.Config.{normalize_deployment_record, normalize_fields, project_fullstack}
use mini_deploy.Config.Laws.{normalize-normalize}
use mini_deploy.World.{History}
use mini_deploy.History.{
  deployment_version, version_record, lookup_versions, put_versions, drop_versions, max_previous,
  pushed,
}

pub lookup-put_versions :
    (app other : Text) (vs : List DeploymentVersion) (h : History)
    → lookup_versions other (put_versions app vs h)
      ≡ (if app == other then vs else lookup_versions other h)
unfolding lookup_versions put_versions
lookup-put_versions app other vs [] = refl
lookup-put_versions app other vs ((key, old) ∷ rest) = ground (
  arith,
  eq_iff key app,
  eq_iff app other,
  eq_iff key other,
  lookup-put_versions app other vs rest,
)

pub lookup-drop_versions :
    (app other : Text) (h : History)
    → lookup_versions other (drop_versions app h)
      ≡ (if app == other then [] else lookup_versions other h)
unfolding lookup_versions drop_versions
lookup-drop_versions app other [] = ground arith
lookup-drop_versions app other ((key, old) ∷ rest) =
    ground (
      arith,
      eq_iff key app,
      eq_iff app other,
      eq_iff key other,
      lookup-drop_versions app other rest,
    )

-- How many versions of an image a list holds.
unfoldable pub image_count : Text → List DeploymentVersion → ℕ
image_count image [] = 0
image_count image (v ∷ vs) = (if v.image == image then 1 else 0) + image_count image vs

image_count-filtered :
    (image : Text) (vs : List DeploymentVersion)
    → image_count image (keep_if (λ v. not (v.image == image)) vs) ≡ 0
unfolding image_count
image_count-filtered image [] = refl
image_count-filtered image (v ∷ vs) = ground (arith, image_count-filtered image vs)

image_count-filtered_other :
    (image other : Text) (vs : List DeploymentVersion)
    → image_count other (keep_if (λ v. not (v.image == image)) vs) ≤ image_count other vs
unfolding image_count
image_count-filtered_other image other [] = omega arith
image_count-filtered_other image other (v ∷ vs) =
    ground (arith, image_count-filtered_other image other vs)

-- No image has two versions.
abbrev pub HasDistinctImages : List DeploymentVersion → Type 0
HasDistinctImages vs = (image : Text) → image_count image vs ≤ 1

image_count-take :
    (image : Text) (n : ℕ) (vs : List DeploymentVersion)
    → image_count image (take n vs) ≤ image_count image vs
unfolding image_count
image_count-take image zero vs = omega arith
image_count-take image (suc n) [] = omega arith
image_count-take image (suc n) (v ∷ vs) = omega (arith, image_count-take image n vs)

module _ (now : ℕ) (r : DeploymentRecord) where
  image_count-pushed :
      (existing : List DeploymentVersion) (image : Text)
      → normalize_deployment_record r ≡ r
      → image_count image existing ≤ 1
      → image_count image (pushed now r existing) ≤ 1
  unfolding pushed deployment_version image_count
  image_count-pushed existing image e h = ground (
    arith,
    eq_iff r.image image,
    e,
    image_count-filtered r.image existing,
    image_count-filtered_other r.image image existing,
  )

  -- For a record in normal form, a push keeps the images of the history distinct.
  pub pushed-HasDistinctImages :
      (existing : List DeploymentVersion)
      → normalize_deployment_record r ≡ r
      → HasDistinctImages existing
      → HasDistinctImages (take max_previous (pushed now r existing))
  pushed-HasDistinctImages existing e h image = omega (
    arith,
    image_count-take image max_previous (pushed now r existing),
    image_count-pushed existing image e (h image),
  )

-- What a version keeps of a record: all but the environment names, the network, the database and the
-- visibility, which belong to the application.
abbrev pub released : DeploymentRecord → DeploymentRecord
released r = record r {
  environment_variables = [];
  network = [];
  database_attachments = [];
  database_detached = false;
  guest_visible = false;
}

project-released :
    (n : DeploymentRecord) → project_fullstack (released n) ≡ released (project_fullstack n)
unfolding project_fullstack
project-released n = ground arith

normalize-released :
    (r : DeploymentRecord)
    → normalize_deployment_record (released r) ≡ released (normalize_deployment_record r)
unfolding normalize_deployment_record normalize_runtime_environment_names
normalize-released r = project-released (normalize_fields r)

-- The record that a version stands for is the record that it was made of, in normal form and without
-- its environment names, network, database and visibility.
pub version_record-deployment_version :
    (now : ℕ) (r : DeploymentRecord)
    → version_record (deployment_version now r) ≡ released (normalize_deployment_record r)
unfolding version_record deployment_version
version_record-deployment_version now r =
    normalize-released (normalize_deployment_record r) ∙ ap released (normalize-normalize r)
