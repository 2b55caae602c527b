-- ===== src/Lifecycle/Carries.antt =====
-- A visibility that the owner chose stays through any number of saves.
use mathlib.Core.Option
use mini_deploy.Prelude.{
  ◌≡◌, refl, ap, ◌∙◌, Bool, Bool-cases, Option, none, some, List, inl, inr, arith,
}
use mini_deploy.Text.{Text, ◌==◌, eq_iff}
use mini_deploy.Records.{DeploymentRecord}
use mini_deploy.Result.{Result, ok, err}
use mini_deploy.World.{World}
use mini_deploy.World.Returns.{Returns, Returns-of}
use mini_deploy.Store
use mini_deploy.Store.{find_deployment, put_deployment}
use mini_deploy.Store.Contract.{saved_as}
use mini_deploy.Store.Effects.{Leaving, save-Leaves, view}
use mini_deploy.Store.Laws.{find-put_deployment, kept_visibility}
use mini_deploy.Lifecycle.Live.{Settled, found_among, stored_record}
use mini_deploy.Lifecycle.Unchanged.{Unchanged}
use mini_deploy.Proxy.RouteFiles.{route_files_of}

-- A record that an application has in `v` it still has in `w`, perhaps another one, with the same visibility.
pub record Carries (v w : World) : Type 0 where
  pub at :
      (app : Text) (x : DeploymentRecord)
      → stored_record v app ≡ some x
      → (y : DeploymentRecord) × (stored_record w app ≡ some y)
        × (y.guest_visible ≡ x.guest_visible)

pub Unchanged-Carries : (v w : World) → Unchanged v w → Carries v w
Unchanged-Carries v w k = record {
  at = λ app x h.
      (x, ap (λ (o : Option (List DeploymentRecord)). found_among o app) k.stored ∙ h, refl);
}

put_deployment-Carries :
    (d : DeploymentRecord) (o : Option (List DeploymentRecord)) (app : Text) (x : DeploymentRecord)
    → found_among o app ≡ some x
    → (y : DeploymentRecord) × (found_among (Option.map (put_deployment d) o) app ≡ some y)
      × (y.guest_visible ≡ x.guest_visible)
put_deployment-Carries d none app x h = cc
put_deployment-Carries d (some ds) app x h = elim (Bool-cases (d.app == app)) [
  | inl e ↦
      let same : d.app ≡ app = ground (arith, eq_iff d.app app, e) in
      let was : find_deployment d.app ds ≡ some x =
        ap (λ (t : Text). find_deployment t ds) same ∙ h in
      (
        saved_as d (find_deployment d.app ds),
        ground (arith, find-put_deployment d app ds, e),
        ap (λ (o : Option DeploymentRecord). kept_visibility d o) was,
      )
  | inr e ↦ (x, ground (arith, find-put_deployment d app ds, e, h), refl)
]

saved-Carries :
    (v w : World) (d : DeploymentRecord) (r : Result (Unit {0})) (u : World)
    → Unchanged v w
    → Leaving w r u (λ _. Option.map (put_deployment d) (view w.store_file))
    → (a : Unit {0}) → r ≡ ok a
    → Carries v u
saved-Carries v w d (ok _) u k l a e = record {
  at = λ app x h.
      let (y, f, g) =
        put_deployment-Carries d (view w.store_file) app x
          (ap (λ (o : Option (List DeploymentRecord)). found_among o app) k.stored ∙ h) in
      (y, ap (λ (o : Option (List DeploymentRecord)). found_among o app) l.deployments ∙ f, g);
}
saved-Carries v w d (err x) u k l a e = cc

pub save-Carries :
    (v : World) (d : DeploymentRecord) (w : World)
    → Unchanged v w
    → Returns (λ _. Carries v) (Store.save d) w
save-Carries v d w k =
    Returns-of _ (Store.save d) w
      (saved-Carries v w d (Store.save d w).0 (Store.save d w).1 k (save-Leaves d w))

-- The file of `w` holds the record for its application, where it had a record in `v` with the visibility of that one,
-- and Caddy serves the routes of the deployments in the file.
pub record Attached (v : World) (d : DeploymentRecord) (w : World) : Type 0 where
  pub records : List DeploymentRecord
  pub stored : view w.store_file ≡ some records
  pub visible : Bool
  pub found : find_deployment d.app records ≡ some (record d { guest_visible = visible })
  pub kept : (x : DeploymentRecord) → stored_record v d.app ≡ some x → visible ≡ x.guest_visible
  pub served : route_files_of w.host.lower_beyond records ≡ ok w.live

pub Settled-Attached :
    (v u : World) (d : DeploymentRecord) (w : World) → Carries v u → Settled u d w → Attached v d w
Settled-Attached v u d w c s = record {
  records = s.records;
  stored = s.stored;
  visible = kept_visibility d (stored_record u d.app);
  found = s.found;
  kept = λ x h.
      let (y, f, g) = c.at d.app x h in
      ap (λ (o : Option DeploymentRecord). kept_visibility d o) f ∙ g;
  served = s.served;
}
