-- ===== src/Store/Laws.antt =====
-- The deployments as a map from application names: what Save, UpdateGuestVisibility and Delete do
-- to the record that Get returns.
use mini_deploy.Prelude.{
  ◌≡◌, refl, ap, Bool, true, false, ◌&&◌, not, Option, none, some, List, [], ◌∷◌, map, any, keep_if,
  arith, if◌then◌else◌,
}
use mini_deploy.Text.{Text, ◌==◌, eq_iff, eq_refl}
use mini_deploy.Records.{DeploymentRecord}
use mini_deploy.Store.{stored, restored, put_deployment, find_deployment, set_visible}

-- What was written is read back.
pub map-restored-stored : (ds : List DeploymentRecord) → map restored (map stored ds) ≡ ds
map-restored-stored [] = refl
map-restored-stored (d ∷ ds) = ap (λ r. d ∷ r) (map-restored-stored ds)

-- The visibility that a record has once it is saved: that of the record it replaces.
abbrev pub kept_visibility : DeploymentRecord → Option DeploymentRecord → Bool
kept_visibility d none = d.guest_visible
kept_visibility d (some x) = x.guest_visible

module _ (d : DeploymentRecord) where
  -- After a record is put into the list, its application is found with that record under the visibility
  -- of the one it replaces, if there was one, and every other application with what it had.
  pub find-put_deployment :
      (app : Text) (xs : List DeploymentRecord)
      → find_deployment app (put_deployment d xs) ≡ (
          if d.app == app
          then some (record d { guest_visible = kept_visibility d (find_deployment d.app xs) })
          else find_deployment app xs)
  unfolding find_deployment put_deployment
  find-put_deployment app [] = refl
  find-put_deployment app (x ∷ xs) =
      ground
        (arith, eq_iff x.app d.app, eq_iff d.app app, eq_iff x.app app, find-put_deployment app xs)

  -- Putting a record in and then the one that it replaced gives back the list, in its order, where both
  -- are of one application and the latter is the one found under it.
  pub put_deployment_undo :
      (new : DeploymentRecord) (xs : List DeploymentRecord)
      → new.app ≡ d.app
      → find_deployment d.app xs ≡ some d
      → put_deployment d (put_deployment new xs) ≡ xs
  unfolding find_deployment put_deployment
  put_deployment_undo new [] h k = ground arith
  put_deployment_undo new (x ∷ xs) h k =
      ground (arith, eq_iff x.app d.app, eq_refl d.app, put_deployment_undo new xs h)

-- After a change of visibility the application is found with its record and that visibility, if it has
-- a record, and every other application with what it had.
pub find-set_visible :
    (app other : Text) (visible : Bool) (xs : List DeploymentRecord)
    → find_deployment other (set_visible app visible xs) ≡ (
        if app == other
        then elim (find_deployment app xs) [
          | none ↦ none
          | some x ↦ some (record x { guest_visible = visible })
        ]
        else find_deployment other xs)
unfolding find_deployment set_visible
find-set_visible app other visible [] = ground arith
find-set_visible app other visible (x ∷ xs) = ground (
  arith,
  eq_iff x.app app,
  eq_iff app other,
  eq_iff x.app other,
  find-set_visible app other visible xs,
)

-- No application has two records.
abbrev pub has_app : Text → List DeploymentRecord → Bool
has_app app xs = any (λ (d : DeploymentRecord). d.app == app) xs

abbrev pub is_distinct : List DeploymentRecord → Bool
is_distinct [] = true
is_distinct (d ∷ ds) = not (has_app d.app ds) && is_distinct ds

has_app-put_deployment :
    (app : Text) (d : DeploymentRecord) (xs : List DeploymentRecord)
    → has_app app xs ≡ false
    → (d.app == app) ≡ false
    → has_app app (put_deployment d xs) ≡ false
unfolding put_deployment
has_app-put_deployment app d [] h k = ground arith
has_app-put_deployment app d (x ∷ xs) h k = ground (arith, has_app-put_deployment app d xs)

pub put_deployment-distinct :
    (d : DeploymentRecord) (xs : List DeploymentRecord)
    → is_distinct xs ≡ true
    → is_distinct (put_deployment d xs) ≡ true
unfolding put_deployment
put_deployment-distinct d [] h = refl
put_deployment-distinct d (x ∷ xs) h = ground (
  arith,
  put_deployment-distinct d xs,
  has_app-put_deployment x.app d xs,
  eq_iff x.app d.app,
  eq_iff d.app x.app,
)

-- Deleting an application leaves no record of it, and every other record.
pub find-delete :
    (app other : Text) (xs : List DeploymentRecord)
    → find_deployment other (keep_if (λ d. not (d.app == app)) xs)
      ≡ (if app == other then none else find_deployment other xs)
unfolding find_deployment
find-delete app other [] = ground arith
find-delete app other (x ∷ xs) =
    ground (arith, eq_iff x.app app, eq_iff app other, eq_iff x.app other, find-delete app other xs)
