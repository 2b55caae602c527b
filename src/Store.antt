-- ===== src/Store.antt =====
-- app/store.go: the deployments of JSONStore. A method holds the store's mutex from its load to its
-- write, so it is one action.
pub mod Refinement
pub mod Laws
pub mod Effects
pub mod Contract
use mini_deploy.Prelude.{
  Bool, true, false, ◌&&◌, not, Option, none, some, List, [], ◌∷◌, map, every, any, keep_if,
  if◌then◌else◌,
}
use mini_deploy.Text.{Text, ◌==◌}
use mini_deploy.Records.{DeploymentRecord}
use mini_deploy.Result.{Error, deployment_not_found, read_store, parse_store, write_store}
use mini_deploy.RepositoryUrl.{validate_repository_url}
use mini_deploy.World.{
  World, Io, StoreFile, absent, blank, malformed, entries, StoredRecord, File.deployments_json,
  Event.read_file, run, pure, fail, lift, gets, replace_file, ◌>>=◌, ◌>>◌,
}

-- What json.Marshal makes of a record: its visibility is always written.
abbrev pub stored : DeploymentRecord → StoredRecord
stored d = record { deployment = d; visible = some d.guest_visible }

abbrev pub visible_or_listed : Option Bool → Bool
visible_or_listed none = true
visible_or_listed (some v) = v

-- A record from before Guest View was listed publicly, and stays so.
abbrev pub restored : StoredRecord → DeploymentRecord
restored e = record (e.deployment) { guest_visible = visible_or_listed e.visible }

abbrev is_stated : StoredRecord → Bool
is_stated e = elim (e.visible) [ none ↦ false | some _ ↦ true ]

unfoldable pub write : List DeploymentRecord → Io (Unit {0})
write deployments =
    replace_file deployments_json write_store
      (λ w. record w { store_file = entries (map stored deployments) })

-- The deployments of a file that was read.
unfoldable pub load_file : StoreFile → Io (List DeploymentRecord)
load_file absent = pure []
load_file blank = pure []
load_file malformed = fail parse_store
load_file (entries es) =
    let deployments = map restored es in
    if every is_stated es then pure deployments else write deployments >> pure deployments

unfoldable pub load : Io (List DeploymentRecord)
load = do
  run (read_file deployments_json) read_store
  file ← gets (λ w. w.store_file)
  load_file file

-- The loop of Save: an existing record keeps its place and its visibility.
unfoldable pub put_deployment : DeploymentRecord → List DeploymentRecord → List DeploymentRecord
put_deployment d [] = d ∷ []
put_deployment d (x ∷ xs) =
    let rest = x ∷ put_deployment d xs in
    if x.app == d.app then record d { guest_visible = x.guest_visible } ∷ xs else rest

unfoldable pub save : DeploymentRecord → Io (Unit {0})
save d = do
  parse ← gets (λ w. w.host.parse_url)
  lift (validate_repository_url parse d.repo_url)
  deployments ← load
  write (put_deployment d deployments)

unfoldable pub find_deployment : Text → List DeploymentRecord → Option DeploymentRecord
find_deployment app [] = none
find_deployment app (x ∷ xs) = if x.app == app then some x else find_deployment app xs

-- The list with the first record of `app` made visible or hidden.
unfoldable pub set_visible : Text → Bool → List DeploymentRecord → List DeploymentRecord
set_visible app visible [] = []
set_visible app visible (x ∷ xs) =
    let rest = x ∷ set_visible app visible xs in
    if x.app == app then record x { guest_visible = visible } ∷ xs else rest

abbrev pub or_not_found : Option DeploymentRecord → Io DeploymentRecord
or_not_found none = fail deployment_not_found
or_not_found (some d) = pure d

unfoldable pub update_guest_visibility : Text → Bool → Io DeploymentRecord
update_guest_visibility app visible = do
  deployments ← load
  found ← or_not_found (find_deployment app deployments)
  write (set_visible app visible deployments)
  pure (record found { guest_visible = visible })

unfoldable pub get : Text → Io DeploymentRecord
get app = do deployments ← load; or_not_found (find_deployment app deployments)

unfoldable pub list : Io (List DeploymentRecord)
list = load

unfoldable pub delete : Text → Io (Unit {0})
delete app = do
  deployments ← load
  or_not_found (find_deployment app deployments)
  write (keep_if (λ d. not (d.app == app)) deployments)
