-- ===== src/Store/Refinement.antt =====
-- JSONStore of app/store.go implements a map from applications to records: a sequence of its operations, each of
-- which may fail, leaves the file with the map that the same operations make of an abstract one.
use mini_deploy.Prelude.{
  ◌≡◌, ap, ◌∙◌, Bool, Option, none, some, List, [], ◌∷◌, keep_if, not, fun_ext, if◌then◌else◌,
}
use mathlib.Core.Option
use mini_deploy.Text.{Text, ◌==◌}
use mini_deploy.Records.{DeploymentRecord}
use mini_deploy.Result.{Result, ok, err}
use mini_deploy.World.{World, Io}
use mini_deploy.Store
use mini_deploy.Store.{put_deployment, find_deployment, set_visible}
use mini_deploy.Store.Laws.{find-delete, find-put_deployment, find-set_visible, kept_visibility}
use mini_deploy.Store.Effects.{
  Leaving, view, delete-Leaves, save-Leaves, update_guest_visibility-Leaves,
}

-- The operations that change the store.
pub data Command : Type 0 where
  save : DeploymentRecord → Command
  show : Text → Bool → Command
  delete : Text → Command

abbrev unit_of {ℓ} : {A : Type ℓ} → Result A × World → Result (Unit {0}) × World
unit_of (ok a, w) = (ok tt, w)
unit_of (err e, w) = (err e, w)

unfoldable pub execute : Command → Io (Unit {0})
execute (save d) w = Store.save d w
execute (show app visible) w = unit_of (Store.update_guest_visibility app visible w)
execute (delete app) w = Store.delete app w

-- The world behind a sequence of operations: an error is reported, and the next operation runs.
unfoldable pub execute_all : List Command → World → World
execute_all [] w = w
execute_all (c ∷ cs) w = execute_all cs (execute c w).1

-- The abstract store.
abbrev pub Directory : Type 0
Directory = Text → Option DeploymentRecord

abbrev pub directory_of : List DeploymentRecord → Directory
directory_of ds app = find_deployment app ds

-- A new record takes the visibility of the one before.
abbrev pub perform : Command → Directory → Directory
perform (save d) m app =
    if d.app == app then some (record d { guest_visible = kept_visibility d (m d.app) }) else m app
perform (show other visible) m app =
    if other == app
    then elim (m other) [ none ↦ none | some x ↦ some (record x { guest_visible = visible }) ]
    else m app
perform (delete other) m app = if other == app then none else m app

-- An operation that fails does nothing.
abbrev pub perform_if : Result (Unit {0}) → Command → Directory → Directory
perform_if (ok a) c m = perform c m
perform_if (err e) c m = m

unfoldable pub perform_all : List Command → World → Directory → Directory
perform_all [] w m = m
perform_all (c ∷ cs) w m = perform_all cs (execute c w).1 (perform_if (execute c w).0 c m)

-- The file holds a list of deployments with that directory.
pub record Holds (m : Directory) (w : World) : Type 0 where
  pub records : List DeploymentRecord
  pub parsed : view w.store_file ≡ some records
  pub same : directory_of records ≡ m

abbrev list_after : Command → List DeploymentRecord → List DeploymentRecord
list_after (save d) ds = put_deployment d ds
list_after (show app visible) ds = set_visible app visible ds
list_after (delete app) ds = keep_if (λ d. not (d.app == app)) ds

-- One operation, from a list to its directory.
perform-list_after :
    (c : Command) (ds : List DeploymentRecord) (app : Text)
    → find_deployment app (list_after c ds) ≡ perform c (directory_of ds) app
perform-list_after (save d) ds app = find-put_deployment d app ds
perform-list_after (show other visible) ds app = find-set_visible other app visible ds
perform-list_after (delete other) ds app = find-delete other app ds

unit_of-Leaves :
    (after : Option (List DeploymentRecord)) (w : World) (r : Result DeploymentRecord) (w' : World)
    → Leaving w r w' (λ _. after)
    → Leaving w (unit_of (r, w')).0 (unit_of (r, w')).1 (λ _. after)
unit_of-Leaves after w (ok d) w' l = l
unit_of-Leaves after w (err e) w' l = l

execute-Leaves :
    (c : Command) (w : World)
    → Leaving w (execute c w).0 (execute c w).1 (λ _. Option.map (list_after c) (view w.store_file))
unfolding execute
execute-Leaves (save d) w = save-Leaves d w
execute-Leaves (show app visible) w =
    unit_of-Leaves _ w (Store.update_guest_visibility app visible w).0 _
      (update_guest_visibility-Leaves app visible w)
execute-Leaves (delete app) w = delete-Leaves app w

step-Holds :
    (c : Command) (m : Directory) (w : World) (r : Result (Unit {0})) (w' : World)
    → Leaving w r w' (λ _. Option.map (list_after c) (view w.store_file))
    → Holds m w
    → Holds (perform_if r c m) w'
step-Holds c m w (ok a) w' l h = record {
  records = list_after c h.records;
  parsed = l.deployments ∙ ap (Option.map (list_after c)) h.parsed;
  same = fun_ext (perform-list_after c h.records) ∙ ap (perform c) h.same;
}
step-Holds c m w (err e) w' l h = record {
  records = h.records;
  parsed = l.deployments ∙ h.parsed;
  same = h.same;
}

-- A file that holds the directory of an abstract store holds, behind any sequence of Save, UpdateGuestVisibility and
-- Delete, the directory that the abstract store has behind the operations of the sequence that returned
-- without an error, whatever the host answers.
pub execute_all-Holds :
    (cs : List Command) (m : Directory) (w : World)
    → Holds m w
    → Holds (perform_all cs w m) (execute_all cs w)
unfolding execute_all perform_all
execute_all-Holds [] m w h = h
execute_all-Holds (c ∷ cs) m w h =
    execute_all-Holds cs (perform_if (execute c w).0 c m) (execute c w).1
      (step-Holds c m w (execute c w).0 (execute c w).1 (execute-Leaves c w) h)
