-- ===== src/Store/Effects.antt =====
-- What the methods of JSONStore do to the file, on success and on every failure.
use mathlib.Core.Option
use mini_deploy.Prelude.{◌≡◌, refl, Bool, not, Option, none, some, List, [], map, arith, keep_if}
use mini_deploy.Text.{Text, ◌==◌}
use mini_deploy.Records.{DeploymentRecord}
use mini_deploy.Result.{Result, ok, err}
use mini_deploy.World.{
  World, continue, StoreFile, absent, blank, malformed, entries, io, ◌>>=◌, ◌>>◌, record_event,
  Event.read_file, File.deployments_json, pure,
}
use mini_deploy.Store.{
  restored, write, load_file, load, put_deployment, save, find_deployment, or_not_found,
  set_visible, update_guest_visibility, get, delete,
}
use mini_deploy.Store.Laws.{map-restored-stored}

-- The deployments that a file stands for; none if it does not parse.
unfoldable pub view : StoreFile → Option (List DeploymentRecord)
view absent = some []
view blank = some []
view malformed = none
view (entries es) = some (map restored es)

-- All but the trace and the deployments is as it was.
pub record Rest (v w : World) : Type 0 where
  pub host : w.host ≡ v.host
  pub history_file : w.history_file ≡ v.history_file
  pub secrets : w.secrets ≡ v.secrets
  pub route_files : w.route_files ≡ v.route_files
  pub live : w.live ≡ v.live

-- `Leaves w ds w'`: from `w` to `w'` only the trace changed and the deployments, which are `ds` now.
pub record Leaves (w : World) (ds : Option (List DeploymentRecord)) (w' : World) : Type 0 where
  pub deployments : view w'.store_file ≡ ds
  pub rest : Rest w w'

-- An action that fails leaves the deployments as they were.
abbrev pub Leaving {ℓ} :
    {A : Type ℓ} → World → Result A → World → (A → Option (List DeploymentRecord)) → Type 0
Leaving w (ok a) w' after = Leaves w (after a) w'
Leaving w (err e) w' after = Leaves w (view w.store_file) w'

pub write-Leaves :
    (ds : List DeploymentRecord) (w : World)
    → Leaving w (write ds w).0 (write ds w).1 (λ _. some ds)
unfolding write view io
write-Leaves ds w = ground (arith, map-restored-stored ds)

-- A load that succeeds returns the deployments of the file, and keeps them: if it writes the file, to
-- state each visibility, then with the same deployments.
abbrev pub Loaded : World → Result (List DeploymentRecord) → World → Type 0
Loaded w (ok ds) w' = (view w.store_file ≡ some ds) × Leaves w (some ds) w'
Loaded w (err e) w' = Leaves w (view w.store_file) w'

load_file-Loaded :
    (file : StoreFile) (w : World)
    → w.store_file ≡ file
    → Loaded w (load_file file w).0 (load_file file w).1
unfolding load_file view io
load_file-Loaded absent w h = ground arith
load_file-Loaded blank w h = ground arith
load_file-Loaded malformed w h = ground arith
load_file-Loaded (entries es) w h = ground (arith, write-Leaves (map restored es) w)

pub load-Loaded : (w : World) → Loaded w (load w).0 (load w).1
unfolding load io
load-Loaded w =
    ground (arith, load_file-Loaded w.store_file (record_event (read_file deployments_json) w) refl)

-- The second half of a method that writes what it makes of the deployments.
rewrite_after :
    (f : List DeploymentRecord → List DeploymentRecord) (w : World)
    (r : Result (List DeploymentRecord)) (w1 : World)
    → Loaded w r w1
    → let (r', w') = continue r (λ ds. write (f ds)) w1 in
      Leaving w r' w' (λ _. Option.map f (view w.store_file))
rewrite_after f w (ok ds) w1 h = ground (arith, write-Leaves (f ds) w1)
rewrite_after f w (err e) w1 h = h

-- Where Save returns without an error, the file now stands for what it stood for with the record put in; where it
-- fails, the deployments are as they were. Beside them only the trace changes.
pub save-Leaves :
    (d : DeploymentRecord) (w : World)
    → Leaving w (save d w).0 (save d w).1 (λ _. Option.map (put_deployment d) (view w.store_file))
unfolding save io
save-Leaves d w =
    ground (arith, rewrite_after (put_deployment d) w (load w).0 (load w).1 (load-Loaded w))

found_of_ok :
    (o : Option DeploymentRecord) (w : World) {d : DeploymentRecord}
    → (or_not_found o w).0 ≡ ok d
    → o ≡ some d
unfolding get io
found_of_ok none w h = ground arith
found_of_ok (some x) w h = ground arith

-- Get changes nothing but the trace, and a record that it returns is the one that the deployments of the
-- file hold for the application.
pub get-Leaves :
    (app : Text) (w : World)
    → Leaving w (get app w).0 (get app w).1 (λ _. view w.store_file)
      × ((d : DeploymentRecord)
          → (get app w).0 ≡ ok d
          → (ds : List DeploymentRecord) × (view w.store_file ≡ some ds)
            × (find_deployment app ds ≡ some d))
unfolding get io
get-Leaves app w = go (load w).0 (load w).1 (load-Loaded w)
  where
    go :
        (r : Result (List DeploymentRecord)) (w1 : World)
        → Loaded w r w1
        → let (r', w') = continue r (λ ds. or_not_found (find_deployment app ds)) w1 in
          Leaving w r' w' (λ _. view w.store_file)
          × ((d : DeploymentRecord)
              → r' ≡ ok d
              → (ds : List DeploymentRecord) × (view w.store_file ≡ some ds)
                × (find_deployment app ds ≡ some d))
    go (ok ds) w1 h = (ground arith, λ d e. (ds, h.0, found_of_ok (find_deployment app ds) w1 e))
    go (err e) w1 h = (h, λ d k. cc)

-- Where UpdateGuestVisibility returns without an error, the file now stands for its deployments with the
-- visibility set; where it fails, they are as they were. Beside them only the trace changes.
pub update_guest_visibility-Leaves :
    (app : Text) (visible : Bool) (w : World)
    → Leaving w
        (update_guest_visibility app visible w).0
        (update_guest_visibility app visible w).1
        (λ _. Option.map (set_visible app visible) (view w.store_file))
unfolding update_guest_visibility io
update_guest_visibility-Leaves app visible w = go (load w).0 (load w).1 (load-Loaded w)
  where
    go :
        (r : Result (List DeploymentRecord)) (w1 : World)
        → Loaded w r w1
        → let (r', w') =
            continue r
              (λ ds. or_not_found (find_deployment app ds) >>= λ found.
                write (set_visible app visible ds)
                >> pure (record found { guest_visible = visible }))
              w1 in
          Leaving w r' w' (λ _. Option.map (set_visible app visible) (view w.store_file))
    go (ok ds) w1 h = ground (arith, write-Leaves (set_visible app visible ds) w1)
    go (err e) w1 h = h

-- Where Delete returns without an error, the file now stands for its deployments without those of the
-- application; where it fails, they are as they were. Beside them only the trace changes.
pub delete-Leaves :
    (app : Text) (w : World)
    → Leaving w
        (delete app w).0
        (delete app w).1
        (λ _. Option.map (keep_if (λ d. not (d.app == app))) (view w.store_file))
unfolding delete io
delete-Leaves app w = go (load w).0 (load w).1 (load-Loaded w)
  where
    go :
        (r : Result (List DeploymentRecord)) (w1 : World)
        → Loaded w r w1
        → let (r', w') =
            continue r
              (λ ds.
                or_not_found (find_deployment app ds)
                >> write (keep_if (λ d. not (d.app == app)) ds))
              w1 in
          Leaving w r' w' (λ _. Option.map (keep_if (λ d. not (d.app == app))) (view w.store_file))
    go (ok ds) w1 h = ground (arith, write-Leaves (keep_if (λ d. not (d.app == app)) ds) w1)
    go (err e) w1 h = h
