-- ===== src/History/Effects.antt =====
-- What the methods of JSONHistoryStore do to the history, on success and on every failure.
use mathlib.Core.Path.{subst}
use mini_deploy.Prelude.{
  ℕ, ◌≡◌, refl, not, Option, none, some, List, [], ◌∷◌, keep_if, take, drop, arith,
}
use mini_deploy.Text.{Text, ◌==◌}
use mini_deploy.Records.{DeploymentRecord, DeploymentVersion}
use mini_deploy.Result.{Result, ok, err, read_history}
use mini_deploy.World.{
  World, History, HistoryFile, absent, blank, malformed, contents, continue, File.history_json,
  Event.read_file, answered, io, record_event, pure, lift, gets, ◌>>=◌, ◌>>◌,
}
use mini_deploy.RepositoryUrl.{validate_repository_url}
use mini_deploy.World.Spec.{Outcome, Runs}
use mini_deploy.History.{
  load_history, read, write, list, pushed, push, set, deployment_version, lookup_versions,
  put_versions, max_previous, validate_versions,
}

-- The history that a file stands for; none if it does not parse.
unfoldable pub view : HistoryFile → Option History
view absent = some []
view blank = some []
view malformed = none
view (contents h) = some h

-- All but the trace and the history is as it was.
pub record Rest (v w : World) : Type 0 where
  pub host : w.host ≡ v.host
  pub store_file : w.store_file ≡ v.store_file
  pub secrets : w.secrets ≡ v.secrets
  pub route_files : w.route_files ≡ v.route_files
  pub live : w.live ≡ v.live

-- From `w` to `w'` only the trace changed and the history, which is `h` now.
pub record Leaves (w : World) (h : Option History) (w' : World) : Type 0 where
  pub history : view w'.history_file ≡ h
  pub rest : Rest w w'

-- A write puts the history in place, or fails and leaves the old one.
pub write-Leaves :
    (h : History) (w : World)
    → Outcome (λ _. Leaves w (some h)) (Leaves w (view w.history_file)) (write h w).0 (write h w).1
unfolding write view io
write-Leaves h w = ground arith

abbrev Loaded : World → Result History → World → Type 0
Loaded w (ok h) w' = (view w.history_file ≡ some h) × Leaves w (some h) w'
Loaded w (err e) w' = Leaves w (view w.history_file) w'

load_history-Loaded :
    (file : HistoryFile) (w : World)
    → w.history_file ≡ file
    → Loaded w (load_history file w).0 (load_history file w).1
unfolding load_history view io
load_history-Loaded absent w e = ground arith
load_history-Loaded blank w e = ground arith
load_history-Loaded malformed w e = ground arith
load_history-Loaded (contents h) w e = ground arith

read-Loaded : (w : World) → Loaded w (read w).0 (read w).1
unfolding read io
read-Loaded w =
    ground
      (arith, load_history-Loaded w.history_file (record_event (read_file history_json) w) refl)

-- List answers with the versions of the application, and changes nothing but the trace.
pub list-Leaves :
    (app : Text) (w : World)
    → Outcome
        (λ vs w'.
          Leaves w (view w.history_file) w'
          × ((h : History) × (view w.history_file ≡ some h) × (vs ≡ lookup_versions app h)))
        (Leaves w (view w.history_file))
        (list app w).0
        (list app w).1
unfolding list io
list-Leaves app w = go (read w).0 (read w).1 (read-Loaded w)
  where
    go :
        (r : Result History) (w1 : World)
        → Loaded w r w1
        → let (r', w') = continue r (λ h. pure (lookup_versions app h)) w1 in
          Outcome
            (λ vs w2.
              Leaves w (view w.history_file) w2
              × ((h : History) × (view w.history_file ≡ some h) × (vs ≡ lookup_versions app h)))
            (Leaves w (view w.history_file))
            r'
            w'
    go (ok h) w1 l = (ground arith, (h, l.0, refl))
    go (err e) w1 l = l

-- `Replaced w app vs pruned w'`: the versions of `app` are now the first three of `vs`, the others
-- were returned, and no other application's versions changed.
pub record Replaced (w : World) (app : Text) (vs : History → List DeploymentVersion)
    (pruned : List DeploymentVersion) (w' : World) : Type 0 where
  pub before : History
  pub parsed : view w.history_file ≡ some before
  pub left : Leaves w (some (put_versions app (take max_previous (vs before)) before)) w'
  pub returned : pruned ≡ drop max_previous (vs before)

replace_after :
    (app : Text) (vs : History → List DeploymentVersion) (w w1 : World) (h : History)
    → Loaded w (ok h) w1
    → let (r', w') =
        (write (put_versions app (take max_previous (vs h)) h) >> pure (drop max_previous (vs h)))
          w1 in
      Outcome (Replaced w app vs) (Leaves w (view w.history_file)) r' w'
unfolding ◌>>=◌ pure io
replace_after app vs w w1 h l = go (write next w1).0 (write next w1).1 (write-Leaves next w1)
  where
    next : History
    next = put_versions app (take max_previous (vs h)) h

    go :
        (r : Result (Unit {0})) (w2 : World)
        → Outcome (λ _. Leaves w1 (some next)) (Leaves w1 (view w1.history_file)) r w2
        → let (r', w') = continue r (λ _. pure (drop max_previous (vs h))) w2 in
          Outcome (Replaced w app vs) (Leaves w (view w.history_file)) r' w'
    go (ok u) w2 k = record { before = h; parsed = l.0; left = ground arith; returned = refl }
    go (err e) w2 k = ground arith

-- A load, and then the replacement of the versions of one application.
rewritten_after_read :
    (app : Text) (vs : World → History → List DeploymentVersion) (w : World)
    → Runs
        (λ pruned w'. Replaced w app (vs (read w).1) pruned w')
        (Leaves w (view w.history_file))
        (read >>= λ h v.
          (write (put_versions app (take max_previous (vs v h)) h)
              >> pure (drop max_previous (vs v h)))
            v)
        w
unfolding ◌>>=◌ io
rewritten_after_read app vs w = go (read w).0 (read w).1 (read-Loaded w)
  where
    go :
        (r : Result History) (w1 : World)
        → Loaded w r w1
        → let (r', w') =
            continue r
              (λ h v.
                (write (put_versions app (take max_previous (vs v h)) h)
                    >> pure (drop max_previous (vs v h)))
                  v)
              w1 in
          Outcome
            (λ pruned w2. Replaced w app (vs w1) pruned w2)
            (Leaves w (view w.history_file))
            r'
            w'
    go (ok h) w1 l = replace_after app (vs w1) w w1 h l
    go (err e) w1 l = l

-- Set either fails and leaves the history, or keeps the first three of the given versions for the
-- application and returns the others; no other application's versions change, and beside the history
-- only the trace does.
pub set-Replaced :
    (app : Text) (versions : List DeploymentVersion) (w : World)
    → Runs (Replaced w app (λ _. versions)) (Leaves w (view w.history_file)) (set app versions) w
unfolding set io
set-Replaced app versions w = go (validate_versions w.host.parse_url versions)
  where
    go :
        (r : Result (Unit {0}))
        → Runs
            (Replaced w app (λ _. versions))
            (Leaves w (view w.history_file))
            (lift r
              >> (read >>= λ h.
                  write (put_versions app (take max_previous versions) h)
                  >> pure (drop max_previous versions)))
            w
    go (ok u) = rewritten_after_read app (λ _ _. versions) w
    go (err e) = ground arith

-- A read is one event.
load_history-now :
    (file : HistoryFile) (w : World)
    → (load_history file w).1.host.now (load_history file w).1.trace ≡ w.host.now w.trace
unfolding load_history io
load_history-now absent w = refl
load_history-now blank w = refl
load_history-now malformed w = refl
load_history-now (contents h) w = refl

answered-now :
    (o : Option Text) (w : World)
    → let v = (continue (answered o read_history) (λ _ u. load_history u.history_file u) w).1 in
      v.host.now v.trace ≡ w.host.now w.trace
answered-now none w = refl
answered-now (some t) w = load_history-now w.history_file w

-- The time behind a read of the history.
abbrev pub time_of_push : World → ℕ
time_of_push w = w.host.now (read_file history_json ∷ w.trace)

read-now : (w : World) → (read w).1.host.now (read w).1.trace ≡ time_of_push w
unfolding read io
read-now w =
    answered-now (w.host.answer w.trace (read_file history_json))
      (record_event (read_file history_json) w)

-- The record as a version of the time, before the older versions of other images.
abbrev pub with_version : ℕ → DeploymentRecord → List DeploymentVersion → List DeploymentVersion
with_version now r older = deployment_version now r ∷ keep_if (λ v. not (v.image == r.image)) older

-- Push either fails and leaves the history, or puts the record, as a version of the time behind the read of the
-- history, before those older versions of the application that are of another image; it keeps the first three
-- of these and returns the others. No other application's versions change, and beside the history only the
-- trace does.
pub push-Replaced :
    (r : DeploymentRecord) (w : World)
    → Runs
        (Replaced w r.app λ h. with_version (time_of_push w) r (lookup_versions r.app h))
        (Leaves w (view w.history_file))
        (push r)
        w
unfolding push pushed io
push-Replaced r w = go (validate_repository_url w.host.parse_url r.repo_url)
  where
    replaced :
        Runs
          (Replaced w r.app λ h. with_version (time_of_push w) r (lookup_versions r.app h))
          (Leaves w (view w.history_file))
          (read >>= λ h. gets (λ v. v.host.now v.trace) >>= λ now.
            write (
              put_versions r.app
                (take max_previous (with_version now r (lookup_versions r.app h)))
                h)
            >> pure (drop max_previous (with_version now r (lookup_versions r.app h))))
          w
    replaced =
        subst
          (λ (now : ℕ).
            Runs (Replaced w r.app λ h. with_version now r (lookup_versions r.app h))
              (Leaves w (view w.history_file))
              (read >>= λ h v.
                (write (
                      put_versions r.app
                        (take max_previous
                          (with_version (v.host.now v.trace) r (lookup_versions r.app h)))
                        h)
                    >> pure (
                        drop max_previous
                          (with_version (v.host.now v.trace) r (lookup_versions r.app h))))
                  v)
              w)
          (read-now w)
          (rewritten_after_read r.app
            (λ v h. with_version (v.host.now v.trace) r (lookup_versions r.app h)) w)

    go :
        (u : Result (Unit {0}))
        → Runs
            (Replaced w r.app λ h. with_version (time_of_push w) r (lookup_versions r.app h))
            (Leaves w (view w.history_file))
            (lift u
              >> (read >>= λ h. gets (λ v. v.host.now v.trace) >>= λ now.
                  write (
                    put_versions r.app
                      (take max_previous (with_version now r (lookup_versions r.app h)))
                      h)
                  >> pure (drop max_previous (with_version now r (lookup_versions r.app h)))))
            w
    go (ok u) = replaced
    go (err e) = ground arith
