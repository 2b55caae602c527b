-- ===== src/Environment.antt =====
-- app/runtime_environment.go: the runtime environment of an application, its file, and the change of
-- it that a deployment commits or rolls back.
pub mod Format
pub mod Laws
use mini_deploy.Prelude.{
  ◌≡◌, Bool, true, false, ◌&&◌, ◌||◌, not, Option, none, some, List, [], ◌∷◌, ◌++◌, map,
  if◌then◌else◌,
}
use mini_deploy.Text.{Text, codes, ◌==◌}
use mini_deploy.Records.{DeploymentRecord}
use mini_deploy.Result.{
  Result, ok, err, invalid_environment, environment_mismatch, read_environment, replace_environment,
}
use mini_deploy.Names.{normalize_runtime_environment_names}
use mini_deploy.Path.{FilePath, validate_application_name, after_name, strict_child_path, join}
use mini_deploy.World.{
  World, Io, Environment, Event.read_secrets, Event.check_secrets, Event.remove_secrets,
  Event.replace_secrets, Event, run, pure, fail, lift, gets, modify, ◌>>=◌, ◌>>◌,
}
use Format.{
  validate_runtime_environment, runtime_environment_names, parse_runtime_environment,
  encode_runtime_environment,
}

unfoldable pub same_names : List Text → List Text → Bool
unfolding ◌==◌
same_names [] [] = true
same_names [] (y ∷ ys) = false
same_names (x ∷ xs) [] = false
same_names (x ∷ xs) (y ∷ ys) = x == y && same_names xs ys

-- The names of the record are those of the environment.
unfoldable pub verify_runtime_environment_metadata :
    DeploymentRecord → Environment → Result (Unit {0})
unfolding same_names
verify_runtime_environment_metadata r values =
    if same_names (normalize_runtime_environment_names r.environment_variables)
      (runtime_environment_names values)
    then ok tt
    else err environment_mismatch

abbrev pub runtime_secrets_directory : Text
runtime_secrets_directory = codes "/srv/minideploy/data/secrets"

unfoldable pub path : Text → Result FilePath
path app = after_name (validate_application_name app) (
    strict_child_path runtime_secrets_directory
      (join runtime_secrets_directory (app ++ codes ".env")))

-- The values of a file that was read: a missing file is no value.
unfoldable pub load_data : Text → Option Text → Io Environment
load_data app none = pure []
load_data app (some bytes) = do
  run (check_secrets app) read_environment
  lift (parse_runtime_environment bytes)

unfoldable pub load : Text → Io Environment
load app = do
  lift (path app)
  run (read_secrets app) read_environment
  found ← gets (λ w. w.secrets app)
  load_data app found

unfoldable pub put_secret : Text → Option Text → World → World
put_secret app content w = record w {
  secrets = λ other. if app == other then content else w.secrets other;
}

abbrev pub content_of : Environment → Option Text
content_of [] = none
content_of (v ∷ vs) = some (encode_runtime_environment (v ∷ vs))

abbrev pub replace_event : Text → Environment → Event
replace_event app [] = remove_secrets app
replace_event app (v ∷ vs) = replace_secrets app

-- The event `replace_secrets` is all that Replace does before the rename and the rename itself: only
-- the rename changes the file.
unfoldable pub replace : Text → Environment → Io (Unit {0})
unfolding put_secret
replace app values = do
  lift (validate_runtime_environment values)
  lift (path app)
  run (replace_event app values) replace_environment
  modify (put_secret app (content_of values))

unfoldable pub delete : Text → Io (Unit {0})
unfolding put_secret
delete app = do
  lift (path app)
  run (remove_secrets app) replace_environment
  modify (put_secret app none)

pub record RuntimeEnvironmentChange : Type 0 where
  pub app : Text
  pub previous : Environment
  pub effective : Environment
  pub replaces : Bool
  pub committed : Bool

unfoldable pub prepare_runtime_environment_change :
    Text → Environment → Bool → Io RuntimeEnvironmentChange
prepare_runtime_environment_change app replacement replaces = do
  previous ← load app
  lift (if replaces then validate_runtime_environment replacement else ok tt)
  pure (record {
    app = app;
    previous = previous;
    effective = if replaces then replacement else previous;
    replaces = replaces;
    committed = false;
  })

unfoldable pub commit : RuntimeEnvironmentChange → Io RuntimeEnvironmentChange
commit c =
    if not c.replaces
    then pure c
    else (replace c.app c.effective >> pure (record c { committed = true }))

unfoldable pub rollback : RuntimeEnvironmentChange → Io RuntimeEnvironmentChange
rollback c =
    if not c.committed
    then pure c
    else (replace c.app c.previous >> pure (record c { committed = false }))
