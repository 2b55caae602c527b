-- ===== src/History.antt =====
-- app/history.go: released versions, and the bounded list of them that JSONHistoryStore keeps for each
-- application.
pub mod Laws
pub mod Effects
use mini_deploy.Prelude.{
  ℕ, is_zero, Bool, true, false, ◌&&◌, not, Option, none, some, List, [], ◌∷◌, map, keep_if, take,
  drop, if◌then◌else◌,
}
use mini_deploy.Text.{Text, ◌==◌, is_empty}
use mini_deploy.Records.{DeploymentRecord, DeploymentServiceRecord, DeploymentVersion, zero_record}
use mini_deploy.Result.{Result, ok, err, read_history, parse_history, write_history}
use mini_deploy.RepositoryUrl.{UrlParser, validate_repository_url}
use mini_deploy.Strategy
use mini_deploy.Config.{normalize_deployment_record}
use mini_deploy.World.{
  World, Io, History, HistoryFile, absent, blank, malformed, contents, File.history_json,
  Event.read_file, run, pure, fail, lift, gets, replace_file, ◌>>=◌, ◌>>◌,
}

-- The fields of a version, at a time.
abbrev pub version_of : ℕ → DeploymentRecord → DeploymentVersion
version_of now r = record {
  app = r.app;
  repo_url = r.repo_url;
  container = r.container;
  image = r.image;
  image_id = r.image_id;
  port = r.port;
  container_port = r.container_port;
  health_path = r.health_path;
  strategy = r.strategy;
  package_manager = r.package_manager;
  package_install_mode = r.package_install_mode;
  services = r.services;
  reactor_lab_migration = r.reactor_lab_migration;
  source = r.source;
  activated_at = r.activated_at;
  deployed_at = now;
}

unfoldable pub deployment_version : ℕ → DeploymentRecord → DeploymentVersion
deployment_version now r = version_of now (normalize_deployment_record r)

-- The record that Record passes to normalizeDeploymentRecord.
abbrev pub fields_of_version : DeploymentVersion → DeploymentRecord
fields_of_version v = record zero_record {
  app = v.app;
  repo_url = v.repo_url;
  container = v.container;
  image = v.image;
  image_id = v.image_id;
  port = v.port;
  container_port = v.container_port;
  health_path = v.health_path;
  strategy = v.strategy;
  package_manager = v.package_manager;
  package_install_mode = v.package_install_mode;
  services = v.services;
  reactor_lab_migration = v.reactor_lab_migration;
  source = v.source;
  activated_at = v.activated_at;
}

unfoldable pub version_record : DeploymentVersion → DeploymentRecord
version_record v = normalize_deployment_record (fields_of_version v)

abbrev forget_image_id : DeploymentServiceRecord → DeploymentServiceRecord
forget_image_id s = record s { image_id = [] }

abbrev pub is_nil {ℓ} : {A : Type ℓ} → List A → Bool
is_nil [] = true
is_nil (x ∷ xs) = false

-- What a version written before its build configuration was kept inherits.
unfoldable pub inherit : DeploymentVersion → DeploymentRecord → DeploymentRecord → DeploymentRecord
unfolding ◌==◌
inherit v fallback r = record r {
  container_port = if is_zero v.container_port then fallback.container_port else r.container_port;
  health_path = if is_empty v.health_path then fallback.health_path else r.health_path;
  strategy = if is_empty v.strategy then fallback.strategy else r.strategy;
  package_manager =
      if is_empty v.package_manager then fallback.package_manager else r.package_manager;
  package_install_mode =
      if is_empty v.package_install_mode
      then fallback.package_install_mode
      else r.package_install_mode;
  services =
      if is_nil v.services && fallback.strategy == Strategy.fullstack_vite_node
      then map forget_image_id fallback.services
      else r.services;
}

unfoldable pub record_with_fallback : DeploymentVersion → DeploymentRecord → DeploymentRecord
unfolding inherit version_record
record_with_fallback v fallback =
    normalize_deployment_record
      (inherit v (normalize_deployment_record fallback) (version_record v))

-- history[app]
unfoldable pub lookup_versions : Text → History → List DeploymentVersion
lookup_versions app [] = []
lookup_versions app ((key, versions) ∷ rest) =
    if key == app then versions else lookup_versions app rest

-- history[app] = versions
unfoldable pub put_versions : Text → List DeploymentVersion → History → History
put_versions app versions [] = (app, versions) ∷ []
put_versions app versions ((key, old) ∷ rest) =
    let later = (key, old) ∷ put_versions app versions rest in
    if key == app then (key, versions) ∷ rest else later

-- delete(history, app)
unfoldable pub drop_versions : Text → History → History
drop_versions app history = keep_if (λ entry. not (entry.0 == app)) history

unfoldable pub load_history : HistoryFile → Io History
load_history absent = pure []
load_history blank = pure []
load_history malformed = fail parse_history
load_history (contents history) = pure history

unfoldable pub read : Io History
read = do
  run (read_file history_json) read_history
  file ← gets (λ w. w.history_file)
  load_history file

unfoldable pub write : History → Io (Unit {0})
write history =
    replace_file history_json write_history (λ w. record w { history_file = contents history })

-- NewJSONHistoryStore("/srv/minideploy/data/deployment-history.json", 3)
abbrev pub max_previous : ℕ
max_previous = 3

unfoldable pub list : Text → Io (List DeploymentVersion)
list app = do history ← read; pure (lookup_versions app history)

-- The versions of an application after a record leaves service: it comes first, and no older version
-- of its image stays.
unfoldable pub pushed : ℕ → DeploymentRecord → List DeploymentVersion → List DeploymentVersion
pushed now r existing = deployment_version now r ∷ keep_if (λ v. not (v.image == r.image)) existing

unfoldable pub push : DeploymentRecord → Io (List DeploymentVersion)
push r = do
  parse ← gets (λ w. w.host.parse_url)
  lift (validate_repository_url parse r.repo_url)
  history ← read
  now ← gets (λ w. w.host.now w.trace)
  let versions = pushed now r (lookup_versions r.app history)
  write (put_versions r.app (take max_previous versions) history)
  pure (drop max_previous versions)

-- The loop of Set over the URLs of its versions.
unfoldable pub validate_versions : UrlParser → List DeploymentVersion → Result (Unit {0})
validate_versions parse [] = ok tt
validate_versions parse (v ∷ vs) =
    let rest = validate_versions parse vs in
    elim (validate_repository_url parse v.repo_url) [ ok _ ↦ rest | err e ↦ err e ]

unfoldable pub set : Text → List DeploymentVersion → Io (List DeploymentVersion)
set app versions = do
  parse ← gets (λ w. w.host.parse_url)
  lift (validate_versions parse versions)
  history ← read
  write (put_versions app (take max_previous versions) history)
  pure (drop max_previous versions)

unfoldable pub clear : Text → Io (Unit {0})
clear app = do history ← read; write (drop_versions app history)
