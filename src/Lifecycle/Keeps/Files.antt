-- ===== src/Lifecycle/Keeps/Files.antt =====
-- No operation on the program's own files touches the release in service.
use mini_deploy.Prelude.{refl, false, ◌≡◌, List, [], ◌∷◌, Option, none, some, Bool}
use mini_deploy.Text.{Text}
use mini_deploy.Records.{DeploymentRecord}
use mini_deploy.Result.{Error}
use mini_deploy.World.{
  World, History as HistoryMap, File, Environment, StoreFile, absent, blank, malformed, entries,
  HistoryFile, contents, Routes, replace_file,
}
use mini_deploy.World.Keeps.{Keeps, keeps_rules}
use mini_deploy.Lifecycle.Keeps.{touches, Spares, Spares-run, Spares-modify}
use mini_deploy.Store
use mini_deploy.Store.{load_file}
use mini_deploy.History
use mini_deploy.History.{load_history}
use mini_deploy.Environment
use mini_deploy.Environment.{
  load_data, put_secret, replace_event, RuntimeEnvironmentChange,
  prepare_runtime_environment_change,
}
use mini_deploy.Proxy.{reload, write_proxy_routes, sync_proxy_routes}

module _ (old : DeploymentRecord) (v : World) where
  replace_file-Spares :
      (file : File) (e : Error) (f : World → World)
      → ((w : World) → (f w).host ≡ w.host)
      → ((w : World) → (f w).trace ≡ w.trace)
      → Keeps (Spares old v) (replace_file file e f)
  unfolding replace_file
  replace_file-Spares file e f h k = search (keeps_rules, Spares-run old v, Spares-modify old v)

  Store-write-Spares : (ds : List DeploymentRecord) → Keeps (Spares old v) (Store.write ds)
  unfolding Store.write
  Store-write-Spares ds = replace_file-Spares _ _ _ (λ w. refl) (λ w. refl)

  load_file-Spares : (file : StoreFile) → Keeps (Spares old v) (load_file file)
  unfolding load_file
  load_file-Spares absent = search keeps_rules
  load_file-Spares blank = search keeps_rules
  load_file-Spares malformed = search keeps_rules
  load_file-Spares (entries es) = search (keeps_rules, Store-write-Spares)

  Store-load-Spares : Keeps (Spares old v) Store.load
  unfolding Store.load
  Store-load-Spares = search (keeps_rules, Spares-run old v, load_file-Spares)

  pub Store-save-Spares : (d : DeploymentRecord) → Keeps (Spares old v) (Store.save d)
  unfolding Store.save
  Store-save-Spares d = search (keeps_rules, Store-load-Spares, Store-write-Spares)

  History-write-Spares : (h : HistoryMap) → Keeps (Spares old v) (History.write h)
  unfolding History.write
  History-write-Spares h = replace_file-Spares _ _ _ (λ w. refl) (λ w. refl)

  load_history-Spares : (file : HistoryFile) → Keeps (Spares old v) (load_history file)
  unfolding load_history
  load_history-Spares absent = search keeps_rules
  load_history-Spares blank = search keeps_rules
  load_history-Spares malformed = search keeps_rules
  load_history-Spares (contents h) = search keeps_rules

  History-read-Spares : Keeps (Spares old v) History.read
  unfolding History.read
  History-read-Spares = search (keeps_rules, Spares-run old v, load_history-Spares)

  pub History-push-Spares : (d : DeploymentRecord) → Keeps (Spares old v) (History.push d)
  unfolding History.push
  History-push-Spares d = search (keeps_rules, History-read-Spares, History-write-Spares) depth 14

  pub History-list-Spares : (app : Text) → Keeps (Spares old v) (History.list app)
  unfolding History.list
  History-list-Spares app = search (keeps_rules, History-read-Spares)

  load_data-Spares : (app : Text) (o : Option Text) → Keeps (Spares old v) (load_data app o)
  unfolding load_data
  load_data-Spares app none = search keeps_rules
  load_data-Spares app (some bytes) = search (keeps_rules, Spares-run old v)

  pub Environment-load-Spares : (app : Text) → Keeps (Spares old v) (Environment.load app)
  unfolding Environment.load
  Environment-load-Spares app = search (keeps_rules, Spares-run old v, load_data-Spares)

  replace_event-Spares :
      (app : Text) (values : Environment) → touches old (replace_event app values) ≡ false
  replace_event-Spares app [] = refl
  replace_event-Spares app (x ∷ xs) = refl

  Environment-replace-Spares :
      (app : Text) (values : Environment) → Keeps (Spares old v) (Environment.replace app values)
  unfolding Environment.replace
  Environment-replace-Spares app values =
      search (keeps_rules, Spares-run old v, Spares-modify old v, replace_event-Spares)

  pub prepare-Spares :
      (app : Text) (values : Environment) (b : Bool)
      → Keeps (Spares old v) (prepare_runtime_environment_change app values b)
  unfolding prepare_runtime_environment_change
  prepare-Spares app values b = search (keeps_rules, Environment-load-Spares)

  pub commit-Spares : (c : RuntimeEnvironmentChange) → Keeps (Spares old v) (Environment.commit c)
  unfolding Environment.commit
  commit-Spares c = search (keeps_rules, Environment-replace-Spares)

  pub rollback-Spares :
      (c : RuntimeEnvironmentChange) → Keeps (Spares old v) (Environment.rollback c)
  unfolding Environment.rollback
  rollback-Spares c = search (keeps_rules, Environment-replace-Spares)

  reload-Spares : Keeps (Spares old v) reload
  unfolding reload
  reload-Spares = search (keeps_rules, Spares-run old v, Spares-modify old v)

  write_proxy_routes-Spares : (r : Routes) → Keeps (Spares old v) (write_proxy_routes r)
  unfolding write_proxy_routes
  write_proxy_routes-Spares r = search (keeps_rules, replace_file-Spares)

  pub sync_proxy_routes-Spares : Keeps (Spares old v) sync_proxy_routes
  unfolding sync_proxy_routes Store.list
  sync_proxy_routes-Spares =
      search (keeps_rules, Store-load-Spares, write_proxy_routes-Spares, reload-Spares)
