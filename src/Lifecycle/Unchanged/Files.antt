-- ===== src/Lifecycle/Unchanged/Files.antt =====
-- A load of the deployments, and the operations on the other files of the program, do not change the stored
-- deployments.
use mini_deploy.Prelude.{sym, ◌∙◌, List, Option, none, some, Bool}
use mini_deploy.Text.{Text}
use mini_deploy.Records.{DeploymentRecord}
use mini_deploy.Result.{Result, ok, err}
use mini_deploy.World.{World, Environment, absent, blank, malformed, HistoryFile, contents}
use mini_deploy.World.Keeps.{
  Keeps, Keeps-bind, Keeps-fail, Keeps-lift, Keeps-modify, Keeps-pure, keeps_rules,
}
use mini_deploy.Lifecycle.Unchanged.{Unchanged, Unchanged-run}
use mini_deploy.Store.Effects.{Loaded, load-Loaded}
use mini_deploy.Store
use mini_deploy.Store.{or_not_found}
use mini_deploy.History
use mini_deploy.History.{load_history}
use mini_deploy.Environment
use mini_deploy.Environment.{
  load_data, put_secret, replace_event, RuntimeEnvironmentChange,
  prepare_runtime_environment_change,
}

module _ (v : World) where
  or_not_found-Unchanged : (o : Option DeploymentRecord) → Keeps (Unchanged v) (or_not_found o)
  or_not_found-Unchanged none = Keeps-fail _
  or_not_found-Unchanged (some d) = Keeps-pure d

  loaded :
      (r : Result (List DeploymentRecord)) (w w1 : World)
      → Loaded w r w1
      → Unchanged v w
      → Unchanged v w1
  loaded (ok ds) w w1 h k = record {
    host = h.1.rest.host ∙ k.host;
    stored = h.1.deployments ∙ sym h.0 ∙ k.stored;
  }
  loaded (err e) w w1 h k = record {
    host = h.rest.host ∙ k.host;
    stored = h.deployments ∙ k.stored;
  }

  pub Store-load-Unchanged : Keeps (Unchanged v) Store.load
  Store-load-Unchanged = record {
    at = λ w k. loaded (Store.load w).0 w (Store.load w).1 (load-Loaded w) k;
  }

  pub Store-get-Unchanged : (app : Text) → Keeps (Unchanged v) (Store.get app)
  unfolding Store.get
  Store-get-Unchanged app = Keeps-bind _ _ Store-load-Unchanged λ ds. or_not_found-Unchanged _

  load_history-Unchanged : (file : HistoryFile) → Keeps (Unchanged v) (load_history file)
  unfolding load_history
  load_history-Unchanged absent = search keeps_rules
  load_history-Unchanged blank = search keeps_rules
  load_history-Unchanged malformed = search keeps_rules
  load_history-Unchanged (contents h) = search keeps_rules

  History-read-Unchanged : Keeps (Unchanged v) History.read
  unfolding History.read
  History-read-Unchanged = search (keeps_rules, Unchanged-run v, load_history-Unchanged)

  pub History-list-Unchanged : (app : Text) → Keeps (Unchanged v) (History.list app)
  unfolding History.list
  History-list-Unchanged app = search (keeps_rules, History-read-Unchanged)

  load_data-Unchanged : (app : Text) (o : Option Text) → Keeps (Unchanged v) (load_data app o)
  unfolding load_data
  load_data-Unchanged app none = search keeps_rules
  load_data-Unchanged app (some bytes) = search (keeps_rules, Unchanged-run v)

  pub Environment-load-Unchanged : (app : Text) → Keeps (Unchanged v) (Environment.load app)
  unfolding Environment.load
  Environment-load-Unchanged app = search (keeps_rules, Unchanged-run v, load_data-Unchanged)

  Environment-replace-Unchanged :
      (app : Text) (values : Environment) → Keeps (Unchanged v) (Environment.replace app values)
  unfolding Environment.replace
  Environment-replace-Unchanged app values = Keeps-bind _ _ (Keeps-lift _) λ _.
      Keeps-bind _ _ (Keeps-lift _) λ _.
        Keeps-bind _ _ (Unchanged-run v _ _)
          λ _. Keeps-modify _ λ w k. record { host = k.host; stored = k.stored }

  pub prepare-Unchanged :
      (app : Text) (values : Environment) (b : Bool)
      → Keeps (Unchanged v) (prepare_runtime_environment_change app values b)
  unfolding prepare_runtime_environment_change
  prepare-Unchanged app values b = search (keeps_rules, Environment-load-Unchanged)

  pub commit-Unchanged : (c : RuntimeEnvironmentChange) → Keeps (Unchanged v) (Environment.commit c)
  unfolding Environment.commit
  commit-Unchanged c = search (keeps_rules, Environment-replace-Unchanged)
