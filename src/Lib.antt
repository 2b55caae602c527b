-- ===== src/Lib.antt =====
-- MiniDeploy (app/*.go) deploys repositories as Docker containers behind Caddy: it clones, builds,
-- starts and checks a container, keeps the deployments and their past versions in JSON files, and
-- writes the routes of the proxy. Models of its parts, with the file of each:
--   Records         the records of app/store.go, app/history.go and app/deployment_identity.go
--   Config          app/deployment_config.go: validation, defaults, the normal form of a record
--   Path            app/deployment_path.go and repoName of app/deploy.go: names and managed paths
--   RepositoryUrl   app/repository_url.go
--   Names           the names of an environment, in app/runtime_environment.go
--   Environment     the file store and the change of app/runtime_environment.go; Format is its text
--   World           what the program acts on, and the actions (runCommand of app/docker.go)
--   Store           JSONStore of app/store.go
--   History         DeploymentVersion and JSONHistoryStore of app/history.go
--   Proxy           app/proxy.go: hostnames (Hostname), pairs of services (Fullstack), the text of the
--                   route files (RouteFiles) and their synchronisation
--   Docker          app/docker.go, app/health.go and inspectBuiltImageID of app/deployment_identity.go
--   Checkout        app/repository_files.go, over the answers of the file system
--   Detect          app/deployment_strategy.go and app/fullstack_strategy.go: the detectors, the strategy
--                   of a record, and the generated Dockerfiles
--   Source          the inspection of a checkout, of app/deployment_identity.go
--   Build           buildDeploymentImage of app/deployment_strategy.go
--   MiniBase        app/minibase_client.go: the checks of what the database service replies
--   Database        app/database_integration.go, with the migration of an application (Migration), and
--                   app/minibase_lifecycle.go: Detach, Attach, what they stop and start (Service) and the
--                   handlers (Handlers); app/minibase_handlers.go (Dashboard)
--   Lifecycle       deployRepository (Deploy) and safeRedeploy (Redeploy) of app/deploy.go,
--                   app/rollback.go (Rollback), what follows a cutover (Retire), the deletion of a deployment
--                   in app/handlers.go (Delete), and the interface of a full-stack project (Platform). Keeps is about
--                   what an action does not touch, Unchanged about what changes no stored deployment
--   Fullstack       app/fullstack_runtime.go: the names and checks of a release, its Docker resources
--                   (Resources), status and restart (Status); app/fullstack_lifecycle.go: the record, the
--                   images and the start of a release (Release), what fills the interface (Deploy, Redeploy,
--                   Rollback, Platform); app/fullstack_delete.go (Delete). Apart, Failure and Safety are about
--                   the releases that fail
-- Prelude and Text hold numbers, lists, and the functions of package strings; Result the errors.
--
-- A function that acts is a function of the world that returns a result and the new world. Each command,
-- file operation and request is an event. A host, an arbitrary function of the events so far, answers
-- it, with a failure at any point. World.Spec states outcomes, World.Keeps invariants of actions. The
-- store and the history change together with their files: a write makes the directory, writes a temporary
-- file and renames it, and only the rename changes the file. The mutexes make each operation one action.
--
-- Loops are structural recursion. findAvailablePort looks at the ports from 8081 to 8999, and the checks
-- of a container make 3 looks and 5 requests, as the source does, so that their counts are their fuel.
--
-- Not modelled: url.Parse and the lowering of letters above ASCII are fields of the host; JSON is what
-- Unmarshal yields; text that is not UTF-8, logs, waiting times and the wording of errors are left out; a
-- slice is a value. Symbolic links, and what os.Stat and the manifests of a checkout say, are fields of
-- the disk, which does not change while a strategy is found. Paths of managed directories are lexical. A
-- reply of MiniBase is a field of the host, with its status, its size and what its JSON decodes to; what a
-- command that fails prints, and the text of a URL, are fields too. A deployment, a redeployment and a rollback
-- take the full-stack project as an argument, the Platform, so that what holds of a single service is proved
-- without it; Fullstack.Platform fills it. The body of a request of MiniBase is what its JSON decodes to. The
-- logs, the webhook, authentication, and the HTTP side of the
-- rest of the program have no model.
pub mod Prelude
pub mod Text
pub mod Records
pub mod Names
pub mod Result
pub mod Strategy
pub mod Config
pub mod Path
pub mod Checkout
pub mod Detect
pub mod RepositoryUrl
pub mod World
pub mod MiniBase
pub mod Database
pub mod Source
pub mod Build
pub mod Environment
pub mod Store
pub mod History
pub mod Proxy
pub mod Docker
pub mod Lifecycle
pub mod Fullstack
mod Examples
