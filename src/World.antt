-- ===== src/World.antt =====
-- What the program acts on: its JSON files, the runtime environment files, the proxy configuration,
-- and a host that answers every command, file operation and request. The host is a parameter: an
-- arbitrary function of the events so far. An action returns a value or an error, and the new world.
pub mod Spec
pub mod Returns
pub mod Keeps
pub mod Handle
use mini_deploy.Prelude.{ℕ, ℤ, Bool, true, false, Option, none, some, List, [], ◌∷◌, if◌then◌else◌}
use mini_deploy.Text.{Text, codes, ◌==◌}
use mini_deploy.RepositoryUrl.{UrlParser}
use mini_deploy.Checkout.{Disk}
use mini_deploy.MiniBase.Data.{MiniBaseDatabase, MiniBaseAttachment, MiniBaseBinding, Reply}
use mini_deploy.Records.{DeploymentRecord, DeploymentVersion}
use mini_deploy.Result.{Result, ok, err, Error}

-- The files that are replaced by a rename.
pub data File : Type 0 where
  deployments_json history_json local_routes public_routes : File

-- managedContainerOptions of app/docker.go, apart from the data network: where `network` is set, a container
-- joins it under the name of its service, and gets the labels of the application and the service.
pub record ContainerOptions : Type 0 where
  pub network : Text
  pub service : Text
  pub app : Text

-- One operation of the world outside. The constructors are commands (git, docker, caddy) with the
-- arguments that matter, file operations, and requests.
pub data Event : Type 0 where
  read_file make_dir write_temp rename_temp : File → Event
  read_secrets check_secrets remove_secrets replace_secrets : Text → Event
  git_clone : (repo_url : Text) (path : List Text) → Event
  git_head git_branch : (path : List Text) → Event
  remove_all : (path : List Text) → Event
  rename_path : (from : List Text) (to : List Text) → Event
  docker_build : (path : List Text) (image : Text) → Event
  make_deployments_dir : Event
  make_build_context write_dockerfile remove_build_context : Event
  image_inspect image_id image_rm : (image : Text) → Event
  docker_run docker_create :
      (container : Text) (image : Text) (host_port : ℤ) (container_port : ℤ)
      (options : ContainerOptions)
      → Event
  network_inspect : Event
  network_create : (app : Text) (network : Text) → Event
  network_labels network_rm : (network : Text) → Event
  container_labels : (container : Text) → Event
  network_connect docker_start docker_stop docker_restart docker_rm : (container : Text) → Event
  container_inspect container_status container_logs : (container : Text) → Event
  docker_env_file : (app : Text) → Event
  run_migration_container : (container : Text) (image : Text) → Event
  check_mini_base_token read_mini_base_token get_databases : Event
  post_database : (display_name : Text) → Event
  post_attachment : (database_id : Text) (consumer_ref : Text) → Event
  remove_attachment get_binding : (attachment_id : Text) → Event
  listen : (port : ℕ) → Event
  http_get : (port : ℤ) (path : Text) → Event
  caddy_reload : Event

pub record Host : Type 0 where
  -- The output of an operation, or `none` where it fails.
  pub answer : List Event → Event → Option Text
  -- The status code of a request, or `none` where it fails.
  pub status : List Event → Event → Option ℕ
  -- time.Now().UnixNano()
  pub now : List Event → ℕ
  -- url.Parse
  pub parse_url : UrlParser
  -- Whether a command that failed exited with status 1.
  pub exit_one : List Event → Event → Bool
  -- What a command that fails prints.
  pub complaint : List Event → Event → Text
  -- What is on the disk of the checkouts.
  pub disk : List Event → Disk
  -- The replies of MiniBase, or `none` where a request fails.
  pub databases_reply : List Event → Event → Option (Reply (List MiniBaseDatabase))
  pub database_reply : List Event → Event → Option (Reply MiniBaseDatabase)
  pub attachment_reply : List Event → Event → Option (Reply MiniBaseAttachment)
  pub deletion_reply : List Event → Event → Option (Reply (Unit {0}))
  pub binding_reply : List Event → Event → Option (Reply MiniBaseBinding)
  -- The text of a url.URL of a scheme, a user and password, a host, a path and a query
  pub url_string : (scheme user password host path raw_query : Text) → Text
  -- unicode.ToLower above ASCII
  pub lower_beyond : ℕ → ℕ

-- One element of the array in deployments.json. `visible` is its guestVisible field, which records
-- written before that field existed lack.
pub record StoredRecord : Type 0 where
  pub deployment : DeploymentRecord
  pub visible : Option Bool

-- deployments.json as os.ReadFile and json.Unmarshal see it.
pub data StoreFile : Type 0 where
  absent blank malformed : StoreFile
  entries : List StoredRecord → StoreFile

-- The map in deployment-history.json, as a list of its keys with their values.
abbrev pub History : Type 0
History = List (Text × List DeploymentVersion)

pub data HistoryFile : Type 0 where
  absent blank malformed : HistoryFile
  contents : History → HistoryFile

-- A Go map[string]string: its pairs, no key twice.
abbrev pub Environment : Type 0
Environment = List (Text × Text)

-- The two route files that Caddy imports.
pub record Routes : Type 0 where
  pub local : Text
  pub public_hosts : Text

pub record World : Type 0 where
  pub host : Host
  pub trace : List Event  -- the last event first
  pub store_file : StoreFile
  pub history_file : HistoryFile
  pub secrets : Text → Option Text  -- the environment file of each application
  pub route_files : Routes
  pub live : Routes  -- the configuration that Caddy serves

abbrev pub Io {ℓ} : Type ℓ → Type ℓ
Io A = World → Result A × World

abbrev pub continue {ℓ κ} : {A : Type ℓ} {B : Type κ} → Result A → (A → Io B) → Io B
continue (ok a) f w = f a w
continue (err e) f w = (err e, w)

infixl 5 ◌>>=◌ ◌>>◌
unfoldable pub ◌>>=◌ {ℓ κ} : {A : Type ℓ} {B : Type κ} → Io A → (A → Io B) → Io B
◌>>=◌ m f w = continue (m w).0 f (m w).1

abbrev pub ◌>>◌ {ℓ κ} : {A : Type ℓ} {B : Type κ} → Io A → Io B → Io B
m >> n = m >>= λ _. n

unfoldable pub pure {ℓ} : {A : Type ℓ} → A → Io A
pure a w = (ok a, w)

unfoldable pub fail {ℓ} : {A : Type ℓ} → Error → Io A
fail e w = (err e, w)

unfoldable pub lift {ℓ} : {A : Type ℓ} → Result A → Io A
lift r w = (r, w)

-- What a caller does with an error that it handles: the result itself is the value.
unfoldable pub try {ℓ} : {A : Type ℓ} → Io A → Io (Result A)
try m w = (ok (m w).0, (m w).1)

-- `_, _ = f()`, and errors that are only logged
unfoldable pub ignore {ℓ} : {A : Type ℓ} → Io A → Io (Unit {0})
ignore m w = (ok tt, (m w).1)

unfoldable pub gets {ℓ} : {A : Type ℓ} → (World → A) → Io A
gets f w = (ok (f w), w)

unfoldable pub modify : (World → World) → Io (Unit {0})
modify f w = (ok tt, f w)

unfoldable pub record_event : Event → World → World
record_event e w = record w { trace = e ∷ w.trace }

abbrev pub answered : Option Text → Error → Result Text
answered none error = err error
answered (some output) error = ok output

-- Runs an operation; where it fails, `error` is returned.
unfoldable pub run : Event → Error → Io Text
unfolding record_event
run e error w = (answered (w.host.answer w.trace e) error, record_event e w)

unfoldable pub request : Event → Io (Option ℕ)
unfolding record_event
request e w = (ok (w.host.status w.trace e), record_event e w)

-- A request whose reply the host keeps in a field of its own.
unfoldable pub ask {ℓ} :
    {A : Type ℓ} → (Host → List Event → Event → Option A) → Event → Io (Option A)
unfolding record_event
ask reply e w = (ok (reply w.host w.trace e), record_event e w)

-- The write of a JSON or route file: the directory, a temporary file, and the rename that puts it in
-- place. Only the rename changes the file.
unfoldable pub replace_file : File → Error → (World → World) → Io (Unit {0})
replace_file file error update = do
  run (make_dir file) error
  run (write_temp file) error
  run (rename_temp file) error
  modify update

-- What a proof that runs an action step by step unfolds.
unfoldable pub io : Unit {0}
unfolding run request ask pure fail lift try ignore gets modify replace_file record_event ◌>>=◌
io = tt
