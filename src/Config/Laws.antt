-- ===== src/Config/Laws.antt =====
-- The normal form of a record is stable, and a requested configuration that passes validation gives
-- a deployable one.
use mini_deploy.Prelude.{
  ℕ, ◌≤◌, ◌↔◌, ℤ, pos, negsuc, ◌≡◌, refl, ap, ◌∙◌, true, false, Option, none, some, List, [], ◌∷◌,
  map, arith, Bool-cases, inl, inr,
}
use mini_deploy.Text.{Text, codes, is_empty, has_prefix, trim_space, trim_space-trim_space}
use mini_deploy.Strategy
use mini_deploy.Records.{DeploymentRecord, DeploymentServiceRecord}
use mini_deploy.Result.{ok}
use mini_deploy.Names.Laws.{normalize_names-normalize_names}
use mini_deploy.Config.{
  normalized_container_port, normalized_health_path, validate_deployment_config,
  validate_requested_deployment_config, normalize_service, find_service, project_frontend,
  project_fullstack, strategy_or_default, normalize_fields, normalize_deployment_record,
}

trimmed_not_empty :
    (s : Text) → is_empty (trim_space s) ≡ false → is_empty (trim_space (trim_space s)) ≡ false
trimmed_not_empty s h = rw trim_space-trim_space h

pub health_path-health_path :
    (s : Text) → normalized_health_path (normalized_health_path s) ≡ normalized_health_path s
unfolding normalized_health_path trim_space
health_path-health_path s = elim (Bool-cases (is_empty (trim_space s))) [
  | inl e ↦ rw e refl
  | inr e ↦ rw e (ground (arith, trim_space-trim_space s))
]

normalize_service-normalize_service :
    (s : DeploymentServiceRecord) → normalize_service (normalize_service s) ≡ normalize_service s
unfolding normalize_service
normalize_service-normalize_service s = ground (arith, health_path-health_path s.health_path)

normalize_services_twice :
    (ss : List DeploymentServiceRecord)
    → map normalize_service (map normalize_service ss) ≡ map normalize_service ss
normalize_services_twice [] = refl
normalize_services_twice (s ∷ ss) =
    ground (arith, normalize_service-normalize_service s, normalize_services_twice ss)

strategy_or_default_twice :
    (s : Text) → strategy_or_default (strategy_or_default s) ≡ strategy_or_default s
unfolding trim_space
strategy_or_default_twice s = ground arith

-- A service of a normalised record is in normal form.
find_service-normalized :
    (name : Text) (ss : List DeploymentServiceRecord) {f : DeploymentServiceRecord}
    → find_service name (map normalize_service ss) ≡ some f
    → normalize_service f ≡ f
unfolding find_service
find_service-normalized name [] h = ground arith
find_service-normalized name (s ∷ ss) {f} h =
    ground (arith, normalize_service-normalize_service s, find_service-normalized name ss {f = f})

port_of_normalized :
    (f : DeploymentServiceRecord)
    → normalize_service f ≡ f
    → (normalized_container_port f.container_port ≡ f.container_port)
      × (normalized_health_path f.health_path ≡ f.health_path)
unfolding normalize_service normalized_container_port
port_of_normalized f h =
    let p = ap (λ (s : DeploymentServiceRecord). s.container_port) h in
    let q = ap (λ (s : DeploymentServiceRecord). s.health_path) h in (ground arith, q)

fields_twice : (r : DeploymentRecord) → normalize_fields (normalize_fields r) ≡ normalize_fields r
unfolding normalize_fields normalized_container_port
fields_twice r = ground (
  arith,
  health_path-health_path r.health_path,
  normalize_names-normalize_names r.environment_variables,
  normalize_services_twice r.services,
  strategy_or_default_twice r.strategy,
)

-- A record that takes its fields from a service in normal form is in normal form itself.
fields_of_projection :
    (n : DeploymentRecord) (f : DeploymentServiceRecord)
    → normalize_fields n ≡ n
    → normalize_service f ≡ f
    → normalize_fields (project_frontend n (some f)) ≡ project_frontend n (some f)
unfolding normalize_fields
fields_of_projection n f hn hf =
    let p = port_of_normalized f hf in
    λ i. record n {
      strategy = (hn i).strategy;
      container = f.container;
      image = f.image;
      image_id = f.image_id;
      port = f.port;
      container_port = p.0 i;
      health_path = p.1 i;
      package_manager = [];
      package_install_mode = [];
      environment_variables = (hn i).environment_variables;
      services = (hn i).services;
    }

project_fullstack_twice :
    (n : DeploymentRecord) → project_fullstack (project_fullstack n) ≡ project_fullstack n
unfolding project_fullstack
project_fullstack_twice n = ground arith

-- What the projection of `n` is, by its frontend service.
fields_of_project_fullstack :
    (n : DeploymentRecord) (o : Option DeploymentServiceRecord)
    → normalize_fields n ≡ n
    → find_service Strategy.frontend_service n.services ≡ o
    → ((f : DeploymentServiceRecord) → o ≡ some f → normalize_service f ≡ f)
    → normalize_fields (project_fullstack n) ≡ project_fullstack n
unfolding project_fullstack
fields_of_project_fullstack n none hn ho hf = ground arith
fields_of_project_fullstack n (some f) hn ho hf =
    ground (arith, fields_of_projection n f hn (hf f refl))

fields_of_normalized :
    (r : DeploymentRecord)
    → normalize_fields (project_fullstack (normalize_fields r))
      ≡ project_fullstack (normalize_fields r)
fields_of_normalized r = fields_of_project_fullstack (normalize_fields r) _ (fields_twice r) refl (
    unfold normalize_fields in
    λ f e. find_service-normalized Strategy.frontend_service r.services e)

-- Normalising a record twice is normalising it once: what a reader of the store has normalised,
-- every later step may normalise again.
pub normalize-normalize :
    (r : DeploymentRecord)
    → normalize_deployment_record (normalize_deployment_record r) ≡ normalize_deployment_record r
unfolding normalize_deployment_record
normalize-normalize r =
    ap project_fullstack {y = project_fullstack (normalize_fields r)} (fields_of_normalized r)
    ∙ project_fullstack_twice (normalize_fields r)

-- A requested configuration that passes validation, with the defaults put in, is one that passes the
-- validation of a deployment.
pub requested-IsDeployable :
    (port : ℤ) (path : Text)
    → validate_requested_deployment_config port path ≡ ok tt
    → validate_deployment_config (normalized_container_port port) (normalized_health_path path)
      ≡ ok tt
unfolding validate_requested_deployment_config validate_deployment_config normalized_container_port
    normalized_health_path
requested-IsDeployable port path h = ground arith

-- The validation of a deployment accepts exactly the TCP ports with a path that begins with a slash.
pub validate-exact :
    (port : ℤ) (path : Text)
    → (validate_deployment_config port path ≡ ok tt)
      ↔ ((n : ℕ) × (port ≡ pos n) × (1 ≤ n) × (n ≤ 65535) × (has_prefix path (codes "/") ≡ true))
unfolding validate_deployment_config
validate-exact (pos n) path =
    (λ h. (n, refl, ground arith, ground arith, ground arith), λ (m, e, a, b, c). ground arith)
validate-exact (negsuc n) path = (λ h. cc, λ (m, e, a, b, c). cc)
