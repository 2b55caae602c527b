-- ===== src/Examples/Inputs.antt =====
-- The checks and normal forms of single values at concrete inputs.
use mini_deploy.Prelude.{
  ℕ, pos, refl, ap, ◌≡◌, ◌≢◌, ◌≤◌, true, false, none, some, List, [], ◌∷◌, ◌++◌, ◌⊎◌, ◌↔◌,
}
use mini_deploy.Text.{Text, codes, is_empty, ◌==◌, trim_space, has_prefix}
use mini_deploy.Text
use mini_deploy.Records.{DeploymentServiceRecord}
use mini_deploy.Result.{ok}
use mini_deploy.Strategy
use mini_deploy.Config.{
  normalize_deployment_record, normalized_container_port, normalized_health_path,
  validate_deployment_config, validate_requested_deployment_config, find_service,
}
use mini_deploy.Config.Laws.{normalize-normalize, requested-IsDeployable, validate-exact}
use mini_deploy.Path.{
  FilePath, validate_application_name, managed_deployment_path, strict_child_path, deployments_dir,
  clean,
}
use mini_deploy.Path.Laws.{
  strict_child_path-below, managed_deployment_path_lem, managed_path_injective,
}
use mini_deploy.RepositoryUrl.{validate_repository_url, is_http}
use mini_deploy.RepositoryUrl.Laws.{validate_repository_url_lem}
use mini_deploy.World.{Environment}
use mini_deploy.Environment.Format.{
  validate_runtime_environment, parse_runtime_environment, encode_runtime_environment, lookup,
}
use mini_deploy.Environment.Laws.{parse-encode_lookup}
use mini_deploy.Proxy.Hostname.{
  public_hostname_label, public_hostname_for_app, public_site_hostname, in_domain,
}
use mini_deploy.Proxy.Hostname.Laws.{
  IsLabel, public_hostname_label-IsLabel, public_hostname_for_app_lem,
}
use mini_deploy.Proxy.Fullstack.{
  is_expected_service, validate_fullstack_service_metadata, validate_fullstack_service_metadata_lem,
}
use mini_deploy.Examples.Values.{next_blog, github}

abbrev shop_path : Text
shop_path = codes "/srv/apps/../apps/shop"

shop_accepted : strict_child_path (codes "/srv/apps") shop_path ≡ ok (clean shop_path)
unfolding strict_child_path Text.split
shop_accepted = refl

strict_child_path-below_example :
    (clean shop_path ≡ clean shop_path)
    × ((rest : FilePath) × (rest ≢ []) × (clean shop_path ≡ clean (codes "/srv/apps") ++ rest))
strict_child_path-below_example =
    strict_child_path-below (codes "/srv/apps") shop_path (clean shop_path) shop_accepted

valid_blog : validate_application_name (codes "blog") ≡ ok tt
unfolding validate_application_name trim_space
valid_blog = refl

managed_deployment_path_example :
    managed_deployment_path (codes "blog") ≡ ok (clean deployments_dir ++ codes "blog" ∷ [])
managed_deployment_path_example = managed_deployment_path_lem (codes "blog") valid_blog

managed_path_injective_example : codes "blog" ≡ codes "blog"
managed_path_injective_example =
    managed_path_injective (codes "blog") (codes "blog")
      (clean deployments_dir ++ codes "blog" ∷ []) managed_deployment_path_example
      managed_deployment_path_example

abbrev keys : Environment
keys = (codes "B", codes "2=3") ∷ (codes "A", codes "1") ∷ []

valid_keys : validate_runtime_environment keys ≡ ok tt
unfolding validate_runtime_environment
valid_keys = refl

parse-encode_lookup_example :
    (back : Environment) × (parse_runtime_environment (encode_runtime_environment keys) ≡ ok back)
    × ((n : Text) → lookup n back ≡ lookup n keys)
parse-encode_lookup_example = parse-encode_lookup keys valid_keys

normalize-normalize_example :
    normalize_deployment_record (normalize_deployment_record next_blog)
    ≡ normalize_deployment_record next_blog
normalize-normalize_example = normalize-normalize next_blog

health_accepted : validate_requested_deployment_config (pos 3000) (codes " /ready ") ≡ ok tt
unfolding validate_requested_deployment_config trim_space
health_accepted = refl

requested-IsDeployable_example :
    validate_deployment_config
      (normalized_container_port (pos 3000))
      (normalized_health_path (codes " /ready "))
    ≡ ok tt
requested-IsDeployable_example =
    requested-IsDeployable (pos 3000) (codes " /ready ") health_accepted

abbrev upper : ℕ → ℕ
upper c = c

has_host : is_empty (public_hostname_for_app upper (codes "My_App")) ≡ false
unfolding public_hostname_for_app public_hostname_label Text.to_lower trim_space
has_host = refl

named_host : public_hostname_for_app upper (codes "My_App") ≢ []
named_host e = cc (has_host, ap is_empty e)

public_hostname_for_app_example :
    (public_hostname_for_app upper (codes "My_App") ≢ public_site_hostname)
    × ((label : Text) × (public_hostname_for_app upper (codes "My_App") ≡ in_domain label)
        × (label ≢ [])
        × IsLabel label)
public_hostname_for_app_example = public_hostname_for_app_lem upper (codes "My_App") named_host

public_hostname_label-IsLabel_example : IsLabel (public_hostname_label upper (codes "My_App"))
public_hostname_label-IsLabel_example = public_hostname_label-IsLabel upper (codes "My_App")

url_accepted :
    validate_repository_url (λ s. some github) (codes "https://github.com/a/blog") ≡ ok tt
unfolding validate_repository_url
url_accepted = refl

https : is_http github.scheme ≡ true
unfolding Text.equal_fold
https = refl

validate_repository_url_example :
    (github.host ≢ []) × (github.user ≡ none) × (github.raw_query ≡ []) × (github.fragment ≡ [])
validate_repository_url_example =
    validate_repository_url_lem (λ s. some github) (codes "https://github.com/a/blog") github
      url_accepted refl https

abbrev service : Text → Text → DeploymentServiceRecord
service name strategy = record {
  name = name;
  path = name;
  strategy = strategy;
  container = [];
  image = [];
  image_id = [];
  port = pos 8082;
  container_port = pos 80;
  health_path = codes "/";
  package_manager = codes "npm";
  package_install_mode = codes "ci";
  reactor_lab_migration = false;
}

abbrev pair : List DeploymentServiceRecord
pair =
    service (codes "frontend") Strategy.vite_static
    ∷ service (codes "backend") Strategy.node_express
    ∷ []

pair_accepted : validate_fullstack_service_metadata pair ≡ ok tt
unfolding validate_fullstack_service_metadata is_expected_service
pair_accepted = refl

validate_fullstack_service_metadata_example :
    (frontend : DeploymentServiceRecord) × (backend : DeploymentServiceRecord) × (find_service
        Strategy.frontend_service pair
      ≡ some frontend)
    × (find_service Strategy.backend_service pair ≡ some backend)
    × (frontend.strategy ≡ Strategy.vite_static)
    × (backend.strategy ≡ Strategy.node_express)
    × ((pair ≡ frontend ∷ backend ∷ []) ⊎ (pair ≡ backend ∷ frontend ∷ []))
validate_fullstack_service_metadata_example =
    validate_fullstack_service_metadata_lem pair pair_accepted

validate-exact_example : (validate_deployment_config (pos 80) (codes "/") ≡ ok tt) ↔ (
    (n : ℕ) × (pos 80 ≡ pos n)
    × (1 ≤ n)
    × (n ≤ 65535)
    × (has_prefix (codes "/") (codes "/") ≡ true))
validate-exact_example = validate-exact (pos 80) (codes "/")
