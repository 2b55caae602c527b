-- ===== src/Proxy/RouteFiles.antt =====
-- app/proxy.go: the text of the route files.
use mini_deploy.Prelude.{
  ℕ, suc, ℤ, at_most, Bool, true, false, not, List, [], ◌∷◌, ◌++◌, if◌then◌else◌,
}
use mini_deploy.Text.{Text, codes, ◌==◌, is_empty, decimal, itoa}
use mini_deploy.Records.{DeploymentRecord, DeploymentServiceRecord}
use mini_deploy.Result.{Result, ok, err}
use mini_deploy.Names.{text_lt}
use mini_deploy.Strategy
use mini_deploy.Config.{normalize_deployment_record}
use mini_deploy.World.{Routes}
use mini_deploy.Proxy.Hostname.{public_hostname_for_app}
use mini_deploy.Proxy.Fullstack.{fullstack_proxy_services}

-- The parts of a text, as fmt.Sprintf joins them.
unfoldable pub concat : List Text → Text
concat [] = []
concat (s ∷ ss) = s ++ concat ss

-- sort.Slice by App
insert_by_app : DeploymentRecord → List DeploymentRecord → List DeploymentRecord
insert_by_app r [] = r ∷ []
insert_by_app r (x ∷ xs) =
    let later = x ∷ insert_by_app r xs in if text_lt x.app r.app then later else r ∷ x ∷ xs

-- The store holds one record of an application; of several, sort.Slice may change the order, which is kept here.
unfoldable pub sorted_by_app : List DeploymentRecord → List DeploymentRecord
unfolding insert_by_app
sorted_by_app [] = []
sorted_by_app (r ∷ rs) = insert_by_app r (sorted_by_app rs)

abbrev database_detached_message : Text
database_detached_message =
    codes
      "Deployment temporarily unavailable. This deployment is stopped because its database is detached."

abbrev newline : Text
newline = 10 ∷ []

abbrev indented : Text → Text
indented line = 9 ∷ line ++ newline

abbrev redirect : Text → Text
redirect app =
    concat (codes "redir /" ∷ app ∷ codes " /" ∷ app ∷ codes "/" ∷ newline ∷ newline ∷ [])

abbrev block_end : Text
block_end = codes "}" ++ newline ++ newline

abbrev proxy_line : ℤ → Text
proxy_line port = indented (codes "reverse_proxy 127.0.0.1:" ++ itoa port)

abbrev local_block : Text → List Text → Text
local_block app lines =
    concat (codes "handle_path /" ∷ app ∷ codes "/* {" ∷ newline ∷ concat lines ∷ block_end ∷ [])

-- @NAME_INDEX host HOSTNAME, and its block
abbrev host_block : Text → ℕ → Text → Text → Text
host_block name index hostname line =
    let matcher = codes "@" ++ name ++ decimal index in
    concat (
      matcher
      ∷ codes " host "
      ∷ hostname
      ∷ newline
      ∷ codes "handle "
      ∷ matcher
      ∷ codes " {"
      ∷ newline
      ∷ line
      ∷ block_end
      ∷ [])

abbrev respond_line : Text
respond_line =
    indented (concat (codes "respond \"" ∷ database_detached_message ∷ codes "\" 503" ∷ []))

unfoldable pub detached_proxy_route_fragments : DeploymentRecord → ℕ → Text → Routes
unfolding concat
detached_proxy_route_fragments r index hostname = record {
  local = redirect r.app ++ local_block r.app (respond_line ∷ []);
  public_hosts =
      if is_empty hostname
      then []
      else host_block (codes "public_detached_") index hostname respond_line;
}

abbrev fullstack_routes :
    DeploymentRecord → ℕ → Text → DeploymentServiceRecord × DeploymentServiceRecord → Routes
fullstack_routes r index hostname (frontend, backend) =
    let api = codes "@local_api_" ++ decimal index in
    let public_api = codes "@public_api_" ++ decimal index in
    record {
      local = local_block r.app (
          indented (api ++ codes " path /api /api/*")
          ∷ indented (codes "handle " ++ api ++ codes " {")
          ∷ (9 ∷ proxy_line backend.port)
          ∷ indented (codes "}")
          ∷ indented (codes "handle {")
          ∷ (9 ∷ proxy_line frontend.port)
          ∷ indented (codes "}")
          ∷ []);
      public_hosts =
          if is_empty hostname
          then []
          else concat (
              public_api
              ∷ codes " {"
              ∷ newline
              ∷ indented (codes "host " ++ hostname)
              ∷ indented (codes "path /api /api/*")
              ∷ codes "}"
              ∷ newline
              ∷ codes "handle "
              ∷ public_api
              ∷ codes " {"
              ∷ newline
              ∷ proxy_line backend.port
              ∷ block_end
              ∷ host_block (codes "public_app_") index hostname (proxy_line frontend.port)
              ∷ []);
    }

abbrev map_result {ℓ κ} : {A : Type ℓ} {B : Type κ} → (A → B) → Result A → Result B
map_result f (ok a) = ok (f a)
map_result f (err e) = err e

unfoldable pub fullstack_proxy_route_fragments : DeploymentRecord → ℕ → Text → Result Routes
unfolding concat fullstack_proxy_services
fullstack_proxy_route_fragments r index hostname =
    map_result (fullstack_routes r index hostname) (fullstack_proxy_services r)

-- What one record adds to the files, and whether it takes a number among the public routes.
abbrev Added : Type 0
Added = Result (Routes × Bool)

abbrev single_service : DeploymentRecord → ℕ → Text → Routes × Bool
single_service r index hostname = (
  record {
    local = redirect r.app ++ local_block r.app (proxy_line r.port ∷ []);
    public_hosts =
        if is_empty hostname
        then []
        else host_block (codes "public_app_") index hostname (proxy_line r.port);
  },
  not (is_empty hostname),
)

abbrev no_routes : Routes
no_routes = record { local = []; public_hosts = [] }

abbrev joined : Routes → Routes → Routes
joined a b = record { local = a.local ++ b.local; public_hosts = a.public_hosts ++ b.public_hosts }

-- The body of the loop of syncProxyRoutes, for a normalised record.
unfoldable pub routes_of_record : (ℕ → ℕ) → ℕ → DeploymentRecord → Added
unfolding detached_proxy_route_fragments fullstack_proxy_route_fragments concat
routes_of_record beyond index r =
    let hostname = public_hostname_for_app beyond r.app in
    if is_empty r.app
    then ok (no_routes, false)
    else if r.database_detached
    then ok (detached_proxy_route_fragments r index hostname, true)
    else if at_most 0 r.port
    then ok (no_routes, false)
    else if r.strategy == Strategy.fullstack_vite_node
    then map_result
        (λ routes. (joined (record { local = redirect r.app; public_hosts = [] }) routes, true))
        (fullstack_proxy_route_fragments r index hostname)
    else ok (single_service r index hostname)

abbrev add_routes : Added → (Bool → Result Routes) → Result Routes
add_routes (ok (routes, counted)) rest = map_result (joined routes) (rest counted)
add_routes (err e) rest = err e

unfoldable pub routes_of_records : (ℕ → ℕ) → ℕ → List DeploymentRecord → Result Routes
routes_of_records beyond index [] = ok no_routes
routes_of_records beyond index (r ∷ rs) =
    add_routes (routes_of_record beyond index (normalize_deployment_record r))
      (λ counted. routes_of_records beyond (if counted then suc index else index) rs)

-- The route files of the deployments.
unfoldable pub route_files_of : (ℕ → ℕ) → List DeploymentRecord → Result Routes
unfolding routes_of_records sorted_by_app
route_files_of beyond records = routes_of_records beyond 0 (sorted_by_app records)
