-- ===== src/Proxy/Effects.antt =====
-- What syncProxyRoutes of app/proxy.go leaves, on success and on every failure.
use mini_deploy.Prelude.{◌≡◌, refl, ap, some, List, arith}
use mini_deploy.Records.{DeploymentRecord}
use mini_deploy.Result.{Result, ok, err}
use mini_deploy.World.{World, Host, Routes, io, continue, ◌>>◌}
use mini_deploy.World.Spec.{Outcome, Runs}
use mini_deploy.Store
use mini_deploy.Store.{load}
use mini_deploy.Store.Effects.{view, Loaded, load-Loaded}
use mini_deploy.Proxy.{reload, write_proxy_routes, sync_proxy_routes}
use mini_deploy.Proxy.RouteFiles.{route_files_of}

-- Caddy serves what it did, and the deployments are as they were.
pub record Unserved (w w' : World) : Type 0 where
  pub live : w'.live ≡ w.live
  pub deployments : view w'.store_file ≡ view w.store_file

-- Caddy serves the routes of the deployments, which are as they were, and the files hold them.
pub record Serves (w w' : World) : Type 0 where
  pub records : List DeploymentRecord
  pub parsed : view w.store_file ≡ some records
  pub routes : Routes
  pub built : route_files_of w.host.lower_beyond records ≡ ok routes
  pub files : w'.route_files ≡ routes
  pub live : w'.live ≡ routes
  pub deployments : view w'.store_file ≡ some records
  pub host : w'.host ≡ w.host

record Published (routes : Routes) (w w' : World) : Type 0 where
  host : w'.host ≡ w.host
  files : w'.route_files ≡ routes
  live : w'.live ≡ routes
  store_file : w'.store_file ≡ w.store_file

record Unpublished (w w' : World) : Type 0 where
  live : w'.live ≡ w.live
  store_file : w'.store_file ≡ w.store_file

publish-Published :
    (routes : Routes) (w : World)
    → Runs (λ _. Published routes w) (Unpublished w) (write_proxy_routes routes >> reload) w
unfolding write_proxy_routes reload io
publish-Published routes w = ground arith

-- A synchronisation that returns without an error makes Caddy serve, and the route files hold, the routes
-- of the deployments in the file. One that fails leaves what Caddy serves. The deployments do not change.
pub sync_proxy_routes-Serves : (w : World) → Runs (λ _. Serves w) (Unserved w) sync_proxy_routes w
unfolding sync_proxy_routes Store.list io
sync_proxy_routes-Serves w = go (load w).0 (load w).1 (load-Loaded w)
  where
    published :
        (records : List DeploymentRecord) (w1 : World) (r : Result Routes)
        → Loaded w (ok records) w1
        → route_files_of w1.host.lower_beyond records ≡ r
        → let (r', w') = continue r (λ routes. write_proxy_routes routes >> reload) w1 in
          Outcome (λ _. Serves w) (Unserved w) r' w'
    published records w1 (ok routes) h e = ground (
      arith,
      publish-Published routes w1,
      h.1.rest.host,
      ap (λ (host : Host). route_files_of host.lower_beyond records) h.1.rest.host,
    )
    published records w1 (err x) h e = ground arith

    go :
        (r : Result (List DeploymentRecord)) (w1 : World)
        → Loaded w r w1
        → let (r', w') =
            continue r
              (λ records v.
                continue
                  (route_files_of v.host.lower_beyond records)
                  (λ routes. write_proxy_routes routes >> reload)
                  v)
              w1 in
          Outcome (λ _. Serves w) (Unserved w) r' w'
    go (ok records) w1 h = published records w1 (route_files_of w1.host.lower_beyond records) h refl
    go (err x) w1 h = ground arith
