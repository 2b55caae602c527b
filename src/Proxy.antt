-- ===== src/Proxy.antt =====
-- app/proxy.go: the Caddy routes of all deployments, and their synchronisation.
pub mod Hostname
pub mod Fullstack
pub mod RouteFiles
pub mod Effects
use mini_deploy.Prelude.{List, [], ◌∷◌, map}
use mini_deploy.Text.{Text}
use mini_deploy.Records.{DeploymentRecord}
use mini_deploy.Result.{Error, write_routes, reload_proxy}
use RouteFiles.{route_files_of}
use mini_deploy.Store
use mini_deploy.World.{
  World, Io, Routes, File.local_routes, File.public_routes, Event.caddy_reload, run, lift, gets,
  modify, replace_file, ◌>>=◌, ◌>>◌,
}

-- A successful reload makes Caddy serve the route files; after a failed one it serves what it did.
unfoldable pub reload : Io (Unit {0})
reload = do run caddy_reload reload_proxy; modify (λ w. record w { live = w.route_files })

unfoldable pub write_proxy_routes : Routes → Io (Unit {0})
write_proxy_routes routes = do
  replace_file local_routes write_routes
      (λ w. record w { route_files = record w.route_files { local = routes.local } })
  replace_file public_routes write_routes
      (λ w. record w { route_files = record w.route_files { public_hosts = routes.public_hosts } })

unfoldable pub sync_proxy_routes : Io (Unit {0})
sync_proxy_routes = do
  records ← Store.list
  beyond ← gets (λ w. w.host.lower_beyond)
  routes ← lift (route_files_of beyond records)
  write_proxy_routes routes
  reload
