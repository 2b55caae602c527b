-- ===== src/Lifecycle/Live.antt =====
-- What is stored and served once a record is saved and the routes of the proxy are synchronised.
use mini_deploy.Prelude.{◌≡◌, refl, ap, ◌∙◌, sym, Option, none, some, List}
use mini_deploy.Text.{Text}
use mini_deploy.Records.{DeploymentRecord}
use mini_deploy.Result.{Result, ok, err}
use mini_deploy.World.{World, Host, Io, pure, ◌>>=◌}
use mini_deploy.World.Spec.{Outcome}
use mini_deploy.World.Returns.{
  Returns, Returns-of, Returns-pure, Returns-bind, Returns-on_error, returned,
}
use mini_deploy.World.Handle.{on_error}
use mini_deploy.Store
use mini_deploy.Store.{find_deployment}
use mini_deploy.Store.Contract.{Changes, saved_as, save-Changes}
use mini_deploy.Store.Effects.{Leaves, view}
use mini_deploy.Proxy.{sync_proxy_routes}
use mini_deploy.Proxy.RouteFiles.{route_files_of}
use mini_deploy.Proxy.Effects.{Serves, Unserved, sync_proxy_routes-Serves}
use mini_deploy.Lifecycle.Unchanged.{Unchanged}

abbrev pub found_among : Option (List DeploymentRecord) → Text → Option DeploymentRecord
found_among none app = none
found_among (some records) app = find_deployment app records

-- The record that the file of a world holds for an application.
abbrev pub stored_record : World → Text → Option DeploymentRecord
stored_record v app = found_among (view v.store_file) app

-- The file of `w` holds the record for its application, with the visibility that the application had in `v`, if it
-- had a record there.
pub record Stored (v : World) (d : DeploymentRecord) (w : World) : Type 0 where
  pub records : List DeploymentRecord
  pub parsed : view w.store_file ≡ some records
  pub found : find_deployment d.app records ≡ some (saved_as d (stored_record v d.app))

-- The same, and Caddy serves the routes of the deployments in the file.
pub record Live (host : Host) (v : World) (d : DeploymentRecord) (w : World) : Type 0 where
  pub records : List DeploymentRecord
  pub stored : view w.store_file ≡ some records
  pub found : find_deployment d.app records ≡ some (saved_as d (stored_record v d.app))
  pub served : route_files_of host.lower_beyond records ≡ ok w.live
  pub same_host : w.host ≡ host

-- The same by the host of the world itself.
abbrev pub Settled : World → DeploymentRecord → World → Type 0
Settled v d w = Live w.host v d w

pub Live-Settled :
    (host : Host) (v : World) (d : DeploymentRecord) (w : World) → Live host v d w → Settled v d w
Live-Settled host v d w l = record {
  records = l.records;
  stored = l.stored;
  found = l.found;
  served = ap (λ (t : Host). route_files_of t.lower_beyond l.records) l.same_host ∙ l.served;
  same_host = refl;
}

-- Behind a Save in a world with the deployments of `v`.
record Saved (v : World) (d : DeploymentRecord) (w : World) : Type 0 where
  same_host : w.host ≡ v.host
  stored : Stored v d w

saved :
    (v w : World) (d : DeploymentRecord) (r : Result (Unit {0})) (w' : World)
    → Unchanged v w
    → Outcome
        (λ _ u. (was : Option DeploymentRecord) × Changes d.app was (some (saved_as d was)) w u)
        (Leaves w (view w.store_file))
        r
        w'
    → (a : Unit {0}) → r ≡ ok a
    → Saved v d w'
saved v w d (ok _) w' k (was, c) a e =
    let same : was ≡ stored_record v d.app =
      sym c.found
      ∙ ap (λ (o : Option (List DeploymentRecord)). found_among o d.app)
          (sym c.parsed ∙ k.stored) in
    record {
      same_host = c.rest.host ∙ k.host;
      stored = record {
        records = c.later;
        parsed = c.written;
        found = c.finds ∙ ap (λ (o : Option DeploymentRecord). some (saved_as d o)) same;
      };
    }
saved v w d (err x) w' k l a e = cc

Returns-Saved :
    (v : World) (d : DeploymentRecord) (w : World)
    → Unchanged v w
    → Returns (λ _. Saved v d) (Store.save d) w
Returns-Saved v d w k =
    Returns-of _ (Store.save d) w
      (saved v w d (Store.save d w).0 (Store.save d w).1 k (save-Changes d w))

pub save-Stored :
    (v : World) (d : DeploymentRecord) (w : World)
    → Unchanged v w
    → Returns (λ _. Stored v d) (Store.save d) w
save-Stored v d w k =
    Returns-of _ (Store.save d) w
      λ a e. (saved v w d (Store.save d w).0 (Store.save d w).1 k (save-Changes d w) a e).stored

of_some : (xs ys : List DeploymentRecord) → some xs ≡ some ys → xs ≡ ys
of_some xs ys h = cc

live :
    (v : World) (d : DeploymentRecord) (u w : World) → Saved v d u → Serves u w → Live v.host v d w
live v d u w s h =
    let same : h.records ≡ s.stored.records = of_some _ _ (sym h.parsed ∙ s.stored.parsed) in
    record {
      records = h.records;
      stored = h.deployments;
      found = ap (λ (ds : List DeploymentRecord). find_deployment d.app ds) same ∙ s.stored.found;
      served =
          ap (λ (t : Host). route_files_of t.lower_beyond h.records) (sym s.same_host)
          ∙ h.built
          ∙ ap ok (sym h.live);
      same_host = h.host ∙ s.same_host;
    }

synced :
    (v : World) (d : DeploymentRecord) (u : World) (r : Result (Unit {0})) (w : World)
    → Saved v d u
    → Outcome (λ _. Serves u) (Unserved u) r w
    → (a : Unit {0}) → r ≡ ok a
    → Live v.host v d w
synced v d u (ok _) w s h a e = live v d u w s h
synced v d u (err x) w s h a e = cc

-- A save and a synchronisation, whatever is done where one of them fails.
pub Returns-saved_and_synced :
    (v : World) (d : DeploymentRecord) (unsave unsync : Io (Unit {0})) (w : World)
    → Unchanged v w
    → Returns
        (Live v.host v)
        (on_error (Store.save d) unsave >>= λ _. on_error sync_proxy_routes unsync >>= λ _. pure d)
        w
Returns-saved_and_synced v d unsave unsync w k =
    Returns-bind (λ _. Saved v d) _ _ _ w (Returns-on_error _ _ _ w (Returns-Saved v d w k))
      λ _ u s.
        Returns-bind (λ _. Live v.host v d) _ _ _ u
          (Returns-on_error _ _ _ u (
            Returns-of _ sync_proxy_routes u (
              synced v d u (sync_proxy_routes u).0 (sync_proxy_routes u).1 s
                (sync_proxy_routes-Serves u))))
          λ _ t l. Returns-pure _ d t l

-- A result settled for its host is settled.
pub Returns-Settled :
    (v : World) (m : Io DeploymentRecord) (w : World)
    → Returns (Live v.host v) m w
    → Returns (Settled v) m w
Returns-Settled v m w h =
    Returns-of _ m w λ d e. Live-Settled v.host v d _ (returned (Live v.host v) m w d h e)
