-- ===== src/Lifecycle/Unchanged.antt =====
-- Only a save, a deletion and a change of visibility change the stored deployments: what a deployment of app/deploy.go,
-- app/rollback.go, app/fullstack_lifecycle.go or app/minibase_lifecycle.go does before it saves leaves them.
pub mod Files
pub mod Containers
pub mod Checkout
pub mod Database
pub mod Steps
use mini_deploy.Prelude.{◌≡◌, refl}
use mini_deploy.Result.{Error}
use mini_deploy.World.{World, Io, Event, record_event, run, request, ◌>>=◌}
use mini_deploy.World.Keeps.{removes, Calm, Allows, Keeps, Keeps-run, Keeps-request}
use mini_deploy.World.Returns.{Returns, Returns-bind, Returns-of}
use mini_deploy.Store.Effects.{view}

-- Since the world `v` neither the host nor the stored deployments have changed.
pub record Unchanged (v w : World) : Type 0 where
  pub host : w.host ≡ v.host
  pub stored : view w.store_file ≡ view v.store_file

module _ (v : World) where
  pub Unchanged-start : Unchanged v v
  Unchanged-start = record { host = refl; stored = refl }

  pub Unchanged-event : (e : Event) → Allows (Unchanged v) e
  unfolding record_event
  Unchanged-event e w k = record { host = k.host; stored = k.stored }

  pub Unchanged-run : (e : Event) (error : Error) → Keeps (Unchanged v) (run e error)
  Unchanged-run e error = Keeps-run e error (Unchanged-event e)

  pub Unchanged-request : (e : Event) → Keeps (Unchanged v) (request e)
  Unchanged-request e = Keeps-request e (Unchanged-event e)

  pub calm-Unchanged : Calm (Unchanged v)
  calm-Unchanged e h = Unchanged-event e

  -- A step that changes nothing, and what follows it.
  pub Returns-Unchanged {ℓ κ} :
      {A : Type ℓ} {B : Type κ} (R : B → World → Type 0) (m : Io A) (f : A → Io B) (w : World)
      → Keeps (Unchanged v) m
      → Unchanged v w
      → ((a : A) (u : World) → Unchanged v u → Returns R (f a) u)
      → Returns R (m >>= f) w
  Returns-Unchanged R m f w k h next =
      Returns-bind (λ _. Unchanged v) R m f w (Returns-of _ m w λ _ _. k.at w h) next
