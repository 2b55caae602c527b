-- ===== src/Lifecycle/Keeps.antt =====
-- The release in service is spared: an action stops and removes none of its containers,
-- its images and its network.
pub mod Files
pub mod Containers
pub mod Checkout
pub mod Settled
pub mod Database
use mini_deploy.Prelude.{◌≡◌, refl, Bool, true, false, ◌||◌, List, keep_if, any, arith}
use mini_deploy.Text.{Text, ◌==◌}
use mini_deploy.Records.{DeploymentRecord}
use mini_deploy.Result.{Error}
use mini_deploy.World.{
  World, Io, Host, Event, Event.docker_rm, Event.docker_stop, Event.image_rm, Event.network_rm,
  record_event, run, request, modify,
}
use mini_deploy.World.Keeps.{removes, Calm, Allows, Keeps, Keeps-run, Keeps-request, Keeps-modify}

-- The containers and the images that a record names, with those of its services.
abbrev pub has_container : DeploymentRecord → Text → Bool
has_container old container =
    container == old.container || any (λ s. container == s.container) old.services

abbrev pub has_image : DeploymentRecord → Text → Bool
has_image old image = image == old.image || any (λ s. image == s.image) old.services

-- The event stops or removes what the record runs on.
abbrev pub touches : DeploymentRecord → Event → Bool
touches old (docker_rm container) = has_container old container
touches old (docker_stop container) = has_container old container
touches old (image_rm image) = has_image old image
touches old (network_rm network) = network == old.network
touches old _ = false

touches-removes : (old : DeploymentRecord) (e : Event) → removes e ≡ false → touches old e ≡ false
touches-removes old (docker_rm c) h = cc
touches-removes old (docker_stop c) h = cc
touches-removes old (image_rm i) h = cc
touches-removes old (network_rm n) h = cc
touches-removes old _ h = refl

-- Since the world `v` nothing has touched the release of `old`.
pub record Spares (old : DeploymentRecord) (v w : World) : Type 0 where
  pub host : w.host ≡ v.host
  pub untouched : keep_if (touches old) w.trace ≡ keep_if (touches old) v.trace

module _ (old : DeploymentRecord) (v : World) where
  pub Spares-event : (e : Event) → touches old e ≡ false → Allows (Spares old v) e
  unfolding record_event
  Spares-event e h w k = record { host = k.host; untouched = ground (arith, k.untouched) }

  pub Spares-run :
      (e : Event) (error : Error) → touches old e ≡ false → Keeps (Spares old v) (run e error)
  Spares-run e error h = Keeps-run e error (Spares-event e h)

  pub Spares-request : (e : Event) → touches old e ≡ false → Keeps (Spares old v) (request e)
  Spares-request e h = Keeps-request e (Spares-event e h)

  pub calm-Spares : Calm (Spares old v)
  calm-Spares e h = Spares-event e (touches-removes old e h)

  -- A change of the files.
  pub Spares-modify :
      (f : World → World)
      → ((w : World) → (f w).host ≡ w.host)
      → ((w : World) → (f w).trace ≡ w.trace)
      → Keeps (Spares old v) (modify f)
  Spares-modify f h k =
      Keeps-modify f (λ w s. record { host = cc (h w, s.host); untouched = rw (k w) s.untouched })
