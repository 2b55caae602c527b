-- ===== src/Fullstack/Resources/Ownership.antt =====
-- A container that is removed belongs to its application and service.
use mini_deploy.Prelude.{
  ◌≡◌, refl, Bool, Bool-cases, true, false, ◌⊎◌, inl, inr, Option, none, some, keep_if, arith,
}
use mini_deploy.Text.{Text, eq_iff, is_empty, trim_space}
use mini_deploy.Result.{Error, Result, ok, err}
use mini_deploy.World.{
  World, Event, Event.container_labels, Event.docker_rm, Event.network_rm, Event.image_rm, io,
}
use mini_deploy.Fullstack.{validate_fullstack_container_record}
use mini_deploy.Fullstack.Resources.{
  container_owner, remove_fullstack_container, remove_verified,
  verify_fullstack_container_ownership, says_missing,
}

abbrev pub removes : Event → Bool
removes (docker_rm container) = true
removes (network_rm network) = true
removes (image_rm image) = true
removes _ = false

-- The name of the container passes its check, and its labels name the application and the service.
pub record IsOwned (app service container : Text) (w : World) : Type 0 where
  pub valid : validate_fullstack_container_record app service container ≡ ok tt
  pub labels : Text
  pub answer : w.host.answer w.trace (container_labels container) ≡ some labels
  pub owner : trim_space labels ≡ container_owner app service

module _ (app service container : Text) (w : World) where
  verify_ownership-IsOwned :
      (v : Result (Unit {0})) (o : Option Text) (u : Unit {0})
      → validate_fullstack_container_record app service container ≡ v
      → w.host.answer w.trace (container_labels container) ≡ o
      → (verify_fullstack_container_ownership app service container w).0 ≡ ok u
      → IsOwned app service container w
  unfolding verify_fullstack_container_ownership io
  verify_ownership-IsOwned (err e) o u e1 e2 h = let h' = rw e1 at h in cc
  verify_ownership-IsOwned (ok x) none u e1 e2 h = let h' = rw (e1, e2) at h in cc
  verify_ownership-IsOwned (ok x) (some labels) u e1 e2 h = record {
    valid = e1;
    labels = labels;
    answer = e2;
    owner = ground (arith, e1, e2, h, eq_iff (trim_space labels) (container_owner app service));
  }

  verify-keeps :
      keep_if removes (verify_fullstack_container_ownership app service container w).1.trace
      ≡ keep_if removes w.trace
  unfolding verify_fullstack_container_ownership io
  verify-keeps = ground arith

  after_verified :
      (missing : Error → Bool) (r : Result (Unit {0})) (w1 : World)
      → keep_if removes w1.trace ≡ keep_if removes w.trace
      → ((u : Unit {0}) → r ≡ ok u → IsOwned app service container w)
      → (keep_if removes (remove_verified container missing r w1).1.trace ≡ keep_if removes w.trace)
        ⊎ IsOwned app service container w
  unfolding remove_verified io
  after_verified missing (ok u) w1 h k = inr (k u refl)
  after_verified missing (err e) w1 h k = inl (ground (arith, h))

  -- The removal of a container of a service runs a command that removes something only where the container
  -- is owned: its name passes the check, and its labels name the application and the service.
  pub remove_fullstack_container-IsOwned :
      (keep_if removes (remove_fullstack_container app service container w).1.trace
        ≡ keep_if removes w.trace)
      ⊎ IsOwned app service container w
  unfolding remove_fullstack_container io
  remove_fullstack_container-IsOwned = elim (Bool-cases (is_empty container)) [
    | inl a ↦ inl (rw a refl)
    | inr a ↦ rw a (
        after_verified (says_missing app container w)
          (verify_fullstack_container_ownership app service container w).0
          (verify_fullstack_container_ownership app service container w).1 verify-keeps
          (λ u h. verify_ownership-IsOwned _ _ u refl refl h))
  ]
