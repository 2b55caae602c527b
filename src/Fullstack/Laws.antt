-- ===== src/Fullstack/Laws.antt =====
-- The names that app/fullstack_runtime.go generates pass its checks of a record.
use mini_deploy.Prelude.{
  ◌≡◌, refl, ap, none, some, true, ◌&&◌, ◌||◌, ◌++◌, Bool, Bool-cases, false, inl, inr, arith,
  every,
}
use mini_deploy.Text.{
  Text, codes, ◌==◌, has_prefix, trim_prefix, after_prefix, after_prefix-append, eq_iff,
}
use mini_deploy.Result.{Result, Error, ok, err, ◌>>◌, >>=-eq-ok, guard, fullstack_metadata}
use mini_deploy.Path.{validate_application_name}
use mini_deploy.Lifecycle.Retire.{is_trusted_docker_identifier, is_identifier_rune, has_dots}
use mini_deploy.Fullstack.{
  container_prefix, is_fullstack_container_kind, is_fullstack_service_name,
  fullstack_release_network_name, fullstack_service_container_name, fullstack_service_image_name,
  image_prefix, is_named, network_prefix, validate_fullstack_container_record,
  validate_fullstack_image_record, validate_fullstack_network_record,
}

has_prefix-append : (prefix rest : Text) → has_prefix (prefix ++ rest) prefix ≡ true
unfolding has_prefix
has_prefix-append prefix rest =
    ap (λ o. elim o [ none ↦ false | some _ ↦ true ]) (after_prefix-append prefix rest)

trim_prefix-append : (prefix rest : Text) → trim_prefix (prefix ++ rest) prefix ≡ rest
unfolding trim_prefix
trim_prefix-append prefix rest =
    ap (λ o. elim o [ none ↦ prefix ++ rest | some t ↦ t ]) (after_prefix-append prefix rest)

is_named-append :
    (prefix rest : Text)
    → is_trusted_docker_identifier rest ≡ true
    → is_named prefix (prefix ++ rest) ≡ true
is_named-append prefix rest h = rw (has_prefix-append prefix rest, trim_prefix-append prefix rest) h

trusted_parts :
    (s : Text)
    → is_trusted_docker_identifier s ≡ true
    → (every is_identifier_rune s ≡ true) × (has_dots s ≡ false)
unfolding is_trusted_docker_identifier
trusted_parts s h = (ground arith, ground arith)

trusted_release :
    (s : Text)
    → is_trusted_docker_identifier s ≡ true
    → is_trusted_docker_identifier (codes "release" ++ codes "-" ++ s) ≡ true
unfolding is_trusted_docker_identifier has_dots has_prefix after_prefix ◌==◌
trusted_release s h = let (a, b) = trusted_parts s h in rw (a, b) refl

trusted_candidate :
    (s : Text)
    → is_trusted_docker_identifier s ≡ true
    → is_trusted_docker_identifier (codes "candidate" ++ codes "-" ++ s) ≡ true
unfolding is_trusted_docker_identifier has_dots has_prefix after_prefix ◌==◌
trusted_candidate s h = let (a, b) = trusted_parts s h in rw (a, b) refl

trusted_rollback :
    (s : Text)
    → is_trusted_docker_identifier s ≡ true
    → is_trusted_docker_identifier (codes "rollback" ++ codes "-" ++ s) ≡ true
unfolding is_trusted_docker_identifier has_dots has_prefix after_prefix ◌==◌
trusted_rollback s h = let (a, b) = trusted_parts s h in rw (a, b) refl

or_last : (a b c : Bool) → (a || b || c) ≡ true → a ≡ false → b ≡ false → c ≡ true
or_last false false c k h i = k
or_last true b c k h i = cc
or_last false true c k h i = cc

-- A kind of container and a trusted release make a trusted identifier.
trusted_kind :
    (kind s : Text)
    → is_fullstack_container_kind kind ≡ true
    → is_trusted_docker_identifier s ≡ true
    → is_trusted_docker_identifier (kind ++ codes "-" ++ s) ≡ true
unfolding is_fullstack_container_kind ◌==◌
trusted_kind kind s k h = elim (Bool-cases (kind == codes "release")) [
  | inl a ↦ rw ((eq_iff kind (codes "release")).0 a) (trusted_release s h)
  | inr a ↦ elim (Bool-cases (kind == codes "candidate")) [
    | inl b ↦ rw ((eq_iff kind (codes "candidate")).0 b) (trusted_candidate s h)
    | inr b ↦
        let c : (kind == codes "rollback") ≡ true = or_last _ _ _ k a b in
        rw ((eq_iff kind (codes "rollback")).0 c) (trusted_rollback s h)
  ]
]

pub guard-true : (b : Bool) (e : Error) (u : Unit {0}) → guard b e ≡ ok u → b ≡ true
guard-true true e u h = refl
guard-true false e u h = cc

guard_ok : (b : Bool) (e : Error) → b ≡ true → guard b e ≡ ok tt
guard_ok true e h = refl
guard_ok false e h = cc

pub and_true : (a b : Bool) → (a && b) ≡ true → (a ≡ true) × (b ≡ true)
and_true true b h = (refl, h)
and_true false b h = cc

true_and : (a b : Bool) → a ≡ true → b ≡ true → (a && b) ≡ true
true_and true b h k = k
true_and false b h k = cc

then_ok : (r q : Result (Unit {0})) (u : Unit {0}) → r ≡ ok u → q ≡ ok tt → (r >> q) ≡ ok tt
then_ok (ok x) q u h k = k
then_ok (err x) q u h k = cc

then_guard :
    (r : Result (Unit {0})) (b : Bool) (e : Error) (u : Unit {0})
    → r ≡ ok u
    → b ≡ true
    → (r >> guard b e) ≡ ok tt
then_guard (ok x) true e u h k = refl
then_guard (ok x) false e u h k = cc
then_guard (err x) b e u h k = cc

network_name-valid :
    (app release name : Text)
    → fullstack_release_network_name app release ≡ ok name
    → validate_fullstack_network_record app name ≡ ok tt
unfolding fullstack_release_network_name validate_fullstack_network_record
network_name-valid app release name h =
    let (u, e, k) = >>=-eq-ok (validate_application_name app) _ h in
    let (v, f, l) =
      >>=-eq-ok (guard (is_trusted_docker_identifier release) fullstack_metadata) _ k in
    let named = is_named-append (network_prefix app) release (guard-true _ _ v f) in
    let same : network_prefix app ++ release ≡ name = ground (arith, l) in
    then_guard _ _ _ u e (rw⁻¹ same named)

image_name-valid :
    (app service release name : Text)
    → fullstack_service_image_name app service release ≡ ok name
    → validate_fullstack_image_record app service name ≡ ok tt
unfolding fullstack_service_image_name validate_fullstack_image_record
image_name-valid app service release name h =
    let (u, e, k) = >>=-eq-ok (validate_application_name app) _ h in
    let (v, f, l) =
      >>=-eq-ok
        (guard (is_fullstack_service_name service && is_trusted_docker_identifier release)
          fullstack_metadata)
        _ k in
    let both = and_true (is_fullstack_service_name service) _ (guard-true _ _ v f) in
    let named = is_named-append (image_prefix app service) release both.1 in
    let same : image_prefix app service ++ release ≡ name = ground (arith, l) in
    then_guard _ _ _ u e (true_and _ _ both.0 (rw⁻¹ same named))

container_name-valid :
    (app service kind release name : Text)
    → fullstack_service_container_name app service kind release ≡ ok name
    → validate_fullstack_container_record app service name ≡ ok tt
unfolding fullstack_service_container_name validate_fullstack_container_record
container_name-valid app service kind release name h =
    let (u, e, k) = >>=-eq-ok (validate_application_name app) _ h in
    let (v, f, l) =
      >>=-eq-ok
        (guard
          (is_fullstack_service_name service
            && is_fullstack_container_kind kind
            && is_trusted_docker_identifier release)
          fullstack_metadata)
        _ k in
    let all =
      and_true (is_fullstack_service_name service && is_fullstack_container_kind kind) _
        (guard-true _ _ v f) in
    let both = and_true (is_fullstack_service_name service) _ all.0 in
    let named =
      is_named-append (container_prefix app service) (kind ++ codes "-" ++ release)
        (trusted_kind kind release both.1 all.1) in
    let same : container_prefix app service ++ (kind ++ codes "-" ++ release) ≡ name =
      ground (arith, l) in
    then_ok _ _ u e (
      then_guard (guard (is_fullstack_service_name service) fullstack_metadata) _ _ tt
        (guard_ok _ _ both.0) (rw⁻¹ same named))

-- The names that are generated for a release of an application pass the checks of the names in its record:
-- that of its network, and that of the containers and the images of its services.
pub fullstack_names-valid :
    (app release service kind network container image : Text)
    → fullstack_release_network_name app release ≡ ok network
    → fullstack_service_container_name app service kind release ≡ ok container
    → fullstack_service_image_name app service release ≡ ok image
    → (validate_fullstack_network_record app network ≡ ok tt)
      × (validate_fullstack_container_record app service container ≡ ok tt)
      × (validate_fullstack_image_record app service image ≡ ok tt)
fullstack_names-valid app release service kind network container image n c i = (
  network_name-valid app release network n,
  container_name-valid app service kind release container c,
  image_name-valid app service release image i,
)
