-- ===== src/Proxy/Fullstack.antt =====
-- app/fullstack_strategy.go and app/proxy.go: the two services of a full-stack project.
use mini_deploy.Prelude.{
  ◌≡◌, ◌≢◌, at_most, Bool, true, false, ◌&&◌, ◌||◌, not, Option, none, some, List, [], ◌∷◌, arith,
  if◌then◌else◌, Bool-cases, inl, inr, ◌⊎◌, refl,
}
use mini_deploy.Text.{Text, ◌==◌, eq_iff, eq_sound, eq_refl, member}
use mini_deploy.Records.{DeploymentRecord, DeploymentServiceRecord}
use mini_deploy.Result.{Result, ok, err, fullstack_metadata}
use mini_deploy.Strategy
use mini_deploy.Config.{deployment_service_by_name, find_service}

-- The map `expected`.
abbrev expected_strategy : Text → Option Text
expected_strategy name =
    if name == Strategy.frontend_service
    then some Strategy.vite_static
    else if name == Strategy.backend_service
    then some Strategy.node_express
    else none

abbrev has_strategy : Option Text → Text → Bool
has_strategy none strategy = false
has_strategy (some expected) strategy = strategy == expected

-- The body of the loop, for a service behind those with the names `seen`.
unfoldable pub is_expected_service : List Text → DeploymentServiceRecord → Bool
unfolding ◌==◌ member
is_expected_service seen s =
    has_strategy (expected_strategy s.name) s.strategy
    && not (member s.name seen)
    && s.path == s.name

unfoldable pub validate_fullstack_service_metadata :
    List DeploymentServiceRecord → Result (Unit {0})
validate_fullstack_service_metadata (s ∷ t ∷ []) =
    if is_expected_service [] s && is_expected_service (s.name ∷ []) t
    then ok tt
    else err fullstack_metadata
validate_fullstack_service_metadata _ = err fullstack_metadata

abbrev both_listen :
    Option DeploymentServiceRecord
    → Option DeploymentServiceRecord
    → Result (DeploymentServiceRecord × DeploymentServiceRecord)
both_listen (some frontend) (some backend) =
    if at_most 0 frontend.port || at_most 0 backend.port
    then err fullstack_metadata
    else ok (frontend, backend)
both_listen _ _ = err fullstack_metadata

-- A service that is missing is Go's zero value, whose port is 0.
unfoldable pub fullstack_proxy_services :
    DeploymentRecord → Result (DeploymentServiceRecord × DeploymentServiceRecord)
unfolding validate_fullstack_service_metadata deployment_service_by_name
fullstack_proxy_services r = elim (validate_fullstack_service_metadata r.services) [
  | ok _ ↦
      both_listen (deployment_service_by_name r Strategy.frontend_service)
        (deployment_service_by_name r Strategy.backend_service)
  | err e ↦ err e
]

split_and : (a b : Bool) → (a && b) ≡ true → (a ≡ true) × (b ≡ true)
split_and a b h = ground arith

frontend_of_expected :
    (seen : List Text) (s : DeploymentServiceRecord)
    → is_expected_service seen s ≡ true
    → (s.name == Strategy.frontend_service) ≡ true
    → s.strategy ≡ Strategy.vite_static
unfolding is_expected_service
frontend_of_expected seen s h e = ground (arith, eq_iff s.strategy Strategy.vite_static)

backend_of_expected :
    (seen : List Text) (s : DeploymentServiceRecord)
    → is_expected_service seen s ≡ true
    → (s.name == Strategy.frontend_service) ≡ false
    → (s.name ≡ Strategy.backend_service) × (s.strategy ≡ Strategy.node_express)
unfolding is_expected_service
backend_of_expected seen s h e = (
  ground (arith, eq_iff s.name Strategy.backend_service),
  ground (arith, eq_iff s.strategy Strategy.node_express),
)

unseen :
    (s t : DeploymentServiceRecord) → is_expected_service (s.name ∷ []) t ≡ true → t.name ≢ s.name
unfolding is_expected_service
unseen s t h e = ground (arith, eq_iff t.name s.name)

is_backend :
    (s : DeploymentServiceRecord)
    → s.name ≡ Strategy.backend_service
    → (s.name == Strategy.frontend_service) ≡ false
unfolding ◌==◌
is_backend s e = rw e refl

is_frontend :
    (s : DeploymentServiceRecord)
    → (s.name == Strategy.frontend_service) ≡ true
    → (s.name == Strategy.backend_service) ≡ false
unfolding ◌==◌
is_frontend s e = rw (eq_sound s.name Strategy.frontend_service e) refl

-- The two services of a valid pair, by the name of the first.
pair_of_frontend :
    (s t : DeploymentServiceRecord)
    → is_expected_service [] s ≡ true
    → is_expected_service (s.name ∷ []) t ≡ true
    → (s.name == Strategy.frontend_service) ≡ true
    → (t.name == Strategy.frontend_service) ≡ false
pair_of_frontend s t h k e = elim (Bool-cases (t.name == Strategy.frontend_service)) [
  | inl f ↦ absurd (
      unseen s t k (
        cc (
          eq_sound t.name Strategy.frontend_service f,
          eq_sound s.name Strategy.frontend_service e,
        )))
  | inr f ↦ f
]

pair_of_backend :
    (s t : DeploymentServiceRecord)
    → is_expected_service [] s ≡ true
    → is_expected_service (s.name ∷ []) t ≡ true
    → (s.name == Strategy.frontend_service) ≡ false
    → (t.name == Strategy.frontend_service) ≡ true
pair_of_backend s t h k e = elim (Bool-cases (t.name == Strategy.frontend_service)) [
  | inl f ↦ f
  | inr f ↦ absurd (
      unseen s t k
        (cc ((backend_of_expected [] s h e).0, (backend_of_expected (s.name ∷ []) t k f).0)))
]

-- Metadata that is valid is that of one frontend that Vite builds and one backend that Node runs,
-- which are found under their names.
pub validate_fullstack_service_metadata_lem :
    (ss : List DeploymentServiceRecord)
    → validate_fullstack_service_metadata ss ≡ ok tt
    → (frontend : DeploymentServiceRecord) × (backend : DeploymentServiceRecord) × (find_service
          Strategy.frontend_service ss
        ≡ some frontend)
      × (find_service Strategy.backend_service ss ≡ some backend)
      × (frontend.strategy ≡ Strategy.vite_static)
      × (backend.strategy ≡ Strategy.node_express)
      × ((ss ≡ frontend ∷ backend ∷ []) ⊎ (ss ≡ backend ∷ frontend ∷ []))
unfolding validate_fullstack_service_metadata find_service
validate_fullstack_service_metadata_lem [] h = cc
validate_fullstack_service_metadata_lem (s ∷ []) h = cc
validate_fullstack_service_metadata_lem (s ∷ t ∷ u ∷ ss) h = cc
validate_fullstack_service_metadata_lem (s ∷ t ∷ []) h =
    let both =
      split_and (is_expected_service [] s) (is_expected_service (s.name ∷ []) t) (ground arith) in
    elim (Bool-cases (s.name == Strategy.frontend_service)) [
      | inl e ↦
          let f = pair_of_frontend s t both.0 both.1 e in
          let b = backend_of_expected (s.name ∷ []) t both.1 f in
          (
            s,
            t,
            rw e,
            rw (is_frontend s e, b.0, eq_refl),
            frontend_of_expected [] s both.0 e,
            b.1,
            inl refl,
          )
      | inr e ↦
          let f = pair_of_backend s t both.0 both.1 e in
          let b = backend_of_expected [] s both.0 e in
          (
            t,
            s,
            rw (e, f),
            rw (b.0, eq_refl),
            frontend_of_expected (s.name ∷ []) t both.1 f,
            b.1,
            inr refl,
          )
    ]
