-- ===== src/Detect/Laws.antt =====
-- A detected plan, and the plan of a record that persists it: app/deployment_strategy.go.
use mini_deploy.Prelude.{
  ℕ, ◌≡◌, refl, ap, sym, Bool, true, false, Option, none, some, List, [], ◌∷◌, Bool-cases, inl, inr,
  ◌⊎◌, ◌≢◌, arith,
}
use mini_deploy.Text.{Text, codes, ◌==◌, eq_iff}
use mini_deploy.Result.{Result, ok, err, >>=-eq-ok}
use mini_deploy.Records.{DeploymentRecord}
use mini_deploy.Strategy
use mini_deploy.Config.{normalized_container_port, normalize_deployment_record}
use mini_deploy.Path.{FilePath}
use mini_deploy.Checkout.{Disk, Manifest, repository_regular_file}
use mini_deploy.Config.Laws.{health_path-health_path}
use mini_deploy.Detect.{
  or_else, as_project, detect_deployment_strategy, deployment_strategy_for_record,
}
use mini_deploy.Detect.Plan.{
  BuildPlan, ProjectPlan, ServicePlan, single, DeploymentConfig, install_ci, vite_static_build_plan,
  node_express_build_plan,
}
use mini_deploy.Detect.Npm.{
  npm_install_mode, check_install_mode, validated_package_lock, read_node_package_manifest, is_some,
  repository_has_vite_config,
}
use mini_deploy.Detect.Project.{
  detect_dockerfile, persisted_dockerfile, detect_fullstack, single_strategy, project_of,
  resolved_repository_service_directory, if_found, dockerfile_plan,
}
use mini_deploy.Detect.Vite.{detect_vite, persisted_vite, persisted_vite_plan, vite_plan}
use mini_deploy.Detect.Node.{
  detect_node, persisted_node, check_node, NodeCheck, supported, unconventional, no_express,
  no_entrypoint, other_manager, detected_node, persisted_node_plan, node_plan,
}

-- The install mode that a detection chooses passes the check of a persisted one.
check_install_mode-npm_install_mode :
    (disk : Disk) (root : FilePath) (mode : Text)
    → npm_install_mode disk root ≡ ok mode
    → check_install_mode disk root mode ≡ ok tt
unfolding npm_install_mode check_install_mode ◌==◌
check_install_mode-npm_install_mode disk root mode h =
    let (path, e, k) =
      >>=-eq-ok (repository_regular_file disk root (codes "package-lock.json")) _ h in
    elim (Bool-cases (is_some path)) [
      | inl b ↦
          let (v, e', k') =
            >>=-eq-ok (validated_package_lock disk root) (λ _. ok install_ci) (rw b at k) in
          ground (arith, e', k')
      | inr b ↦ ground (arith, k, b)
    ]

module _ (disk : Disk) (root : FilePath) (plan : BuildPlan) where
  vite_plan_lem :
      (c : Option Bool) (b : Bool) (mode : Text)
      → vite_plan disk root c b ≡ ok (some plan)
      → plan.package_install_mode ≡ mode
      → persisted_vite_plan disk root mode c ≡ ok plan
  unfolding vite_static_build_plan
  vite_plan_lem none b mode h e = cc
  vite_plan_lem (some append) false mode h e = cc
  vite_plan_lem (some append) true mode h e =
      let (m, k, l) = >>=-eq-ok (npm_install_mode disk root) _ h in
      let same : m ≡ mode = cc in
      rw (← same) (ground (arith, check_install_mode-npm_install_mode disk root m k, l))

  vite_plan-npm :
      (c : Option Bool) (b : Bool)
      → vite_plan disk root c b ≡ ok (some plan)
      → (plan.strategy ≡ Strategy.vite_static) × (plan.package_manager ≡ Strategy.npm)
  unfolding vite_static_build_plan
  vite_plan-npm none b h = cc
  vite_plan-npm (some append) false h = cc
  vite_plan-npm (some append) true h =
      let (m, k, l) = >>=-eq-ok (npm_install_mode disk root) _ h in (cc, cc)

  vite_of_manifest :
      (m : Option Manifest) (r : DeploymentRecord)
      → (read_node_package_manifest disk root ≡ ok m)
      → detect_vite disk root ≡ ok (some plan)
      → r.package_manager ≡ plan.package_manager
      → r.package_install_mode ≡ plan.package_install_mode
      → (plan.strategy ≡ Strategy.vite_static) × (persisted_vite disk root r ≡ ok plan)
  unfolding detect_vite persisted_vite
  vite_of_manifest none r e h k l = let h' : ok none ≡ ok (some plan) = rw e at h in cc
  vite_of_manifest (some m) r e h k l =
      let (c, e', h') = >>=-eq-ok (repository_has_vite_config disk root) _ (rw e at h) in
      let built = vite_plan_lem _ _ r.package_install_mode h' (sym l) in
      let npm = vite_plan-npm _ _ h' in
      (npm.0, ground (arith, e, built, k, npm.1, eq_iff r.package_manager Strategy.npm))

  -- What a record keeps of the plan that it was deployed by.
  pub record Persists (r : DeploymentRecord) : Type 0 where
    pub strategy : r.strategy ≡ plan.strategy
    pub package_manager : r.package_manager ≡ plan.package_manager
    pub package_install_mode : r.package_install_mode ≡ plan.package_install_mode
    pub container_port : r.container_port ≡ plan.container_port
    pub health_path : r.health_path ≡ plan.health_path

  detected_node_lem :
      (requested : DeploymentConfig) (m : Manifest) (c : NodeCheck) (r : DeploymentRecord)
      → detected_node disk root requested m c ≡ ok (some plan)
      → Persists r
      → (plan.strategy ≡ Strategy.node_express)
        × (plan.package_manager ≡ Strategy.npm)
        × (persisted_node_plan disk root r m c ≡ ok plan)
  unfolding detected_node persisted_node_plan node_plan node_express_build_plan
  detected_node_lem requested m supported r h p =
      let (mode, k, l) = >>=-eq-ok (npm_install_mode disk root) _ h in
      (cc, cc, ground (arith, check_install_mode-npm_install_mode disk root mode k, l))
  detected_node_lem requested m unconventional r h p = let h' : ok none ≡ ok (some plan) = h in cc
  detected_node_lem requested m no_express r h p = let h' : ok none ≡ ok (some plan) = h in cc
  detected_node_lem requested m no_entrypoint r h p = let h' : ok none ≡ ok (some plan) = h in cc
  detected_node_lem requested m other_manager r h p = let h' : ok none ≡ ok (some plan) = h in cc

  node_of_manifest :
      (beyond : ℕ → ℕ) (requested : DeploymentConfig) (m : Option Manifest) (r : DeploymentRecord)
      → (read_node_package_manifest disk root ≡ ok m)
      → detect_node beyond disk root requested ≡ ok (some plan)
      → Persists r
      → (plan.strategy ≡ Strategy.node_express) × (persisted_node beyond disk root r ≡ ok plan)
  unfolding detect_node persisted_node
  node_of_manifest beyond requested none r e h p =
      let h' : ok none ≡ ok (some plan) = rw e at h in cc
  node_of_manifest beyond requested (some m) r e h p =
      let (c, e', h') = >>=-eq-ok (check_node beyond disk root m) _ (rw e at h) in
      let built = detected_node_lem requested m c r h' p in
      (built.0, ground (arith, e, e', built.1, built.2, eq_iff r.package_manager Strategy.npm))

  dockerfile_again :
      (path : Option FilePath) (requested : DeploymentConfig) (r : DeploymentRecord)
      → dockerfile_plan requested path ≡ some plan
      → Persists r
      → (plan.strategy ≡ Strategy.dockerfile)
        × (dockerfile_plan
              (record { container_port = r.container_port; health_path = r.health_path })
              path
            ≡ some plan)
  unfolding dockerfile_plan normalized_container_port
  dockerfile_again none requested r h p = cc
  dockerfile_again (some path) requested r h p =
      (cc, ground (arith, h, health_path-health_path requested.health_path))

  dockerfile_lem :
      (requested : DeploymentConfig) (r : DeploymentRecord)
      → detect_dockerfile disk root requested ≡ ok (some plan)
      → Persists r
      → (plan.strategy ≡ Strategy.dockerfile) × (persisted_dockerfile disk root r ≡ ok plan)
  unfolding detect_dockerfile persisted_dockerfile
  dockerfile_lem requested r h p =
      let (path, e, k) = >>=-eq-ok (repository_regular_file disk root (codes "Dockerfile")) _ h in
      let again = dockerfile_again path requested r (cc) p in (again.0, ground (arith, e, again.1))

  vite_lem :
      (r : DeploymentRecord)
      → detect_vite disk root ≡ ok (some plan)
      → Persists r
      → (plan.strategy ≡ Strategy.vite_static) × (persisted_vite disk root r ≡ ok plan)
  unfolding detect_vite
  vite_lem r h p =
      let (m, e, k) = >>=-eq-ok (read_node_package_manifest disk root) _ h in
      vite_of_manifest m r e h p.package_manager p.package_install_mode

  node_lem :
      (beyond : ℕ → ℕ) (requested : DeploymentConfig) (r : DeploymentRecord)
      → detect_node beyond disk root requested ≡ ok (some plan)
      → Persists r
      → (plan.strategy ≡ Strategy.node_express) × (persisted_node beyond disk root r ≡ ok plan)
  unfolding detect_node
  node_lem beyond requested r h p =
      let (m, e, k) = >>=-eq-ok (read_node_package_manifest disk root) _ h in
      node_of_manifest beyond requested m r e h p

or_else_cases {ℓ} :
    {A : Type ℓ} (r : Result (Option A)) (later : Result A) (a : A)
    → or_else r later ≡ ok a
    → (r ≡ ok (some a)) ⊎ (later ≡ ok a)
or_else_cases (ok none) later a h = inr h
or_else_cases (ok (some b)) later a h = inl (cc)
or_else_cases (err e) later a h = cc

as_project-single :
    (r : Result (Option BuildPlan)) (plan : BuildPlan)
    → as_project r ≡ ok (some (single plan))
    → r ≡ ok (some plan)
as_project-single (ok none) plan h = cc
as_project-single (ok (some p)) plan h = cc
as_project-single (err e) plan h = cc

if_found_cases {ℓ κ} :
    {A : Type ℓ} {B : Type κ} (o : Option A) (f : A → Result (Option B)) {b : B}
    → if_found o f ≡ ok (some b)
    → (a : A) × (o ≡ some a) × (f a ≡ ok (some b))
if_found_cases none f h = cc
if_found_cases (some a) f h = (a, refl, h)

serves_any : List ServicePlan → Bool
serves_any [] = false
serves_any (s ∷ ss) = true

has_services : Result (Option ProjectPlan) → Bool
unfolding serves_any
has_services (ok (some project)) = serves_any project.services
has_services _ = false

two_services :
    (fp : FilePath) (f : BuildPlan) (bp : FilePath) (b plan : BuildPlan)
    → ok (some (project_of fp f bp b)) ≢ ok (some (single plan))
unfolding has_services
two_services fp f bp b plan e = let t : true ≡ false = ap has_services e in cc

-- A project of two services is no plan of a single one.
detect_fullstack-ne-single :
    (beyond : ℕ → ℕ) (disk : Disk) (root : FilePath) (requested : DeploymentConfig)
    (plan : BuildPlan)
    → detect_fullstack beyond disk root requested ≢ ok (some (single plan))
unfolding detect_fullstack
detect_fullstack-ne-single beyond disk root requested plan h =
    let (f, e1, h1) =
      >>=-eq-ok (resolved_repository_service_directory disk root Strategy.frontend_service) _ h in
    let (fp, e2, h2) = if_found_cases f _ h1 in
    let (b, e3, h3) =
      >>=-eq-ok (resolved_repository_service_directory disk root Strategy.backend_service) _ h2 in
    let (bp, e4, h4) = if_found_cases b _ h3 in
    let (fb, e5, h5) = >>=-eq-ok (detect_vite disk fp) _ h4 in
    let (fplan, e6, h6) = if_found_cases fb _ h5 in
    let (bb, e7, h7) = >>=-eq-ok (detect_node beyond disk bp requested) _ h6 in
    let (bplan, e8, h8) = if_found_cases bb _ h7 in two_services fp fplan bp bplan plan h8

-- A checkout whose detection gave a plan of a single service gives the same plan again for the record
-- that was deployed by it and is in normal form, as long as the checkout is the same.
pub deployment_strategy_for_record-detect_deployment_strategy :
    (beyond : ℕ → ℕ) (disk : Disk) (root : FilePath) (requested : DeploymentConfig)
    (plan : BuildPlan) (r : DeploymentRecord)
    → detect_deployment_strategy beyond disk root requested ≡ ok (single plan)
    → normalize_deployment_record r ≡ r
    → Persists disk root plan r
    → deployment_strategy_for_record beyond disk r root ≡ ok (single plan)
unfolding detect_deployment_strategy deployment_strategy_for_record single_strategy
deployment_strategy_for_record-detect_deployment_strategy beyond disk root requested plan r h n p =
    elim (or_else_cases (as_project (detect_dockerfile disk root requested)) _ _ h) [
      | inl d ↦
          let again = dockerfile_lem disk root plan requested r (as_project-single _ plan d) p in
          rw n (ground (arith, again.0, again.1))
      | inr h1 ↦ elim (or_else_cases (detect_fullstack beyond disk root requested) _ _ h1) [
        | inl f ↦ absurd (detect_fullstack-ne-single beyond disk root requested plan f)
        | inr h2 ↦ elim (or_else_cases (as_project (detect_vite disk root)) _ _ h2) [
          | inl v ↦
              let again = vite_lem disk root plan r (as_project-single _ plan v) p in
              rw n (ground (arith, again.0, again.1))
          | inr h3 ↦
              elim (or_else_cases (as_project (detect_node beyond disk root requested)) _ _ h3) [
                | inl v ↦
                    let again =
                      node_lem disk root plan beyond requested r (as_project-single _ plan v) p in
                    rw n (ground (arith, again.0, again.1))
                | inr h4 ↦ cc
              ]
        ]
      ]
    ]
