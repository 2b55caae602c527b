-- ===== src/Result.antt =====
-- Go's (value, error) results. The errors keep what callers can tell apart, and name the step that
-- failed in place of the text of the message.
use mini_deploy.Prelude.{ℕ, ◌≡◌, refl, Bool, true, false}

pub data Error : Type 0 where
  deployment_not_found no_rollback_version database_detached : Error
  container_port_out_of_range health_path_without_slash : Error
  invalid_http_repository_url repository_url_has_credentials repository_url_has_query : Error
  invalid_application_name not_a_strict_child : Error
  environment_mismatch invalid_environment : Error
  read_store parse_store write_store read_history parse_history write_history : Error
  read_environment replace_environment : Error
  git_clone inspect_source prepare_strategy docker_build inspect_image : Error
  invalid_attachment unsupported_database database_conflict resolve_binding run_migration : Error
  no_available_port start_container startup_check health_check : Error
  invalid_database_id invalid_repository_name : Error
  inspect_resource unowned_resource remove_resource create_resource : Error
  image_unavailable unknown_image write_routes reload_proxy fullstack_metadata : Error
  move_source stop_container access_denied unknown_container : Error
  lifecycle_unsupported lifecycle_not_attached lifecycle_attachment_mismatch : Error
  lifecycle_not_detached lifecycle_deployment_unavailable : Error
  invalid_repository_path inspect_repository not_a_regular_file unsupported_strategy : Error
  mini_base_authentication mini_base_unreachable mini_base_response mini_base_operation : Error
  mini_base_database_unavailable : Error
  mini_base_status : ℕ → Error
  read_manifest package_lock missing_service invalid_plan : Error

pub data Result {ℓ} (A : Type ℓ) : Type ℓ where
  ok : A → Result A
  err : Error → Result A

abbrev pub guard : Bool → Error → Result (Unit {0})
guard true e = ok tt
guard false e = err e

-- `if err != nil { return ..., err }`, with the rest of the function.
infixl 5 ◌>>=◌ ◌>>◌
abbrev pub ◌>>=◌ {κ ℓ} :
    {T : Type κ} {U : Type ℓ} (first : Result T) (rest : T → Result U) → Result U
err reason >>= rest = err reason
ok value >>= rest = rest value

abbrev pub ◌>>◌ {κ ℓ} : {T : Type κ} {U : Type ℓ} (first : Result T) (rest : Result U) → Result U
first >> rest = first >>= λ value. rest

-- A result without an error came out of both steps.
pub >>=-eq-ok {κ ℓ} :
    {T : Type κ} {U : Type ℓ} (first : Result T) (rest : T → Result U) {final : U}
    → (first >>= rest) ≡ ok final
    → (value : T) × (first ≡ ok value) × (rest value ≡ ok final)
>>=-eq-ok (err reason) rest returns = cc
>>=-eq-ok (ok value) rest returns = (value, refl, returns)
