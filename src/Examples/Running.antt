-- ===== src/Examples/Running.antt =====
-- What a run of a redeployment or a rollback opens.
use mini_deploy.Text
use mini_deploy.Text.{◌==◌, trim_space}
use mini_deploy.Config.{
  normalize_deployment_record, validate_requested_deployment_config, validate_deployment_config,
}
use mini_deploy.Names.{normalize_runtime_environment_names}
use mini_deploy.RepositoryUrl
use mini_deploy.Path
use mini_deploy.Environment
use mini_deploy.Environment.Format
use mini_deploy.History
use mini_deploy.Lifecycle.Rollback.{
  rollback_deployment, rollback_single, rollback_to, prepare_rollback, start_rollback, switch_back,
  rollback_candidate_record, retire_current,
}
use mini_deploy.Store
use mini_deploy.Source
use mini_deploy.Docker
use mini_deploy.Proxy.{reload, write_proxy_routes, sync_proxy_routes}
use mini_deploy.Proxy.RouteFiles.{route_files_of, routes_of_record}
use mini_deploy.Database.{
  resolve_database_runtime, validate_managed_database_environment, current_attachment,
  create_initial_mini_base_attachment,
}
use mini_deploy.Database.Migration.{run_reactor_lab_migration}
use mini_deploy.Lifecycle.Deploy.{
  deploy_repository, deploy_application, attempt, start_initial, activate, publish, settle,
  check_out, initial_runtime, validate_database_request,
}
use mini_deploy.Path.{repo_name}
use mini_deploy.Checkout.{repository_regular_file}
use mini_deploy.Detect.{deployment_strategy_for_record, detect_deployment_strategy}
use mini_deploy.Detect.Project.{single_strategy, persisted_dockerfile, detect_dockerfile}
use mini_deploy.World.{io}
use mini_deploy.World.Handle.{on_error, finally}
use mini_deploy.Source.{inspect_deployment_source, branch_of}
use mini_deploy.Build.{strategy_for_record, build_deployment_image, detect_strategy}
use mini_deploy.Docker.{
  inspect_built_image_id, find_deploy_port, find_available_port, start_managed_deployment_container,
  start_managed_deployment_container_with_options, temporary_docker_env_file,
  docker_runtime_environment, check_running, verify_container_startup, poll_health,
  verify_http_health_path, container_exists, remove_container,
}
use mini_deploy.Lifecycle.Retire.{
  remove_image, remove_pruned_history_images, retire_container, replace_deployment_source,
  managed_child, remove_managed_deployment_path,
}
use mini_deploy.Lifecycle.Redeploy.{
  safe_redeploy, redeploy_single, release, build_candidate, name_candidate, cut_over, retire,
}
use mini_deploy.Fullstack.Rollback.{
  rollback_fullstack, check_images, name_containers, start_named, start_returning,
  switch_back_fullstack, retire_current_fullstack,
}
use mini_deploy.Fullstack.Publish.{start_or_clean_up, deployment_images}
use mini_deploy.Fullstack.Release.{update_service}
use mini_deploy.Fullstack.Release.Start.{
  start_and_verify_fullstack_release, prepare_release, migrate_backend, start_service,
  start_on_port, verify_service, verify_release, fullstack_service_runtime_environment,
  service_data_network, start_frontend,
}
use mini_deploy.Fullstack.{
  fullstack_release_network_name, fullstack_service_container_name, is_fullstack_container_kind,
  is_fullstack_service_name, validate_fullstack_active_resources,
  validate_fullstack_container_record, validate_fullstack_image_record,
  validate_fullstack_network_record, validate_services,
}
use mini_deploy.Fullstack.Resources.{
  cleanup_fullstack_release, contains, create_fullstack_network, docker_resource_is_missing,
  for_services, remove_fullstack_container, remove_fullstack_network, remove_labelled_network,
  remove_verified, verify_fullstack_container_ownership,
}
use mini_deploy.Proxy.Fullstack.{
  fullstack_proxy_services, is_expected_service, validate_fullstack_service_metadata,
}
use mini_deploy.Lifecycle.Retire.{has_dots, is_trusted_docker_identifier}
use mini_deploy.Config.{deployment_service_by_name, find_service}
use mini_deploy.MiniBase
use mini_deploy.Lifecycle.Delete.{get_deployment, remove_existing}
use mini_deploy.Docker.{start_on_data_network, validate_reactor_lab_data_network}
use mini_deploy.Database.{
  available_existing_mini_base_database, connect, deployment_supports_mini_base, find_available,
  is_valid_attachment, resolve_attached,
}
use mini_deploy.Database.Detach.{
  detach_attached, detach_current, detach_database_from_deployment, leave_service,
  release_attachment,
}
use mini_deploy.Database.Attach.{
  attach_available, attach_database_to_deployment, attach_database_to_detached_deployment,
  check_unattached, restart_with_database,
}
use mini_deploy.Database.Service.{
  start_deployment_after_database_attach, start_node_service, stop_deployment_for_database_detach,
}

-- The values that a run computes with.
unfoldable pub computing : Unit {0}
unfolding io on_error finally ◌==◌ trim_space normalize_deployment_record
    normalize_runtime_environment_names RepositoryUrl.validate_repository_url
    Environment.prepare_runtime_environment_change Environment.load Environment.path
    Path.validate_application_name Path.strict_child_path Text.split Path.join Environment.load_data
    Environment.Format.validate_runtime_environment Path.managed_deployment_path Text.decimal
computing = tt

-- The steps up to the start of a container.
unfoldable pub building : Unit {0}
unfolding computing resolve_database_runtime validate_managed_database_environment
    current_attachment run_reactor_lab_migration inspect_deployment_source branch_of
    strategy_for_record build_deployment_image inspect_built_image_id find_deploy_port
    find_available_port start_managed_deployment_container
    start_managed_deployment_container_with_options temporary_docker_env_file
    docker_runtime_environment remove_image deployment_strategy_for_record single_strategy
    persisted_dockerfile detect_dockerfile repository_regular_file
building = tt

unfoldable pub redeploying : Unit {0}
unfolding building safe_redeploy redeploy_single release build_candidate name_candidate
redeploying = tt

unfoldable pub rolling_back : Unit {0}
unfolding building rollback_deployment switch_back rollback_candidate_record retire_current
    rollback_single rollback_to prepare_rollback start_rollback
    Environment.verify_runtime_environment_metadata Environment.same_names
    Environment.Format.runtime_environment_names History.list History.read History.load_history
    History.lookup_versions History.record_with_fallback History.inherit History.version_record
rolling_back = tt

unfoldable pub cutting_over : Unit {0}
unfolding cut_over Environment.commit Store.save Store.load Store.load_file Store.list
    Store.put_deployment Store.write sync_proxy_routes write_proxy_routes reload route_files_of
    routes_of_record check_running verify_container_startup poll_health verify_http_health_path
    Source.matches_object_id Source.validate_deployment_branch Source.github_repository_identity
    Source.valid_github_repository_part Docker.matches_image_id Docker.matches_image_target
    Environment.same_names Text.decimal Environment.verify_runtime_environment_metadata
    Environment.Format.runtime_environment_names retire Environment.replace History.push
    History.read History.load_history History.write History.set History.validate_versions
    remove_pruned_history_images History.pushed History.lookup_versions retire_container
    container_exists replace_deployment_source remove_managed_deployment_path managed_child
    remove_container
cutting_over = tt

unfoldable pub deploying : Unit {0}
unfolding building cutting_over deploy_repository deploy_application attempt start_initial activate
    publish settle check_out initial_runtime validate_database_request detect_strategy
    detect_deployment_strategy create_initial_mini_base_attachment repo_name
    validate_requested_deployment_config validate_deployment_config
deploying = tt

-- A full-stack project.
unfoldable pub running_fullstack : Unit {0}
unfolding rolling_back cutting_over rollback_fullstack check_images name_containers start_named
    start_returning switch_back_fullstack retire_current_fullstack start_or_clean_up
    start_and_verify_fullstack_release start_frontend prepare_release migrate_backend start_service
    start_on_port verify_service verify_release fullstack_service_runtime_environment
    service_data_network update_service fullstack_release_network_name
    fullstack_service_container_name validate_fullstack_active_resources
    validate_fullstack_image_record validate_fullstack_container_record
    validate_fullstack_network_record validate_services is_fullstack_service_name
    is_fullstack_container_kind validate_fullstack_service_metadata is_expected_service
    fullstack_proxy_services create_fullstack_network remove_fullstack_network
    remove_labelled_network verify_fullstack_container_ownership remove_verified
    remove_fullstack_container for_services cleanup_fullstack_release contains
    docker_resource_is_missing deployment_images is_trusted_docker_identifier has_dots find_service
    deployment_service_by_name Text.itoa
running_fullstack = tt

-- The detachment and the attachment of a database.
unfoldable pub attaching : Unit {0}
unfolding computing cutting_over get_deployment Store.get Store.find_deployment
    deployment_supports_mini_base current_attachment is_valid_attachment
    detach_database_from_deployment detach_current detach_attached leave_service release_attachment
    stop_deployment_for_database_detach remove_existing MiniBase.delete_attachment
    MiniBase.matches_id MiniBase.do_json MiniBase.load_mini_base_token MiniBase.check_reply
    attach_database_to_deployment attach_database_to_detached_deployment check_unattached
    attach_available restart_with_database available_existing_mini_base_database
    MiniBase.list_databases MiniBase.valid_mini_base_database find_available
    MiniBase.create_attachment MiniBase.is_attachment_of start_deployment_after_database_attach
    start_node_service resolve_database_runtime resolve_attached
    validate_managed_database_environment Environment.Format.lookup MiniBase.resolve_binding connect
    MiniBase.valid_mini_base_binding run_reactor_lab_migration find_deploy_port find_available_port
    start_managed_deployment_container start_managed_deployment_container_with_options
    docker_runtime_environment temporary_docker_env_file start_on_data_network Text.itoa
    validate_reactor_lab_data_network
attaching = tt
