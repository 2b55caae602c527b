-- ===== src/Records.antt =====
-- The records of app/store.go, app/history.go and app/deployment_identity.go, which the program keeps
-- as JSON. A port is an integer, a time the nanoseconds since the epoch, a nil slice the empty list.
use mini_deploy.Prelude.{ℕ, ℤ, pos, Bool, false, Option, none, List, []}
use mini_deploy.Text.{Text}

pub record DeploymentSourceRecord : Type 0 where
  pub provider : Text
  pub repository : Text
  pub branch : Text
  pub requested_ref : Text
  pub commit_sha : Text

pub record DatabaseAttachmentRecord : Type 0 where
  pub attachment_id : Text
  pub database_id : Text
  pub display_name : Text
  pub binding_name : Text

pub record DeploymentServiceRecord : Type 0 where
  pub name : Text
  pub path : Text
  pub strategy : Text
  pub container : Text
  pub image : Text
  pub image_id : Text
  pub port : ℤ
  pub container_port : ℤ
  pub health_path : Text
  pub package_manager : Text
  pub package_install_mode : Text
  pub reactor_lab_migration : Bool

pub record DeploymentRecord : Type 0 where
  pub app : Text
  pub repo_url : Text
  pub container : Text
  pub image : Text
  pub image_id : Text
  pub port : ℤ
  pub container_port : ℤ
  pub health_path : Text
  pub strategy : Text
  pub package_manager : Text
  pub package_install_mode : Text
  pub environment_variables : List Text
  pub services : List DeploymentServiceRecord
  pub network : Text
  pub reactor_lab_migration : Bool
  pub database_attachments : List DatabaseAttachmentRecord
  pub database_detached : Bool
  pub guest_visible : Bool
  pub source : Option DeploymentSourceRecord
  pub activated_at : Option ℕ

-- DeploymentRecord{}, Go's zero value
abbrev pub zero_record : DeploymentRecord
zero_record = record {
  app = [];
  repo_url = [];
  container = [];
  image = [];
  image_id = [];
  port = pos 0;
  container_port = pos 0;
  health_path = [];
  strategy = [];
  package_manager = [];
  package_install_mode = [];
  environment_variables = [];
  services = [];
  network = [];
  reactor_lab_migration = false;
  database_attachments = [];
  database_detached = false;
  guest_visible = false;
  source = none;
  activated_at = none;
}

pub record DeploymentVersion : Type 0 where
  pub app : Text
  pub repo_url : Text
  pub container : Text
  pub image : Text
  pub image_id : Text
  pub port : ℤ
  pub container_port : ℤ
  pub health_path : Text
  pub strategy : Text
  pub package_manager : Text
  pub package_install_mode : Text
  pub services : List DeploymentServiceRecord
  pub reactor_lab_migration : Bool
  pub source : Option DeploymentSourceRecord
  pub activated_at : Option ℕ
  pub deployed_at : ℕ
