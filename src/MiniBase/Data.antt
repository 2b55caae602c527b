-- ===== src/MiniBase/Data.antt =====
-- The types of app/minibase_client.go, and a reply of the MiniBase service.
use mini_deploy.Prelude.{ℕ, ℤ, Bool, Option}
use mini_deploy.Text.{Text}

pub record MiniBaseDatabase : Type 0 where
  pub id : Text
  pub display_name : Text
  pub status : Text
  pub attached : Bool

pub record MiniBaseAttachment : Type 0 where
  pub id : Text
  pub database_id : Text
  pub consumer_type : Text
  pub consumer_ref : Text
  pub binding_name : Text
  pub created_at : Text
  pub updated_at : Text

pub record MiniBaseBinding : Type 0 where
  pub database_id : Text
  pub engine : Text
  pub host : Text
  pub port : ℤ
  pub database : Text
  pub username : Text
  pub password : Text
  pub docker_network : Text

-- A response that arrived: its status code, the bytes of its body, and what the strict decoding of the
-- body yields, `none` where it fails.
pub record Reply {ℓ} (A : Type ℓ) : Type ℓ where
  pub status : ℕ
  pub size : ℕ
  pub decoded : Option A
