-- ===== src/Store.antt =====
-- internal/store/store.go: the entities of the panel, the constants of their fields and the errors
-- of a repository. A time is a number of nanoseconds; an optional pointer to one is an `Option`.
pub mod FileDb
pub mod Memory
use nusantara_panel.Base.{
  zero, suc, ◌+◌, ◌/◌, ◌%◌, ◌==◌, if◌then◌else◌, [], ◌∷◌, ℕ, Bool, Text, codes, Option, ◌++◌,
}

abbrev pub Time : Type 0
Time = ℕ

abbrev pub role_admin : Text
role_admin = codes "admin"

abbrev pub role_user : Text
role_user = codes "user"

abbrev pub site_status_provisioning : Text
site_status_provisioning = codes "provisioning"

abbrev pub site_status_active : Text
site_status_active = codes "active"

abbrev pub site_status_failed : Text
site_status_failed = codes "failed"

abbrev pub site_status_deleting : Text
site_status_deleting = codes "deleting"

abbrev pub job_status_queued : Text
job_status_queued = codes "queued"

abbrev pub job_status_running : Text
job_status_running = codes "running"

abbrev pub job_status_success : Text
job_status_success = codes "success"

abbrev pub job_status_failed : Text
job_status_failed = codes "failed"

abbrev pub job_type_provision_site : Text
job_type_provision_site = codes "provision_site"

abbrev pub job_type_deprovision_site : Text
job_type_deprovision_site = codes "deprovision_site"

-- ErrNotFound and ErrConflict, and the wrapped errors of the file that holds the state, each with
-- the text of its cause.
pub data Error : Type 0 where
  not_found conflict empty_path : Error
  mkdir_data_dir read_state decode_state encode_state write_tmp_state replace_state : Text → Error
  unsupported_schema_version : ℕ → Error

decimal_from : ℕ → ℕ → Text → Text
decimal_from zero n out = out
decimal_from (suc fuel) n out =
    let out' = (b'0' + n % 10) ∷ out in
    let rest = decimal_from fuel (n / 10) out' in if n / 10 == 0 then out' else rest

-- %d of a number: it has no more digits than its value and one.
unfoldable pub decimal : ℕ → Text
unfolding decimal_from
decimal n = decimal_from (suc n) n []

-- err.Error()
unfoldable pub error_text : Error → Text
error_text not_found = codes "not found"
error_text conflict = codes "conflict"
error_text empty_path = codes "empty path"
error_text (mkdir_data_dir cause) = codes "mkdir data dir: " ++ cause
error_text (read_state cause) = codes "read state: " ++ cause
error_text (decode_state cause) = codes "decode state: " ++ cause
error_text (encode_state cause) = codes "encode state: " ++ cause
error_text (write_tmp_state cause) = codes "write tmp state: " ++ cause
error_text (replace_state cause) = codes "replace state: " ++ cause
error_text (unsupported_schema_version n) = codes "unsupported schema version: " ++ decimal n

pub record User : Type 0 where
  pub id : Text
  pub username : Text
  pub password_hash : Text
  pub role : Text
  pub is_active : Bool
  pub created_at : Time
  pub updated_at : Time

pub record Session : Type 0 where
  pub token_hash : Text
  pub user_id : Text
  pub expires_at : Time
  pub created_at : Time

pub record Site : Type 0 where
  pub id : Text
  pub domain : Text
  pub root_path : Text
  pub runtime : Text
  pub status : Text
  pub created_by : Text
  pub created_at : Time
  pub updated_at : Time

pub record Job : Type 0 where
  pub id : Text
  pub type : Text
  pub status : Text
  pub payload : Text
  pub error : Text
  pub started_at : Option Time
  pub finished_at : Option Time
  pub created_at : Time
  pub triggered_by : Text

pub record AuditLog : Type 0 where
  pub id : ℕ
  pub actor_user : Text
  pub action : Text
  pub target_type : Text
  pub target_id : Text
  pub metadata : Text
  pub created_at : Time
