-- ===== src/Cloudrun.antt =====
-- internal/cloudrun/client.go: the controller's view of live Cloud Run state. A nil pointer or map
-- is `none`; a map is an association list.
pub mod Image
pub mod Env
pub mod Api
pub mod Read
pub mod Deploy
use run_cd.Base.{String, Bool, Option, List}
use run_cd.Base.Int.{ℤ}

pub record SecretRef : Type 0 where
  pub secret : String
  pub version : String

pub record ServiceState : Type 0 where
  pub image_digest : String
  pub traffic_latest_revision_percent : Option ℤ
  pub env_vars : Option (List (String × String))
  pub secret_refs : Option (List (String × SecretRef))

pub record LiveService : Type 0 where
  pub state : ServiceState
  pub has_revision_for_desired_digest : Bool
  pub latest_revision_ready : Bool
  pub latest_revision_creating : Bool

-- A string type: its three constants, and any other value.
pub data ExecutionStatus : Type 0 where
  running succeeded failed : ExecutionStatus
  unrecognized : String → ExecutionStatus

pub record LiveJob : Type 0 where
  pub state : ServiceState
  pub has_execution_for_desired_digest : Bool
  pub latest_execution_status : ExecutionStatus

-- What a read of live state can fail with.
pub data ReadError : Type 0 where
  not_provisioned : ReadError
  other : String → ReadError
