-- ===== src/Reconcile.antt =====
-- internal/reconcile/reconcile.go: the results, options and errors of a reconcile pass, and the
-- world in which it runs. Its children hold the SQL statements (Store), the deploy (Deploy), the
-- decision to deploy (Pass), the pass over one unit (Unit), the entry points (Entry), and what is
-- proved of them.
pub mod Store
pub mod Deploy
pub mod Pass
pub mod Unit
pub mod Entry
pub mod Orphans
use run_cd.Base.{ℕ, String, Bool, Option, List, Result}
use run_cd.Manifest
use run_cd.Manifest.{ServiceDefinition}
use run_cd.Precondition.{Checker, CheckError}
use run_cd.Registry.{Tag, Semver, ResolveError}
use run_cd.Cloudrun.{ServiceState, LiveService, LiveJob, ReadError}
use run_cd.Expander.{SyncUnit}

-- The status of a unit; `unset` is the empty string.
pub data Status : Type 0 where
  unset invalid missing synced out_of_sync : Status

pub data Health : Type 0 where
  unset invalid missing healthy progressing degraded : Health

pub data Trigger : Type 0 where
  auto manual : Trigger

pub data SyncError : Type 0 where
  fetch_manifest : String → SyncError
  invalid_definition : Manifest.ParseError → SyncError
  no_repository no_tag_resolver unknown_resource_type env_unsupported : SyncError
  list_tags_failed : String → SyncError
  resolve_failed : ResolveError → SyncError
  precondition_failed : CheckError → SyncError
  not_provisioned sync_in_progress observe_mode : SyncError
  get_live_state : String → SyncError
  acquire_lock_failed upsert_before_deploy write_event : String → SyncError
  deploy_failed : String → SyncError
  deploy_and_update_failed : String → String → SyncError
  post_check_failed : ReadError → SyncError
  post_check_and_update_failed : ReadError → String → SyncError
  update_failed upsert_failed : String → SyncError

pub record SyncResult : Type 0 where
  pub unit : SyncUnit
  pub desired_image : String
  pub live_image : String
  pub track : String
  pub version : String
  pub repository : String
  pub resource_type : String
  pub status : Status
  pub health : Health
  pub status_since : Option ℕ
  pub health_since : Option ℕ
  pub deploy_failed : Bool
  pub failure_message : String
  pub error : Option SyncError
  pub observing : Bool

pub record SyncOptions : Type 0 where
  pub trigger : Trigger
  pub actor : String
  pub force : Bool
  pub dry_run : Bool
  pub now : ℕ

-- A row of sync_locks, applications and sync_events. A time is in seconds.
pub record LockRow : Type 0 where
  pub holder : String
  pub expires_at : ℕ

pub record AppRow : Type 0 where
  pub desired_image : String
  pub live_image : Option String
  pub track : String
  pub version : String
  pub repository : String
  pub resource_type : String
  pub status : Status
  pub health : Health
  pub status_since : ℕ
  pub health_since : ℕ
  pub last_reconciled_at : ℕ

pub data EventResult : Type 0 where
  in_progress succeeded failed : EventResult

pub record EventRow : Type 0 where
  pub id : ℕ
  pub application : String
  pub project : String
  pub trigger : Trigger
  pub actor : String
  pub from_image : Option String
  pub to_image : String
  pub started_at : ℕ
  pub finished_at : Option ℕ
  pub result : EventResult
  pub message : Option String

-- The tables. `locks` and `applications` are keyed by application and project.
pub record Db : Type 0 where
  pub locks : String → String → Option LockRow
  pub applications : String → String → Option AppRow
  pub events : List EventRow
  pub next_id : ℕ

-- One call of DeployService or DeployJob, with the tables at its time.
pub record DeployCall : Type 0 where
  pub application : String
  pub project : String
  pub state : ServiceState
  pub tables : Db

-- The tables, Cloud Run, the number of SQL statements so far, and the deploy calls, newest first.
pub record World (C : Type 0) : Type 0 where
  pub db : Db
  pub cloud : C
  pub statements : ℕ
  pub deploys : List DeployCall

-- What is not in the repository: Cloud Run, git, the YAML decoder, Artifact Registry, Pub/Sub, and
-- for the n-th SQL statement its fault, if it has one, and the database's clock.
pub record External : Type 1 where
  pub Cloud : Type 0
  pub get_service : Cloud → String → String → String → String → Result ReadError LiveService
  pub get_job : Cloud → String → String → String → String → Result ReadError LiveJob
  pub deploy_service : Cloud → String → String → String → ServiceState → Cloud × Option String
  pub deploy_job : Cloud → String → String → String → ServiceState → Cloud × Option String
  pub get_manifest : SyncUnit → Result String String
  pub unmarshal : String → Option ServiceDefinition
  pub list_tags : Option (String → Result String (List Tag))
  pub semver : Semver
  pub checker : Checker
  pub fault : ℕ → Option String
  pub clock : ℕ → ℕ
  pub token : ℕ → String
