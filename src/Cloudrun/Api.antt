-- ===== src/Cloudrun/Api.antt =====
-- internal/cloudrun/gcp.go: what the client reads and writes through the Cloud Run Admin API. The
-- API is a parameter: its calls over a state `W` of the world. Of its resources, the fields that the
-- client uses are here; a nil template is one without containers, a nil condition is unspecified.
use run_cd.Base.{String, Bool, Option, none, some, List}
use run_cd.Base.Int.{ℤ}
use run_cd.Registry.{Tag}
use run_cd.Cloudrun.Env.{Container}
use run_cd.Cloudrun.Image.{ImageError}
use Prim.Native.String.{◌++◌}

pub data Allocation : Type 0 where
  latest revision unspecified_allocation : Allocation

pub record TrafficTarget : Type 0 where
  pub type : Allocation
  pub percent : ℤ

pub data Condition : Type 0 where
  unspecified pending reconciling failed_condition succeeded_condition : Condition

pub record Service : Type 0 where
  pub name : String
  pub containers : List Container
  pub traffic : List TrafficTarget
  pub terminal_condition : Condition
  pub is_reconciling : Bool

pub record WorkerPool : Type 0 where
  pub name : String
  pub containers : List Container
  pub terminal_condition : Condition
  pub is_reconciling : Bool

-- the latest created execution by its short name, or nil
pub record Job : Type 0 where
  pub name : String
  pub containers : List Container
  pub latest_created_execution : Option String

pub record Execution : Type 0 where
  pub containers : List Container
  pub is_complete : Bool
  pub failed_count : ℤ
  pub cancelled_count : ℤ

-- What a read call answers: the resource, the status NotFound, or another error.
pub data Answer (A : Type 0) : Type 0 where
  found : A → Answer A
  not_found : Answer A
  failed : String → Answer A

-- The names that a listing yields, and the error that ends it, if one does.
pub record Listing : Type 0 where
  pub yielded : List String
  pub error : Option String

-- The API's calls, and the making of the clients, with its error.
pub record RunApi (W : Type 0) : Type 0 where
  pub services_client : W → String → Option String
  pub worker_pools_client : W → String → Option String
  pub jobs_client : W → String → Option String
  pub executions_client : W → String → Option String
  pub registry_client : W → Option (String → Option (List Tag))
  pub get_service : W → String → Answer Service
  pub get_worker_pool : W → String → Answer WorkerPool
  pub get_job : W → String → Answer Job
  pub get_execution : W → String → Answer Execution
  pub list_services : W → String → Listing
  pub update_service : W → Service → W × Option String
  pub update_worker_pool : W → WorkerPool → W × Option String
  pub update_job : W → Job → W × Option String

-- The client's errors, each with the name of the resource and the cause.
pub data ClientError : Type 0 where
  not_provisioned : ClientError
  no_client : String → ClientError
  not_read not_listed not_updated : String → String → ClientError
  digest_unresolved : String → ImageError → ClientError
  no_containers unsupported_percent : String → ClientError

-- `if err != nil { return err }` after the making of a client
abbrev pub with_client {ℓ} : {A : Type ℓ} → Option String → (ClientError → A) → A → A
with_client none refuse go = go
with_client (some e) refuse go = refuse (no_client e)

unfoldable pub location_path : String → String → String
location_path project region = "projects/" ++ (project ++ ("/locations/" ++ region))

unfoldable pub service_path : String → String → String → String
unfolding location_path
service_path project region name = location_path project region ++ ("/services/" ++ name)

unfoldable pub worker_pool_path : String → String → String → String
unfolding location_path
worker_pool_path project region name = location_path project region ++ ("/workerPools/" ++ name)

unfoldable pub job_path : String → String → String → String
unfolding location_path
job_path project region name = location_path project region ++ ("/jobs/" ++ name)
