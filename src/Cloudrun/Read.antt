-- ===== src/Cloudrun/Read.antt =====
-- internal/cloudrun/gcp.go: reads of the live state of services, worker pools and jobs.
pub mod NotProvisioned
use run_cd.Base.{
  String, ◌==◌, Bool, true, false, ◌||◌, Option, none, some, List, [], ◌∷◌, map, Result, ok, err,
  if◌then◌else◌,
}
use run_cd.Base.Int.{ℤ, pos, ltb_ℤ, ◌+ℤ◌}
use run_cd.Cloudrun.{
  ServiceState, LiveService, LiveJob, ExecutionStatus, running, succeeded,
  failed as execution_failed, unrecognized,
}
use run_cd.Cloudrun.Env.{Container, env_state_from_containers}
use run_cd.Cloudrun.Image.{ImageError, last_path_segment, resolve_image_digest}
use run_cd.Cloudrun.Api.{
  Allocation, latest, revision, unspecified_allocation, TrafficTarget, Condition, unspecified,
  pending, reconciling, failed_condition, succeeded_condition, Service, WorkerPool, Job, Execution,
  Answer, found, not_found, failed, Listing, RunApi, ClientError, not_provisioned, not_read,
  not_listed, digest_unresolved, with_client, location_path, service_path, worker_pool_path,
  job_path,
}
use Prim.Native.String.{◌++◌}

unfoldable pub container_image : List Container → String
container_image [] = ""
container_image (c ∷ cs) = c.image

abbrev percent_of : Allocation → ℤ → ℤ
percent_of latest p = p
percent_of revision p = pos 0
percent_of unspecified_allocation p = pos 0

-- the loop of latestRevisionPercent
unfoldable pub percent_from : ℤ → List TrafficTarget → ℤ
percent_from total [] = total
percent_from total (t ∷ ts) = percent_from (total +ℤ percent_of t.type t.percent) ts

unfoldable pub latest_revision_percent : List TrafficTarget → ℤ
unfolding percent_from
latest_revision_percent targets = percent_from (pos 0) targets

-- whether the resource is ready, and whether it is still creating
unfoldable pub condition_state : Condition → Bool → Bool × Bool
condition_state _ true = (false, true)
condition_state succeeded_condition false = (true, false)
condition_state reconciling false = (false, true)
condition_state pending false = (false, true)
condition_state failed_condition false = (false, false)
condition_state unspecified false = (false, false)

unfoldable pub execution_status : Execution → ExecutionStatus
execution_status e =
    if e.is_complete
    then if ltb_ℤ (pos 0) e.failed_count || ltb_ℤ (pos 0) e.cancelled_count
      then execution_failed
      else succeeded
    else running

-- The live service that is read from a service or a worker pool: the traffic's percentage, the
-- containers, the condition, the wanted digest and the one that is resolved.
abbrev pub live_of : Option ℤ → List Container → Condition → Bool → String → String → LiveService
live_of percent containers condition reconciles desired digest = record {
  state = record {
    image_digest = digest;
    traffic_latest_revision_percent = percent;
    env_vars = (env_state_from_containers containers).0;
    secret_refs = (env_state_from_containers containers).1;
  };
  has_revision_for_desired_digest = (desired == "") || (digest == desired);
  latest_revision_ready = (condition_state condition reconciles).0;
  latest_revision_creating = (condition_state condition reconciles).1;
}

abbrev pub resolved {ℓ} :
    {A : Type ℓ} → String → (String → A) → Result ImageError String → Result ClientError A
resolved name make (ok digest) = ok (make digest)
resolved name make (err e) = err (digest_unresolved name e)

module _ {W : Type 0} (api : RunApi W) (w : W) where
  abbrev pub image_digest_of : List Container → Result ImageError String
  image_digest_of containers =
      resolve_image_digest (api.registry_client w) (container_image containers)

  unfoldable pub live_service_from_service : Service → String → Result ClientError LiveService
  unfolding latest_revision_percent
  live_service_from_service svc desired =
      resolved svc.name
        (live_of (some (latest_revision_percent svc.traffic)) svc.containers svc.terminal_condition
          svc.is_reconciling desired)
        (image_digest_of svc.containers)

  unfoldable pub live_service_from_worker_pool :
      WorkerPool → String → Result ClientError LiveService
  live_service_from_worker_pool wp desired =
      resolved wp.name (live_of none wp.containers wp.terminal_condition wp.is_reconciling desired)
        (image_digest_of wp.containers)

  abbrev read_worker_pool : String → String → Answer WorkerPool → Result ClientError LiveService
  read_worker_pool name desired (found wp) = live_service_from_worker_pool wp desired
  read_worker_pool name desired not_found = err not_provisioned
  read_worker_pool name desired (failed e) = err (not_read name e)

  abbrev read_service :
      String
      → String
      → Result ClientError LiveService
      → Answer Service
      → Result ClientError LiveService
  read_service name desired otherwise (found svc) = live_service_from_service svc desired
  read_service name desired otherwise not_found = otherwise
  read_service name desired otherwise (failed e) = err (not_read name e)

  -- GetService: the Services API first, and on NotFound the worker pools
  unfoldable pub get_service : String → String → String → String → Result ClientError LiveService
  unfolding live_service_from_service live_service_from_worker_pool
  get_service project region name desired = with_client (api.services_client w region) err (
      read_service name desired
        (with_client (api.worker_pools_client w region) err (
          read_worker_pool name desired
            (api.get_worker_pool w (worker_pool_path project region name))))
        (api.get_service w (service_path project region name)))

  abbrev names_of : String → List String → Option String → Result ClientError (List String)
  names_of parent names none = ok (map last_path_segment names)
  names_of parent names (some e) = err (not_listed parent e)

  unfoldable pub list_service_names : String → String → Result ClientError (List String)
  list_service_names project region =
      let parent = location_path project region in
      let listing = api.list_services w parent in
      with_client (api.services_client w region) err (names_of parent listing.yielded listing.error)

  abbrev read_job : String → Answer Job → Result ClientError Job
  read_job name (found job) = ok job
  read_job name not_found = err not_provisioned
  read_job name (failed e) = err (not_read name e)

  unfoldable pub fetch_job : String → String → String → Result ClientError Job
  fetch_job project region name = read_job name (api.get_job w (job_path project region name))

  abbrev read_execution : String → Answer Execution → Result ClientError Execution
  read_execution path (found e) = ok e
  read_execution path not_found = err (not_read path "NotFound")
  read_execution path (failed e) = err (not_read path e)

  unfoldable pub get_execution : String → String → String → String → Result ClientError Execution
  get_execution project region job ref =
      let path = job_path project region job ++ ("/executions/" ++ ref) in
      with_client (api.executions_client w region) err
        (read_execution path (api.get_execution w path))

  abbrev spec_state : String → ServiceState
  spec_state digest = record {
    image_digest = digest;
    traffic_latest_revision_percent = none;
    env_vars = none;
    secret_refs = none;
  }

  -- the live job whose health is unset
  abbrev pub unexecuted : String → LiveJob
  unexecuted digest = record {
    state = spec_state digest;
    has_execution_for_desired_digest = false;
    latest_execution_status = unrecognized "";
  }

  abbrev with_execution_digest : String → String → Execution → Result ImageError String → LiveJob
  with_execution_digest desired digest e (err _) = unexecuted digest
  with_execution_digest desired digest e (ok executed) = record {
    state = spec_state digest;
    has_execution_for_desired_digest = (desired == "") || (executed == desired);
    latest_execution_status = execution_status e;
  }

  abbrev with_execution : String → String → Result ClientError Execution → LiveJob
  with_execution desired digest (err _) = unexecuted digest
  with_execution desired digest (ok e) =
      with_execution_digest desired digest e (image_digest_of e.containers)

  abbrev pub live_job : String → String → String → String → Option String → String → LiveJob
  live_job project region name desired none digest = unexecuted digest
  live_job project region name desired (some ref) digest =
      if ref == ""
      then unexecuted digest
      else with_execution desired digest (get_execution project region name ref)

  abbrev read_live_job :
      String → String → String → String → Result ClientError Job → Result ClientError LiveJob
  read_live_job project region name desired (err e) = err e
  read_live_job project region name desired (ok job) =
      resolved name (live_job project region name desired job.latest_created_execution)
        (image_digest_of job.containers)

  unfoldable pub get_job : String → String → String → String → Result ClientError LiveJob
  unfolding fetch_job
  get_job project region name desired =
      with_client (api.jobs_client w region) err
        (read_live_job project region name desired (fetch_job project region name))
