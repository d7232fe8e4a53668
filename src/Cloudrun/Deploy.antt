-- ===== src/Cloudrun/Deploy.antt =====
-- internal/cloudrun/gcp.go: deploys of services, worker pools and jobs. A deploy takes the state of
-- the world to the next one, with an error or none.
pub mod Synced
pub mod ReadBack
pub mod Harmless
use run_cd.Base.{
  String, Bool, ◌||◌, Option, none, some, List, [], ◌∷◌, is_some, Result, ok, err, if◌then◌else◌,
}
use run_cd.Base.Int.{ℤ, pos, eq_ℤ}
use run_cd.Cloudrun.{ServiceState}
use run_cd.Cloudrun.Env.{Container, build_env_vars}
use run_cd.Cloudrun.Image.{with_digest}
use run_cd.Cloudrun.Api.{
  latest, TrafficTarget, Service, WorkerPool, Job, Answer, found, not_found, failed, RunApi,
  ClientError, not_provisioned, not_read, not_updated, no_containers, unsupported_percent,
  with_client, service_path, worker_pool_path,
}
use run_cd.Cloudrun.Read.{fetch_job}

-- the percentage as an int32
unfoldable pub validated_percent : String → ℤ → Result ClientError ℤ
validated_percent name p = if eq_ℤ p (pos 100) then ok p else err (unsupported_percent name)

abbrev latest_target : Result ClientError ℤ → Result ClientError (List TrafficTarget)
latest_target (ok p) = ok (record { type = latest; percent = p } ∷ [])
latest_target (err e) = err e

-- the service's traffic after the deploy: the old one where none is wanted
abbrev pub traffic_for :
    String → Option ℤ → List TrafficTarget → Result ClientError (List TrafficTarget)
traffic_for name none old = ok old
traffic_for name (some p) old = latest_target (validated_percent name p)

abbrev pub with_image : String → Container → Container
with_image digest c = record c { image = with_digest c.image digest }

-- the first container with the wanted image, and the wanted environment if one is declared
abbrev pub redeployed : ServiceState → Container → Container
redeployed desired c = record {
  image = with_digest c.image desired.image_digest;
  env =
      if is_some desired.env_vars || is_some desired.secret_refs
      then build_env_vars desired.env_vars desired.secret_refs
      else c.env;
}

module _ {W : Type 0} (api : RunApi W) (w : W) where
  abbrev updated : String → W × Option String → W × Option ClientError
  updated name (next, none) = (next, none)
  updated name (next, some e) = (next, some (not_updated name e))

  abbrev refused : ClientError → W × Option ClientError
  refused e = (w, some e)

  abbrev update_with_traffic :
      String
      → ServiceState
      → Service
      → Container
      → List Container
      → Result ClientError (List TrafficTarget)
      → W × Option ClientError
  update_with_traffic name desired svc c cs (err e) = refused e
  update_with_traffic name desired svc c cs (ok traffic) = updated name (
      api.update_service w
        (record svc { containers = redeployed desired c ∷ cs; traffic = traffic }))

  abbrev pub deploy_to_service :
      String → ServiceState → Service → List Container → W × Option ClientError
  deploy_to_service name desired svc [] = refused (no_containers name)
  deploy_to_service name desired svc (c ∷ cs) =
      update_with_traffic name desired svc c cs
        (traffic_for name desired.traffic_latest_revision_percent svc.traffic)

  abbrev pub deploy_to_worker_pool :
      String → ServiceState → WorkerPool → List Container → W × Option ClientError
  deploy_to_worker_pool name desired wp [] = refused (no_containers name)
  deploy_to_worker_pool name desired wp (c ∷ cs) =
      updated name (api.update_worker_pool w (record wp { containers = redeployed desired c ∷ cs }))

  abbrev of_worker_pool : String → ServiceState → Answer WorkerPool → W × Option ClientError
  of_worker_pool name desired (found wp) = deploy_to_worker_pool name desired wp wp.containers
  of_worker_pool name desired not_found = refused not_provisioned
  of_worker_pool name desired (failed e) = refused (not_read name e)

  unfoldable pub deploy_worker_pool :
      String → String → String → ServiceState → W × Option ClientError
  deploy_worker_pool project region name desired =
      with_client (api.worker_pools_client w region) refused
        (of_worker_pool name desired (api.get_worker_pool w (worker_pool_path project region name)))

  abbrev of_service :
      String → ServiceState → W × Option ClientError → Answer Service → W × Option ClientError
  of_service name desired otherwise (found svc) = deploy_to_service name desired svc svc.containers
  of_service name desired otherwise not_found = otherwise
  of_service name desired otherwise (failed e) = refused (not_read name e)

  -- DeployService: the Services API first, and on NotFound the worker pools
  unfoldable pub deploy_service : String → String → String → ServiceState → W × Option ClientError
  unfolding deploy_worker_pool
  deploy_service project region name desired = with_client (api.services_client w region) refused (
      of_service name desired (deploy_worker_pool project region name desired)
        (api.get_service w (service_path project region name)))

  abbrev pub deploy_to_job : String → String → Job → List Container → W × Option ClientError
  deploy_to_job name digest job [] = refused (no_containers name)
  deploy_to_job name digest job (c ∷ cs) =
      updated name (api.update_job w (record job { containers = with_image digest c ∷ cs }))

  abbrev of_job : String → String → Result ClientError Job → W × Option ClientError
  of_job name digest (err e) = refused e
  of_job name digest (ok job) = deploy_to_job name digest job job.containers

  unfoldable pub deploy_job : String → String → String → ServiceState → W × Option ClientError
  unfolding fetch_job
  deploy_job project region name desired =
      with_client (api.jobs_client w region) refused
        (of_job name desired.image_digest (fetch_job api w project region name))
