-- ===== src/Cloudrun/Read/NotProvisioned.antt =====
-- When a service or worker pool is reported as not provisioned.
use run_cd.Base.{String, ◌≡◌, ◌↔◌, refl, Option, none, some, Result, ok, err}
use run_cd.Cloudrun.{LiveService}
use run_cd.Cloudrun.Image.{ImageError}
use run_cd.Cloudrun.Api.{
  Service, WorkerPool, Answer, found, not_found, failed, RunApi, ClientError, not_provisioned,
  with_client, service_path, worker_pool_path,
}
use run_cd.Cloudrun.Read.{
  get_service, live_service_from_service, live_service_from_worker_pool, read_service,
  read_worker_pool, resolved, image_digest_of,
}

abbrev Missing : {A : Type 0} → Result ClientError A → Type 0
Missing r = r ≡ err not_provisioned

with_client_iff :
    {A : Type 0} (o : Option String) (r : Result ClientError A)
    → Missing (with_client o err r) ↔ ((o ≡ none) × Missing r)
with_client_iff none r = (λ h. (refl, h), λ h. h.1)
with_client_iff (some e) r = (λ h. absurd (cc), λ h. absurd (cc h.0))

not-resolved :
    {A : Type 0} (name : String) (make : String → A) (r : Result ImageError String)
    → ¬ (Missing (resolved name make r))
not-resolved name make (ok d) h = cc
not-resolved name make (err e) h = cc

module _ {W : Type 0} (api : RunApi W) (w : W) where
  read_worker_pool_iff :
      (name desired : String) (a : Answer WorkerPool)
      → Missing (read_worker_pool api w name desired a) ↔ (a ≡ not_found)
  unfolding live_service_from_worker_pool
  read_worker_pool_iff name desired (found wp) =
      (λ h. absurd (not-resolved _ _ (image_digest_of api w wp.containers) h), λ h. absurd (cc))
  read_worker_pool_iff name desired not_found = (λ _. refl, λ _. refl)
  read_worker_pool_iff name desired (failed e) = (λ h. absurd (cc), λ h. absurd (cc))

  read_service_iff :
      (name desired : String) (otherwise : Result ClientError LiveService) (a : Answer Service)
      → Missing (read_service api w name desired otherwise a)
        ↔ ((a ≡ not_found) × Missing otherwise)
  unfolding live_service_from_service
  read_service_iff name desired otherwise (found svc) = (
    λ h. absurd (not-resolved _ _ (image_digest_of api w svc.containers) h),
    λ h. absurd (cc h.0),
  )
  read_service_iff name desired otherwise not_found = (λ h. (refl, h), λ h. h.1)
  read_service_iff name desired otherwise (failed e) = (λ h. absurd (cc), λ h. absurd (cc h.0))

  -- GetService reports that nothing is provisioned exactly if both clients are there and both
  -- the Services API and the WorkerPools API answer NotFound.
  pub get_service_not_provisioned_iff :
      (project region name desired : String)
      → (get_service api w project region name desired ≡ err not_provisioned) ↔ (
          (api.services_client w region ≡ none)
          × (api.get_service w (service_path project region name) ≡ not_found)
          × (api.worker_pools_client w region ≡ none)
          × (api.get_worker_pool w (worker_pool_path project region name) ≡ not_found))
  unfolding get_service
  get_service_not_provisioned_iff project region name desired =
      let pool_answer = api.get_worker_pool w (worker_pool_path project region name) in
      let pools =
        with_client_iff (api.worker_pools_client w region)
          (read_worker_pool api w name desired pool_answer) in
      let pool = read_worker_pool_iff name desired pool_answer in
      let service =
        read_service_iff name desired
          (with_client (api.worker_pools_client w region) err
            (read_worker_pool api w name desired pool_answer))
          (api.get_service w (service_path project region name)) in
      let services = with_client_iff (api.services_client w region) _ in
      (
        λ h.
            let (client, rest) = services.0 h in
            let (answer, other) = service.0 rest in
            let (pool_client, last) = pools.0 other in (client, answer, pool_client, pool.0 last),
        λ h. services.1 (h.0, service.1 (h.1, pools.1 (h.2, pool.1 h.3))),
      )
