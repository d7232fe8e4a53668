-- ===== src/Cloudrun/Deploy/Harmless.antt =====
-- What a failed deploy leaves behind.
use run_cd.Base.{
  String, ◌≡◌, ◌⊎◌, inl, inr, refl, Option, none, some, List, [], ◌∷◌, Result, ok, err,
}
use run_cd.Cloudrun.{ServiceState}
use run_cd.Cloudrun.Env.{Container}
use run_cd.Cloudrun.Api.{
  Service, WorkerPool, TrafficTarget, Answer, found, not_found, failed, RunApi, ClientError,
  not_updated, with_client,
}
use run_cd.Cloudrun.Deploy.{
  traffic_for, deploy_worker_pool, deploy_service, of_service, of_worker_pool, deploy_to_service,
  deploy_to_worker_pool, updated, update_with_traffic,
}

module _ {W : Type 0} (api : RunApi W) (w : W) where
  -- The result of a deploy that has changed nothing unless it has made an update.
  abbrev pub Harmless : String → W × Option ClientError → Type 0
  Harmless name r =
      (e : ClientError)
      → r.1 ≡ some e
      → (r.0 ≡ w) ⊎ ((cause : String) × (e ≡ not_updated name cause))

  updated-Harmless : (name : String) (r : W × Option String) → Harmless name (updated api w name r)
  updated-Harmless name (next, none) e h = absurd (cc)
  updated-Harmless name (next, some cause) e h =
      inr (cause, (let q : some (not_updated name cause) ≡ some e = h in cc))

  with_client-Harmless :
      (name : String) (o : Option String) (r : W × Option ClientError)
      → Harmless name r
      → Harmless name (with_client o (λ e. (w, some e)) r)
  with_client-Harmless name none r k = k
  with_client-Harmless name (some e) r k = λ e _. inl refl

  deploy_to_service-Harmless :
      (name : String) (desired : ServiceState) (svc : Service) (containers : List Container)
      → Harmless name (deploy_to_service api w name desired svc containers)
  deploy_to_service-Harmless name desired svc [] = λ e _. inl refl
  deploy_to_service-Harmless name desired svc (c ∷ cs) =
      of_traffic (traffic_for name desired.traffic_latest_revision_percent svc.traffic)
    where
      of_traffic :
          (r : Result ClientError (List TrafficTarget))
          → Harmless name (update_with_traffic api w name desired svc c cs r)
      of_traffic (err e) = λ e _. inl refl
      of_traffic (ok traffic) = updated-Harmless name _

  of_worker_pool-Harmless :
      (name : String) (desired : ServiceState) (a : Answer WorkerPool)
      → Harmless name (of_worker_pool api w name desired a)
  of_worker_pool-Harmless name desired (found wp) = of_containers wp.containers
    where
      of_containers :
          (containers : List Container)
          → Harmless name (deploy_to_worker_pool api w name desired wp containers)
      of_containers [] = λ e _. inl refl
      of_containers (c ∷ cs) = updated-Harmless name _
  of_worker_pool-Harmless name desired not_found = λ e _. inl refl
  of_worker_pool-Harmless name desired (failed e) = λ e _. inl refl

  deploy_worker_pool-Harmless :
      (project region name : String) (desired : ServiceState)
      → Harmless name (deploy_worker_pool api w project region name desired)
  unfolding deploy_worker_pool
  deploy_worker_pool-Harmless project region name desired =
      with_client-Harmless name (api.worker_pools_client w region) _
        (of_worker_pool-Harmless name desired _)

  of_service-Harmless :
      (name : String) (desired : ServiceState) (otherwise : W × Option ClientError)
      (a : Answer Service)
      → Harmless name otherwise
      → Harmless name (of_service api w name desired otherwise a)
  of_service-Harmless name desired otherwise (found svc) k =
      deploy_to_service-Harmless name desired svc svc.containers
  of_service-Harmless name desired otherwise not_found k = k
  of_service-Harmless name desired otherwise (failed e) k = λ e _. inl refl

  -- If DeployService returns an error, the world is as it was, or the error is that of the
  -- update call itself.
  pub deploy_service-Harmless :
      (project region name : String) (desired : ServiceState) (e : ClientError)
      → (deploy_service api w project region name desired).1 ≡ some e
      → ((deploy_service api w project region name desired).0 ≡ w)
        ⊎ ((cause : String) × (e ≡ not_updated name cause))
  unfolding deploy_service
  deploy_service-Harmless project region name desired =
      with_client-Harmless name (api.services_client w region) _ (
        of_service-Harmless name desired _ _
          (deploy_worker_pool-Harmless project region name desired))
