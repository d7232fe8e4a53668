-- ===== src/Cloudrun/Deploy/ReadBack.antt =====
-- internal/cloudrun/gcp.go: a deploy of a service, and the read that follows it.
use run_cd.Base.{
  ap, subst, String, ◌≡◌, refl, true, Option, none, some, List, [], ◌∷◌, Result, ok, err, Lacks,
}
use run_cd.Cloudrun.{ServiceState, LiveService}
use run_cd.Cloudrun.Env.{Container}
use run_cd.Cloudrun.Api.{
  Service, TrafficTarget, found, RunApi, ClientError, service_path, with_client,
}
use run_cd.Cloudrun.Read.{latest_revision_percent, get_service, live_service_from_service}
use run_cd.Cloudrun.Deploy.{
  traffic_for, redeployed, updated, deploy_to_service, deploy_service, update_with_traffic,
}
use run_cd.Cloudrun.Deploy.Synced.{
  traffic_for-latest_revision_percent, live_after, redeployed-compute, resolved-live_after,
  own_revision,
}
use run_cd.Diff.{synced, compute}
use run_cd.Diff.Laws.{HasMaps}

-- What the Services API promises: a resource carries the name that it is read by, a read after a
-- successful update has the written specification, and a client that is there stays.
pub record Serves {W : Type 0} (api : RunApi W) : Type 0 where
  pub named :
      (w : W) (path : String) (svc : Service) → api.get_service w path ≡ found svc → svc.name ≡ path
  pub kept :
      (w next : W) (svc : Service)
      → api.update_service w svc ≡ (next, none)
      → (now : Service) × (api.get_service next svc.name ≡ found now)
        × (now.containers ≡ svc.containers)
        × (now.traffic ≡ svc.traffic)
  pub client_stays :
      (w next : W) (svc : Service) (region : String)
      → api.update_service w svc ≡ (next, none)
      → api.services_client w region ≡ none
      → api.services_client next region ≡ none

module _ {W : Type 0} (api : RunApi W) (w next : W) where
  pub updated-none :
      (name : String) (r : W × Option String)
      → updated api w name r ≡ (next, none)
      → r ≡ (next, none)
  updated-none name (after, none) h = ap (λ (x : W × Option ClientError). (x.0, none)) h
  updated-none name (after, some e) h =
      absurd (let q = ap (λ (x : W × Option ClientError). x.1) h in cc)

  -- The update that a successful deploy has made.
  abbrev Written : String → ServiceState → Service → Type 0
  Written name desired svc =
      (c : Container) × (cs : List Container) × (traffic : List TrafficTarget) × (traffic_for name
          desired.traffic_latest_revision_percent svc.traffic
        ≡ ok traffic)
      × (api.update_service w
            (record svc { containers = redeployed desired c ∷ cs; traffic = traffic })
          ≡ (next, none))

  deploy_to_service-Written :
      (name : String) (desired : ServiceState) (svc : Service) (containers : List Container)
      → deploy_to_service api w name desired svc containers ≡ (next, none)
      → Written name desired svc
  deploy_to_service-Written name desired svc [] h =
      absurd (let q = ap (λ (x : W × Option ClientError). x.1) h in cc)
  deploy_to_service-Written name desired svc (c ∷ cs) h =
      of_traffic (traffic_for name desired.traffic_latest_revision_percent svc.traffic) refl h
    where
      of_traffic :
          (r : Result ClientError (List TrafficTarget))
          → traffic_for name desired.traffic_latest_revision_percent svc.traffic ≡ r
          → update_with_traffic api w name desired svc c cs r ≡ (next, none)
          → Written name desired svc
      of_traffic (err e) q k = absurd (let p = ap (λ (x : W × Option ClientError). x.1) k in cc)
      of_traffic (ok traffic) q k = (c, cs, traffic, q, updated-none name _ k)

  -- A deploy that succeeds has had a client.
  with_client-none :
      (o : Option String) (r : W × Option ClientError)
      → with_client o (λ e. (w, some e)) r ≡ (next, none)
      → (o ≡ none) × (r ≡ (next, none))
  with_client-none none r h = (refl, h)
  with_client-none (some e) r h = absurd (let q = ap (λ (x : W × Option ClientError). x.1) h in cc)

  -- The live state that is read from a service is the wanted one.
  abbrev pub IsDeployed : String → String → String → ServiceState → Type 0
  IsDeployed project region name desired =
      (live : LiveService) × (get_service api next project region name desired.image_digest
        ≡ ok live)
      × (live.has_revision_for_desired_digest ≡ true)
      × ((fields : List String) → compute desired live.state fields "service" ≡ synced)

  read_service-IsDeployed :
      (project region name : String) (desired : ServiceState)
      → HasMaps desired
      → Lacks b'@' desired.image_digest
      → (c : Container) (cs : List Container) (old traffic : List TrafficTarget)
      → traffic_for name desired.traffic_latest_revision_percent old ≡ ok traffic
      → (now : Service) → api.services_client next region ≡ none
      → api.get_service next (service_path project region name) ≡ found now
      → now.containers ≡ redeployed desired c ∷ cs
      → now.traffic ≡ traffic
      → IsDeployed project region name desired
  unfolding get_service live_service_from_service
  read_service-IsDeployed project region name desired maps bare c cs old traffic wanted now client
        got containers targets =
      let percent = some (latest_revision_percent now.traffic) in
      let wanted_percent =
        traffic_for-latest_revision_percent name desired.traffic_latest_revision_percent old traffic
          wanted in
      (
        live_after desired c cs percent now.terminal_condition now.is_reconciling,
        rw (client, got)
            (resolved-live_after desired c cs maps bare (api.registry_client next) now.name percent
              now.terminal_condition now.is_reconciling now.containers containers),
        own_revision desired.image_digest,
        λ fields.
            redeployed-compute desired c cs maps bare percent now.terminal_condition
              now.is_reconciling fields "service"
              (λ _ managed. rw targets (wanted_percent managed)),
      )

-- If a service exists, and DeployService of a state whose maps have no key twice and whose
-- digest holds no '@' returns no error, then the next GetService with that digest succeeds,
-- finds a revision for the digest, and the live state it reads is Synced with the deployed
-- state, whatever fields are managed. It rests on an API whose services have the name they are
-- read by, whose reads after an update return the written containers and traffic, and whose
-- clients stay.
pub deploy_service-Synced :
    {W : Type 0} (api : RunApi W) (serves : Serves api) (w next : W) (project region name : String)
    (svc : Service) (desired : ServiceState)
    → api.get_service w (service_path project region name) ≡ found svc
    → HasMaps desired
    → Lacks b'@' desired.image_digest
    → deploy_service api w project region name desired ≡ (next, none)
    → (live : LiveService) × (get_service api next project region name desired.image_digest
        ≡ ok live)
      × (live.has_revision_for_desired_digest ≡ true)
      × ((fields : List String) → compute desired live.state fields "service" ≡ synced)
unfolding deploy_service
deploy_service-Synced api serves w next project region name svc desired there maps bare h =
    let (client, done) = with_client-none api w next (api.services_client w region) _ h in
    let (c, cs, traffic, wanted, update) =
      deploy_to_service-Written api w next name desired svc svc.containers (rw there at done) in
    let (now, got, containers, targets) = serves.kept w next _ update in
    read_service-IsDeployed api w next project region name desired maps bare c cs svc.traffic
      traffic wanted now (serves.client_stays w next _ region update client)
      (subst (λ (p : String). api.get_service next p ≡ found now) (serves.named w _ svc there) got)
      containers targets
