-- ===== src/Cloudrun/Deploy/Synced.antt =====
-- What a redeployed container is read as.
use run_cd.Base.{
  String, ◌==◌, ◌≡◌, ◌≢◌, refl, Bool, true, ◌⊎◌, inl, inr, Option, none, some, List, [], ◌∷◌,
  All-intro, arith, Result, ok, err, Lacks, Bool-cases, eq_refl, is_some, nat_eq, ◌||◌,
  if◌then◌else◌,
}
use run_cd.Base.Int.{ℤ, pos, negsuc}
use run_cd.Registry.{Tag}
use run_cd.Cloudrun.{SecretRef, ServiceState, LiveService}
use run_cd.Cloudrun.Env.{EnvVar, Container, env_state_from_containers, build_env_vars}
use run_cd.Cloudrun.Env.Laws.{env_or_none-IsMap, env_or_none-build_env_vars}
use run_cd.Cloudrun.Image.{resolve_image_digest}
use run_cd.Cloudrun.Image.Laws.{resolve_image_digest-with_digest}
use run_cd.Cloudrun.Api.{Condition, latest, unsupported_percent, TrafficTarget, ClientError}
use run_cd.Cloudrun.Read.{resolved, latest_revision_percent, live_of, container_image}
use run_cd.Cloudrun.Deploy.{validated_percent, traffic_for, redeployed}
use run_cd.Diff.{synced, compute}
use run_cd.Diff.Laws.{HasMaps, Agrees, compute-Agrees}

-- The wanted percentage is the one that the traffic has after the deploy.
pub traffic_for-latest_revision_percent :
    (name : String) (wanted : Option ℤ) (old traffic : List TrafficTarget)
    → traffic_for name wanted old ≡ ok traffic
    → wanted ≢ none
    → wanted ≡ some (latest_revision_percent traffic)
unfolding validated_percent latest_revision_percent
traffic_for-latest_revision_percent name none old traffic h d = absurd (d refl)
traffic_for-latest_revision_percent name (some (negsuc n)) old traffic h d = absurd (cc)
traffic_for-latest_revision_percent name (some (pos n)) old traffic h d =
    elim (Bool-cases (nat_eq n 100)) [
      | inl full ↦
          let targets : ◌≡◌ {A = Result ClientError (List TrafficTarget)}
              (ok (record { type = latest; percent = pos n } ∷ [])) (ok traffic) =
            rw full at h in
          let same : record { type = latest; percent = pos n } ∷ [] ≡ traffic = cc in
          rw (← same) (ground arith)
      | inr other ↦ absurd (
          let e : ◌≡◌ {A = Result ClientError (List TrafficTarget)} (err (unsupported_percent name))
              (ok traffic) =
            rw other at h in
          cc)
    ]

-- The environment after the deploy: the wanted one if one is declared.
redeployed-env :
    (vars : Option (List (String × String))) (refs : Option (List (String × SecretRef)))
    (old : List EnvVar)
    → (vars ≢ none) ⊎ (refs ≢ none)
    → (if is_some vars || is_some refs then build_env_vars vars refs else old)
      ≡ build_env_vars vars refs
redeployed-env (some v) refs old h = refl
redeployed-env none (some r) old h = refl
redeployed-env none none old h = absurd (elim h [ inl d ↦ d refl | inr d ↦ d refl ])

-- What is read from a resource whose first container has been redeployed.
abbrev pub live_after :
    ServiceState → Container → List Container → Option ℤ → Condition → Bool → LiveService
live_after desired c cs percent condition reconciles =
    live_of percent (redeployed desired c ∷ cs) condition reconciles desired.image_digest
      desired.image_digest

pub own_revision : (digest : String) → ((digest == "") || (digest == digest)) ≡ true
own_revision digest = rw (eq_refl digest) (ground arith)

module _ (desired : ServiceState) (c : Container) (cs : List Container) (maps : HasMaps desired)
    (bare : Lacks b'@' desired.image_digest) where
  pub redeployed-compute :
      (percent : Option ℤ) (condition : Condition) (reconciles : Bool) (fields : List String)
      (resource_type : String)
      → (resource_type ≡ "service"
          → desired.traffic_latest_revision_percent ≢ none
          → desired.traffic_latest_revision_percent ≡ percent)
      → compute desired
          (live_after desired c cs percent condition reconciles).state
          fields
          resource_type
        ≡ synced
  unfolding env_state_from_containers
  redeployed-compute percent condition reconciles fields resource_type traffic =
      let state = (live_after desired c cs percent condition reconciles).state in
      let read = env_or_none-IsMap (redeployed desired c).env in
      (compute-Agrees desired state fields resource_type maps
          (record { env_map = read.0; secret_map = read.1 })).1
        (All-intro (Agrees desired state resource_type) fields (λ f. (
          λ _. refl,
          λ _. traffic,
          λ _ _ managed.
              let written = redeployed-env desired.env_vars desired.secret_refs c.env managed in
              let back =
                env_or_none-build_env_vars desired.env_vars desired.secret_refs maps.env_map
                  maps.secret_map in
              rw written (back.0.1, back.1.1),
        )))

  redeployed-image :
      (registry : Option (String → Option (List Tag)))
      → resolve_image_digest registry (container_image (redeployed desired c ∷ cs))
        ≡ ok desired.image_digest
  unfolding container_image
  redeployed-image registry =
      (resolve_image_digest-with_digest registry c.image desired.image_digest desired.image_digest
        bare bare).0

  pub resolved-live_after :
      (registry : Option (String → Option (List Tag))) (name : String) (percent : Option ℤ)
      (condition : Condition) (reconciles : Bool) (containers : List Container)
      → containers ≡ redeployed desired c ∷ cs
      → resolved name
          (live_of percent containers condition reconciles desired.image_digest)
          (resolve_image_digest registry (container_image containers))
        ≡ ok (live_after desired c cs percent condition reconciles)
  resolved-live_after registry name percent condition reconciles containers e =
      rw (e, redeployed-image registry) refl
