-- ===== src/Examples/Client.antt =====
-- A Cloud Run project with one service, and the client's theorems applied to it.
use run_cd.Base.{
  String, ◌==◌, ◌≡◌, sym, ap, ◌∙◌, ◌↔◌, ◌⊎◌, refl, true, false, Option, none, some, List, [], ◌∷◌,
  arith, ok, err, if◌then◌else◌, eq_iff, eq_refl, Bool-cases, inl, inr,
}
use run_cd.Base.Int.{pos}
use run_cd.Cloudrun.{ServiceState, LiveService, SecretRef}
use run_cd.Cloudrun.Image.{with_digest, resolve_image_digest, joined}
use run_cd.Cloudrun.Image.Laws.{colon, resolve_image_digest-with_digest, with_digest-tagged}
use run_cd.Cloudrun.Env.{build_env_vars, env_state_from_containers}
use run_cd.Cloudrun.Env.Assign.{SameMap}
use run_cd.Cloudrun.Env.Laws.{env_state-build_env_vars}
use run_cd.Cloudrun.Api.{
  Service, succeeded_condition, Answer, found, not_found, RunApi, not_provisioned, not_updated,
  service_path, worker_pool_path,
}
use run_cd.Cloudrun.Read.{get_service}
use run_cd.Cloudrun.Read.NotProvisioned.{get_service_not_provisioned_iff}
use run_cd.Cloudrun.Deploy.{deploy_service}
use run_cd.Cloudrun.Deploy.ReadBack.{Serves, deploy_service-Synced}
use run_cd.Cloudrun.Deploy.Harmless.{deploy_service-Harmless}
use run_cd.Diff.{synced, compute, entries_of}
use run_cd.Diff.Laws.{HasMaps}
use Prim.Native.String

resolve_image_digest-with_digest_example :
    (resolve_image_digest none (with_digest "host:5000/api:v1" "sha256:cd") ≡ ok "sha256:cd")
    × (with_digest (with_digest "host:5000/api:v1" "sha256:ab") "sha256:cd"
        ≡ with_digest "host:5000/api:v1" "sha256:cd")
resolve_image_digest-with_digest_example =
    resolve_image_digest-with_digest none "host:5000/api:v1" "sha256:ab" "sha256:cd" (ground arith)
      (ground arith)

with_digest-tagged_example :
    with_digest (String.◌++◌ "host:5000/api" (String.◌∷◌ colon "v1")) "sha256:cd"
    ≡ joined "host:5000/api" "sha256:cd"
with_digest-tagged_example =
    with_digest-tagged "host:5000/api" "v1" "sha256:cd" (ground arith) (ground arith) (ground arith)
      (ground arith)

abbrev wanted_env : Option (List (String × String))
wanted_env = some (("MODE", "prod") ∷ [])

abbrev wanted_secrets : Option (List (String × SecretRef))
wanted_secrets = some (("KEY", record { secret = "api-key"; version = "3" }) ∷ [])

env_state-build_env_vars_example :
    let live =
      env_state_from_containers
        (record { image = "api"; env = build_env_vars wanted_env wanted_secrets } ∷ []) in
    SameMap (entries_of wanted_env) (entries_of live.0)
    × SameMap (entries_of wanted_secrets) (entries_of live.1)
env_state-build_env_vars_example =
    env_state-build_env_vars wanted_env wanted_secrets "api" [] ((λ m. elim m [ ]), tt)
      ((λ m. elim m [ ]), tt)

-- A project that holds one service or none.
abbrev named_as : String → Option Service → Answer Service
named_as path none = not_found
named_as path (some svc) = if svc.name == path then found svc else not_found

abbrev project_api : RunApi (Option Service)
project_api = record {
  services_client = λ w region. none;
  worker_pools_client = λ w region. none;
  jobs_client = λ w region. none;
  executions_client = λ w region. none;
  registry_client = λ w. none;
  get_service = λ w path. named_as path w;
  get_worker_pool = λ w path. not_found;
  get_job = λ w path. not_found;
  get_execution = λ w path. not_found;
  list_services = λ w parent. record { yielded = []; error = none };
  update_service = λ w svc. (some svc, none);
  update_worker_pool = λ w wp. (w, some "no worker pools");
  update_job = λ w job. (w, some "no jobs");
}

named_as-name :
    (path : String) (w : Option Service) (svc : Service)
    → named_as path w ≡ found svc
    → svc.name ≡ path
named_as-name path none svc h = absurd (cc)
named_as-name path (some held) svc h = elim (Bool-cases (held.name == path)) [
  | inl same ↦
      let e : found held ≡ found svc = rw same at h in
      let one : held ≡ svc = cc in
      ap (λ (s : Service). s.name) (sym one) ∙ (eq_iff held.name path).0 same
  | inr other ↦ absurd (let e : not_found ≡ found svc = rw other at h in cc)
]

project_api-Serves : Serves project_api
project_api-Serves = record {
  named = λ w path svc h. named_as-name path w svc h;
  kept = λ w next svc h.
      let e : some svc ≡ next = ap (λ (x : Option Service × Option String). x.0) h in
      (svc, rw (← e, eq_refl svc.name) refl, refl, refl);
  client_stays = λ w next svc region h k. refl;
}

abbrev old_service : Service
old_service = record {
  name = "projects/shop/locations/europe-west1/services/api";
  containers = record { image = "host:5000/api:v1"; env = [] } ∷ [];
  traffic = [];
  terminal_condition = succeeded_condition;
  is_reconciling = false;
}

abbrev wanted : ServiceState
wanted = record {
  image_digest = "sha256:cd";
  traffic_latest_revision_percent = some (pos 100);
  env_vars = wanted_env;
  secret_refs = wanted_secrets;
}

wanted-HasMaps : HasMaps wanted
wanted-HasMaps = record { env_map = ((λ m. elim m [ ]), tt); secret_map = ((λ m. elim m [ ]), tt) }

abbrev after_deploy : Option Service
after_deploy = (deploy_service project_api (some old_service) "shop" "europe-west1" "api" wanted).0

deploy_service-Synced_example :
    (live : LiveService) × (get_service project_api after_deploy "shop" "europe-west1" "api"
        "sha256:cd"
      ≡ ok live)
    × (live.has_revision_for_desired_digest ≡ true)
    × ((fields : List String) → compute wanted live.state fields "service" ≡ synced)
unfolding deploy_service service_path run_cd.Cloudrun.Deploy.validated_percent
deploy_service-Synced_example =
    deploy_service-Synced project_api project_api-Serves (some old_service) after_deploy "shop"
      "europe-west1" "api" old_service wanted refl wanted-HasMaps (ground arith) refl

get_service_not_provisioned_iff_example :
    (get_service project_api none "shop" "europe-west1" "api" "" ≡ err not_provisioned) ↔ (
      (project_api.services_client none "europe-west1" ≡ none)
      × (project_api.get_service none (service_path "shop" "europe-west1" "api") ≡ not_found)
      × (project_api.worker_pools_client none "europe-west1" ≡ none)
      × (project_api.get_worker_pool none (worker_pool_path "shop" "europe-west1" "api")
          ≡ not_found))
get_service_not_provisioned_iff_example =
    get_service_not_provisioned_iff project_api none "shop" "europe-west1" "api" ""

deploy_service-Harmless_example :
    ((deploy_service project_api none "shop" "europe-west1" "api" wanted).0 ≡ none)
    ⊎ ((cause : String) × (not_provisioned ≡ not_updated "api" cause))
unfolding deploy_service
deploy_service-Harmless_example =
    deploy_service-Harmless project_api none "shop" "europe-west1" "api" wanted not_provisioned refl
