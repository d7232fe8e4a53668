-- ===== src/Examples/Deployment.antt =====
-- The same for manifests, states, and a pass over one unit.
use run_cd.Base.{String, ◌≡◌, ◌↔◌, ◌⊎◌, inl, refl, true, false, none, some, [], ◌∷◌, All, ok, err}
use run_cd.Base.Int.{pos}
use run_cd.Cloudrun
use run_cd.Cloudrun.{ServiceState, LiveService, ReadError, SecretRef}
use run_cd.Manifest
use run_cd.Manifest.{ServiceDefinition, Precondition, with_default}
use run_cd.Manifest.Parsed.{IsValid, parse_iff}
use run_cd.Precondition.{Checker, check}
use run_cd.Precondition.Laws.{Exists, check_iff}
use run_cd.Diff.{synced, compute}
use run_cd.Diff.Maps.{IsMap}
use run_cd.Diff.Laws.{HasMaps, Agrees, compute-Agrees}
use run_cd.Health.{missing, progressing, degraded, healthy, assess_service}
use run_cd.Health.Table.{Differs, assess_service_table}
use run_cd.Reconcile.{Health, SyncOptions, auto, World, External}
use run_cd.Reconcile.Deploy.{Attempt, effective_state, deploy_sync_unit}
use run_cd.Reconcile.Deploy.Ahead.{Prepared, deploy_sync_unit-Prepared}
use run_cd.Reconcile.Pass.{apply_live_state}
use run_cd.Reconcile.Pass.Deploys.{Calls, IsDue, status_of, apply_live_state-Calls_iff}
use run_cd.Reconcile.Unit.{blank, reconcile}
use run_cd.Reconcile.Unit.Reported.{IsReported, reconcile-IsReported}
use run_cd.Reconcile.Unit.Guarantees.{MayDeploy, reconcile_authorized}
use run_cd.Reconcile.Entry.{auto_options, run_once}
use run_cd.Reconcile.Entry.Fleet.{Grown, OfFleet, run_once-OfFleet}
use run_cd.Examples.{api_unit, wednesday_night}

abbrev digest : String
digest = "sha256:0123456789abcdef0123456789abcdef0123456789abcdef0123456789abcdef"

abbrev definition : ServiceDefinition
definition = record {
  resource_type = "";
  image = record { digest = digest; track = ""; version = ""; repository = "" };
  traffic = none;
  env = some (("MODE", "prod") ∷ []);
  secrets = [];
  requires = record { type = "pubsubTopic"; name = "orders" } ∷ [];
}

parse_iff_example : (Manifest.parse (λ _. some definition) "api" ≡ ok (with_default definition)) ↔ (
    (raw : ServiceDefinition) × (some definition ≡ some raw)
    × (with_default definition ≡ with_default raw)
    × IsValid (with_default definition))
parse_iff_example = parse_iff (λ _. some definition) "api" (with_default definition)

abbrev live_state : ServiceState
live_state = record {
  image_digest = "sha256:old";
  traffic_latest_revision_percent = some (pos 100);
  env_vars = some (("MODE", "prod") ∷ []);
  secret_refs = none;
}

abbrev desired_state : ServiceState
desired_state = record {
  image_digest = digest;
  traffic_latest_revision_percent = none;
  env_vars = some (("MODE", "prod") ∷ []);
  secret_refs = none;
}

env_IsMap : IsMap {V = String} (("MODE", "prod") ∷ [])
env_IsMap = (λ m. elim m [ ], tt)

live_HasMaps : HasMaps live_state
live_HasMaps = record { env_map = env_IsMap; secret_map = tt }

desired_HasMaps : HasMaps desired_state
desired_HasMaps = record { env_map = env_IsMap; secret_map = tt }

compute-Agrees_example :
    (compute desired_state live_state ("image" ∷ "env" ∷ []) "service" ≡ synced)
    ↔ All (Agrees desired_state live_state "service") ("image" ∷ "env" ∷ [])
compute-Agrees_example =
    compute-Agrees desired_state live_state ("image" ∷ "env" ∷ []) "service" desired_HasMaps
      live_HasMaps

abbrev live_service : LiveService
live_service = record {
  state = live_state;
  has_revision_for_desired_digest = true;
  latest_revision_ready = true;
  latest_revision_creating = false;
}

assess_service_table_example :
    let result = assess_service desired_state live_service true in
    ((result ≡ missing) ↔ (true ≡ false))
    × ((result ≡ progressing) ↔ (
        (true ≡ true)
        × ((false ≡ true) ⊎ ((true ≡ true) × Differs desired_state live_service true))))
    × ((result ≡ degraded) ↔ ((true ≡ true) × ((false ≡ false) × (true ≡ false))))
    × ((result ≡ healthy) ↔ (
        (true ≡ true)
        × ((false ≡ false) × ((true ≡ true) × (¬ (Differs desired_state live_service true))))))
assess_service_table_example = assess_service_table desired_state live_service true

abbrev checker : Checker
checker = record { topic_exists = λ _ _. ok true; subscription_exists = λ _ _. err "denied" }

check_iff_example :
    (check checker "p1" definition.requires ≡ none) ↔ All (Exists checker "p1") definition.requires
check_iff_example = check_iff checker "p1" definition.requires

abbrev options : SyncOptions
options = record {
  trigger = auto;
  actor = "runcd-controller";
  force = false;
  dry_run = false;
  now = wednesday_night;
}

-- Cloud Run with one service, of which only the digest is kept; no statement fails.
abbrev pub outside : External
outside = record {
  Cloud = String;
  get_service = λ live project region app wanted.
      ok (record live_service { state = record live_state { image_digest = live } });
  get_job = λ live project region app wanted. err Cloudrun.not_provisioned;
  deploy_service = λ live project region app state. (state.image_digest, none);
  deploy_job = λ live project region app state. (live, some "no such job");
  get_manifest = λ unit. ok "api";
  unmarshal = λ _. some definition;
  list_tags = none;
  semver = record {
    is_valid = λ _. false;
    prerelease = λ _. "";
    major = λ s. s;
    major_minor = λ s. s;
    canonical = λ s. s;
    compare_versions = λ _ _. pos 0;
  };
  checker = checker;
  fault = λ _. none;
  clock = λ n. wednesday_night;
  token = λ _. "t";
}

abbrev pub before : World String
before = record {
  db = record { locks = λ _ _. none; applications = λ _ _. none; events = []; next_id = 1 };
  cloud = "sha256:old";
  statements = 0;
  deploys = [];
}

reconcile_authorized_example :
    ((reconcile outside ("image" ∷ []) api_unit options before).0 ≡ before)
    ⊎ MayDeploy api_unit options
reconcile_authorized_example = reconcile_authorized outside ("image" ∷ []) api_unit options before

abbrev attempt : Attempt String
attempt = record {
  unit = api_unit;
  desired = desired_state;
  live = live_state;
  resource_type = "service";
  target = record {
    fetch = λ live. ok (record live_state { image_digest = live }, Health.healthy);
    deploy = λ live state. (state.image_digest, none);
  };
  options = options;
  managed_fields = "image" ∷ [];
}

deploy_sync_unit-Prepared_example :
    Prepared api_unit "t"
      (effective_state ("image" ∷ []) desired_state live_state)
      []
      (deploy_sync_unit outside attempt (blank api_unit) before).0.deploys
deploy_sync_unit-Prepared_example =
    deploy_sync_unit-Prepared outside attempt (blank api_unit) before

apply_live_state-Calls_iff_example :
    Calls outside attempt before live_state
      (apply_live_state outside attempt (blank api_unit) before).0.deploys
    ↔ IsDue outside attempt before
        (blank api_unit)
        (status_of outside attempt before (blank api_unit) live_state)
apply_live_state-Calls_iff_example =
    apply_live_state-Calls_iff outside attempt (blank api_unit) before live_state Health.healthy
      refl refl (refl, refl, refl) (inl refl)

-- The image differs, and the policy allows the time: the deploy is called.
apply_live_state_run : (apply_live_state outside attempt (blank api_unit) before).0.cloud ≡ digest
unfolding apply_live_state deploy_sync_unit compute run_cd.Config.Window.windows_allow
    run_cd.Config.Window.matches run_cd.Config.Window.day_matches run_cd.Config.Window.weekday
    run_cd.Config.Window.day_of run_cd.Config.Window.hour_of run_cd.Config.Window.weekday_before
    run_cd.Reconcile.Pass.observe_mode_enabled run_cd.Reconcile.Store.acquire_lock
    run_cd.Reconcile.Store.release_lock run_cd.Reconcile.Store.upsert
    run_cd.Reconcile.Store.insert_sync_event run_cd.Reconcile.Store.update_sync_event
    run_cd.Base.contains
apply_live_state_run = refl

run_once-OfFleet_example :
    Grown
      (OfFleet (api_unit ∷ []) (auto_options wednesday_night))
      []
      (run_once outside ("image" ∷ []) (api_unit ∷ []) wednesday_night before).world.deploys
run_once-OfFleet_example =
    run_once-OfFleet outside ("image" ∷ []) (api_unit ∷ []) wednesday_night before

reconcile-IsReported_example :
    IsReported (reconcile outside ("image" ∷ []) api_unit options before).1
reconcile-IsReported_example = reconcile-IsReported outside ("image" ∷ []) api_unit options before
