-- ===== src/Examples.antt =====
-- Concrete inputs, runs of the model on them, and the theorems applied to them.
mod Deployment
mod Resolution
mod Leadership
mod Locking
mod Membership
mod Cached
mod Client
mod Requests
mod Updates
mod Orphaned
mod Notifications
use run_cd.Base.{
  ℕ, ◌≤◌, String, ◌≡◌, ◌≢◌, ◌↔◌, ◌⊎◌, refl, Bool, true, false, Option, none, some, List, [], ◌∷◌,
  Memᴰ, All, Unique, arith, Result, ok, err, lookup, contains,
}
use run_cd.Base.Int.{pos}
use run_cd.Config.{SyncPolicy, SyncWindow, NotifyOverride, Environment, Override, App, Root}
use run_cd.Config.Window.{matches, windows_allow}
use run_cd.Config.Window.Covers.{Covers, matches-Covers}
use run_cd.Config.Window.Allows.{Inside, Declares, windows_allow_iff}
use run_cd.Expander.{SyncUnit, expand}
use run_cd.Expander.Expansion.{expansion, IsExpandable}
use run_cd.Expander.Laws.{expand_iff}
use run_cd.Expander.Policies.{HasPolicy, expand-HasPolicy}
use run_cd.Cloudrun.{ServiceState, LiveService, ReadError, SecretRef}
use run_cd.Manifest
use run_cd.Manifest.{ServiceDefinition, Precondition, with_default}
use run_cd.Manifest.Parsed.{IsValid, parse_iff}
use run_cd.Precondition.{Checker, check}
use run_cd.Precondition.Laws.{Exists, check_iff}
use run_cd.Registry.{Semver}
use run_cd.Rbac
use run_cd.Rbac.{can_sync_folders, has_any_grant, folder_scopes, scope_matches}
use run_cd.Rbac.Scopes
use run_cd.Rbac.Scopes.{scope_matches-Covers}
use run_cd.Rbac.Grants.{HasScope, IsNamed, can_sync_folders_iff, can_sync-has_any_grant}
use run_cd.Rbac.Folders.{Mentions, folder_scopes_lem}
use run_cd.Diff.{synced, compute, map_equal, text_same}
use run_cd.Diff.Maps.{IsMap, map_equal_iff}
use run_cd.Diff.Laws.{HasMaps, Agrees, compute-Agrees}
use run_cd.Health.{assess_service}
use run_cd.Health.Table.{assess_service_table}
use run_cd.Reconcile.{
  Status, SyncOptions, SyncResult, Trigger, auto, manual, World, External, Db, AppRow, LockRow,
}
use run_cd.Reconcile.Deploy.{Attempt, effective_state, deploy_sync_unit}
use run_cd.Reconcile.Deploy.Ahead.{Prepared, deploy_sync_unit-Prepared}
use run_cd.Reconcile.Pass.{would_deploy}
use run_cd.Reconcile.Pass.Decision.{AutoAllowed, would_deploy_iff}
use run_cd.Reconcile.Unit.{reconcile}
use run_cd.Reconcile.Unit.Guarantees.{MayDeploy, reconcile_authorized}

-- Tuesday nights from 22:00 to 02:00
abbrev night : SyncWindow
night = record { kind = "allow"; days = "Tue" ∷ []; start_hour = pos 22; end_hour = pos 2 }

abbrev freeze : SyncWindow
freeze = record { kind = "deny"; days = "Fri" ∷ []; start_hour = pos 0; end_hour = pos 0 }

-- Wednesday 7 January 1970, 01:00 UTC
abbrev wednesday_night : ℕ
wednesday_night = 522000

abbrev policy : SyncPolicy
policy = record {
  auto = some true;
  retry = none;
  self_heal = none;
  sync_windows = some (night ∷ freeze ∷ []);
  observe = none;
}

abbrev plain : SyncPolicy
plain = record { auto = none; retry = none; self_heal = none; sync_windows = none; observe = none }

abbrev prod : Environment
prod = record {
  projects = "p1" ∷ "p2" ∷ [];
  folders = [];
  region = "europe-west1";
  sync = policy;
  notify = record { slack = ""; rules = none };
}

abbrev api : App
api = record {
  name = "api";
  env = "prod";
  source = record { repo = "git"; path = "api/service.yaml"; branch = "main" };
  overrides = ("p1", record { region = "us-east1"; track = ""; version = "" }) ∷ [];
  exclude = "p2" ∷ [];
  ignore_fields = [];
  ignore_preconditions = [];
}

abbrev config : Root
config = record {
  environments = ("prod", prod) ∷ [];
  defaults = record { region = ""; managed_fields = "image" ∷ []; sync = plain };
  apps = api ∷ [];
  notify = record { slack = []; rules = [] };
}

abbrev api_unit : SyncUnit
api_unit = record {
  app = "api";
  project = "p1";
  env = "prod";
  region = "us-east1";
  sync = policy;
  source_repo = "git";
  source_path = "api/service.yaml";
  source_branch = "main";
  ignore_fields = [];
  ignore_preconditions = [];
  track = "";
  version = "";
}

expand_run : expand config ≡ ok (api_unit ∷ [])
unfolding expand run_cd.Expander.expand_apps run_cd.Expander.expand_app lookup
    run_cd.Expander.check_app run_cd.Expander.check_overrides contains
    run_cd.Expander.check_excludes run_cd.Expander.expand_projects run_cd.Expander.unit_of
    run_cd.Expander.resolve_region run_cd.Config.Policy.merge
expand_run = refl

expand-HasPolicy_example : All (HasPolicy config) (api_unit ∷ [])
expand-HasPolicy_example = expand-HasPolicy config (api_unit ∷ []) expand_run

night_run : matches night wednesday_night ≡ true
unfolding matches run_cd.Config.Window.hour_of run_cd.Config.Window.day_matches
    run_cd.Config.Window.weekday_before run_cd.Config.Window.day_of
night_run = refl

expand_iff_example :
    (expand config ≡ ok (api_unit ∷ []))
    ↔ (IsExpandable config × (api_unit ∷ [] ≡ expansion config config.apps))
expand_iff_example = expand_iff config (api_unit ∷ [])

matches-Covers_example : (matches night wednesday_night ≡ true) ↔ Covers night 22 2 wednesday_night
matches-Covers_example =
    matches-Covers night 22 2 wednesday_night refl refl (omega arith) (omega arith) (omega arith)

windows_allow_iff_example : (windows_allow (night ∷ freeze ∷ []) wednesday_night ≡ true) ↔ (
    (¬ (Inside "deny" (night ∷ freeze ∷ []) wednesday_night))
    × ((¬ (Declares "allow" (night ∷ freeze ∷ [])))
        ⊎ Inside "allow" (night ∷ freeze ∷ []) wednesday_night))
windows_allow_iff_example = windows_allow_iff (night ∷ freeze ∷ []) wednesday_night

abbrev roles : Rbac.Config
roles = record {
  roles =
      record {
        subject = "ann@example.com";
        role = "syncer";
        scope = "app:api@p1" ∷ "folder:42" ∷ "folder:42" ∷ [];
      }
      ∷ [];
}

can_sync_run : can_sync_folders (some roles) [] "ann@example.com" api_unit ≡ true
unfolding can_sync_folders scope_matches run_cd.Base.cut_prefix run_cd.Base.cut
can_sync_run = refl

can_sync_folders_iff_example :
    (can_sync_folders (some roles) [] "ann@example.com" api_unit ≡ true)
    ↔ HasScope (some roles) "ann@example.com" (Scopes.Covers [] api_unit)
can_sync_folders_iff_example = can_sync_folders_iff (some roles) [] "ann@example.com" api_unit

can_sync-has_any_grant_example : has_any_grant (some roles) "ann@example.com" ≡ true
unfolding lookup
can_sync-has_any_grant_example =
    can_sync-has_any_grant (some roles) [] "ann@example.com" api_unit
      (record { app_named = λ e. cc; project_named = λ e. cc; env_named = λ e. cc }) refl
      can_sync_run

folder_scopes_lem_example :
    Unique (folder_scopes (some roles))
    × ((id : String) → Memᴰ id (folder_scopes (some roles)) ↔ Mentions (some roles) id)
folder_scopes_lem_example = folder_scopes_lem (some roles)

scope_matches-Covers_example :
    (scope_matches "folder:42" api_unit (("42", "p1" ∷ []) ∷ []) ≡ true)
    ↔ Scopes.Covers (("42", "p1" ∷ []) ∷ []) api_unit "folder:42"
scope_matches-Covers_example = scope_matches-Covers (("42", "p1" ∷ []) ∷ []) api_unit "folder:42"
