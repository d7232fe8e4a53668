-- ===== src/Expander.antt =====
-- internal/expander/expander.go: from apps and environments to the flat list of sync units.
pub mod Expansion
pub mod Checks
pub mod Laws
pub mod Policies
use Prim.Native.String
use run_cd.Base.{
  String, ◌==◌, Bool, true, false, not, Option, none, some, List, [], ◌∷◌, ◌++◌, map, is_some,
  contains, lookup, Result, ok, err, ◌then_check◌, first_error, if◌then◌else◌,
}
use run_cd.Config.{SyncPolicy, Environment, Override, App, Root}
use run_cd.Config.Policy.{merge}

pub record SyncUnit : Type 0 where
  pub app : String
  pub project : String
  pub env : String
  pub region : String
  pub sync : SyncPolicy
  pub source_repo : String
  pub source_path : String
  pub source_branch : String
  pub ignore_fields : List String
  pub ignore_preconditions : List String
  pub track : String
  pub version : String

pub data ExpandError : Type 0 where
  unknown_environment : (app env : String) → ExpandError
  override_not_in_environment : (app project : String) → ExpandError
  exclude_not_in_environment : (app project : String) → ExpandError
  overridden_and_excluded : (app project : String) → ExpandError
  no_region : (app project : String) → ExpandError
  collision : (app project : String) → ExpandError

-- the key of `seenAppProject`
unfoldable pub unit_key : String → String → String
unit_key app project = String.◌++◌ app (String.◌++◌ "/" project)

-- for project := range app.Overrides
unfoldable pub check_overrides : App → Environment → Option ExpandError
check_overrides app env =
    first_error
      (λ o.
        if contains env.projects o.0 then none else some (override_not_in_environment app.name o.0))
      app.overrides

-- for _, project := range app.Exclude
unfoldable pub check_excludes : App → Environment → Option ExpandError
check_excludes app env =
    first_error
      (λ project.
        if contains env.projects project
        then (if is_some (lookup project app.overrides)
            then some (overridden_and_excluded app.name project)
            else none)
        else some (exclude_not_in_environment app.name project))
      app.exclude

abbrev or_else : String → String → String
or_else preferred fallback = if preferred == "" then fallback else preferred

-- the override's region, the environment's, the default, the first that is not empty
unfoldable pub resolve_region : Root → Environment → Option Override → String
resolve_region root env none = or_else env.region root.defaults.region
resolve_region root env (some o) = or_else o.region (or_else env.region root.defaults.region)

abbrev override_track : Option Override → String
override_track none = ""
override_track (some o) = o.track

abbrev override_version : Option Override → String
override_version none = ""
override_version (some o) = o.version

-- the literal that the inner loop appends
unfoldable pub unit_of : Root → App → Environment → String → SyncUnit
unit_of root app env project = record {
  app = app.name;
  project = project;
  env = app.env;
  region = resolve_region root env (lookup project app.overrides);
  sync = merge root.defaults.sync env.sync;
  source_repo = app.source.repo;
  source_path = app.source.path;
  source_branch = app.source.branch;
  ignore_fields = app.ignore_fields;
  ignore_preconditions = app.ignore_preconditions;
  track = override_track (lookup project app.overrides);
  version = override_version (lookup project app.overrides);
}

-- `seenAppProject` and `units`
pub record Progress : Type 0 where
  pub seen : List String
  pub units : List SyncUnit

-- the inner loop, over env.Projects
unfoldable pub expand_projects :
    Root → App → Environment → List String → Progress → Result ExpandError Progress
expand_projects root app env [] s = ok s
expand_projects root app env (project ∷ rest) s =
    let unit = unit_of root app env project in
    let key = unit_key app.name project in
    let skipped = expand_projects root app env rest s in
    let added =
      expand_projects root app env rest
        (record s { seen = key ∷ s.seen; units = s.units ++ unit ∷ [] }) in
    if contains app.exclude project
    then skipped
    else if unit.region == ""
    then err (no_region app.name project)
    else if contains s.seen key
    then err (collision app.name project)
    else added

-- the checks of one app, in the order of the code
unfoldable pub check_app : App → Environment → Option ExpandError
check_app app env = check_overrides app env then_check check_excludes app env

abbrev expand_checked :
    Root → App → Environment → Option ExpandError → Progress → Result ExpandError Progress
expand_checked root app env (some e) s = err e
expand_checked root app env none s = expand_projects root app env env.projects s

-- one round of the outer loop
unfoldable pub expand_app : Root → App → Option Environment → Progress → Result ExpandError Progress
expand_app root app none s = err (unknown_environment app.name app.env)
expand_app root app (some env) s = expand_checked root app env (check_app app env) s

abbrev continue_with :
    (Progress → Result ExpandError Progress)
    → Result ExpandError Progress
    → Result ExpandError Progress
continue_with f (ok s) = f s
continue_with f (err e) = err e

unfoldable pub expand_apps : Root → List App → Progress → Result ExpandError Progress
expand_apps root [] s = ok s
expand_apps root (app ∷ rest) s =
    continue_with (expand_apps root rest) (expand_app root app (lookup app.env root.environments) s)

abbrev pub units_result : Result ExpandError Progress → Result ExpandError (List SyncUnit)
units_result (ok s) = ok s.units
units_result (err e) = err e

unfoldable pub expand : Root → Result ExpandError (List SyncUnit)
expand root = units_result (expand_apps root root.apps (record { seen = []; units = [] }))
