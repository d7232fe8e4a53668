-- ===== src/Reconcile/Unit.antt =====
-- reconcile of internal/reconcile/reconcile.go: one unit, from its manifest to the live state.
pub mod Cases
pub mod Guarantees
pub mod Reported
use Prim.Native.Char.{Char, code}
use Prim.Native.String
use run_cd.Base.{
  ℕ, String, ◌==◌, Bool, true, false, not, ◌&&◌, ◌||◌, Option, none, some, List, [], ◌∷◌, map,
  is_some, Result, ok, err, if◌then◌else◌, nat_eq,
}
use run_cd.Base.Int.{ℤ}
use run_cd.Cloudrun.{SecretRef, ServiceState, LiveService, LiveJob, ReadError}
use run_cd.Health.{
  Status as HealthStatus, healthy, progressing, degraded, missing, assess_service,
  assess_worker_pool, assess_job, zero_state,
}
use run_cd.Manifest
use run_cd.Manifest.{ServiceDefinition, Traffic}
use run_cd.Precondition.{CheckError, check}
use run_cd.Registry.{Tag, ResolveError, resolve}
use run_cd.Expander.{SyncUnit}
use run_cd.Reconcile.{
  Status, Health, SyncError, SyncResult, SyncOptions, fetch_manifest, invalid_definition,
  no_repository, no_tag_resolver, unknown_resource_type, env_unsupported, list_tags_failed,
  resolve_failed, precondition_failed, World, External,
}
use run_cd.Reconcile.Deploy.{Target, Attempt, Run, field_managed}
use run_cd.Reconcile.Pass.{
  observe_mode_enabled, effective_managed_fields, filter_preconditions, apply_live_state,
}

-- path.Base: the text without trailing slashes, after its last slash.
abbrev drop_slash : Char → String → String
drop_slash c rest = if (rest == "") && nat_eq (code c) b'/' then "" else String.◌∷◌ c rest

unfoldable pub trim_slashes : String → String
trim_slashes String.[] = ""
trim_slashes (String.◌∷◌ c s) = drop_slash c (trim_slashes s)

abbrev after_slash : Char → String → Option String → Option String
after_slash c s (some r) = some r
after_slash c s none = if nat_eq (code c) b'/' then some s else none

unfoldable pub last_segment : String → Option String
last_segment String.[] = none
last_segment (String.◌∷◌ c s) = after_slash c s (last_segment s)

abbrev or_whole : String → Option String → String
or_whole s none = s
or_whole s (some r) = r

unfoldable pub path_base : String → String
unfolding trim_slashes last_segment
path_base s =
    if s == ""
    then "."
    else let t = trim_slashes s in if t == "" then "/" else or_whole t (last_segment t)

abbrev resolved : Result ResolveError String → Result SyncError String
resolved (ok d) = ok d
resolved (err e) = err (resolve_failed e)

abbrev secret_version : String → String
secret_version v = if v == "" then "latest" else v

-- The loop that fills desired.SecretRefs; the names are distinct in a parsed definition.
abbrev secret_refs_of : List Manifest.SecretRef → List (String × SecretRef)
secret_refs_of [] = []
secret_refs_of (s ∷ rest) =
    (s.name, record { secret = s.secret; version = secret_version s.version }) ∷ secret_refs_of rest

abbrev env_or_empty : Option (List (String × String)) → List (String × String)
env_or_empty none = []
env_or_empty (some m) = m

abbrev percent_of : Option Traffic → Option ℤ
percent_of none = none
percent_of (some t) = t.latest_revision_percent

-- desired, with the managed fields of the definition alone
unfoldable pub desired_state : ServiceDefinition → String → List String → ServiceState
desired_state sd digest managed_fields = record {
  image_digest = digest;
  traffic_latest_revision_percent =
      if field_managed managed_fields "traffic" then percent_of sd.traffic else none;
  env_vars = if field_managed managed_fields "env" then some (env_or_empty sd.env) else none;
  secret_refs =
      if field_managed managed_fields "env" then some (secret_refs_of sd.secrets) else none;
}

abbrev pub of_health : HealthStatus → Health
of_health healthy = Health.healthy
of_health progressing = Health.progressing
of_health degraded = Health.degraded
of_health missing = Health.missing

abbrev service_view :
    (LiveService → HealthStatus)
    → Result ReadError LiveService
    → Result ReadError (ServiceState × Health)
service_view assess (err e) = err e
service_view assess (ok live) = ok (live.state, of_health (assess live))

abbrev job_view : Result ReadError LiveJob → Result ReadError (ServiceState × Health)
job_view (err e) = err e
job_view (ok live) = ok (live.state, of_health (assess_job live))

-- the status, health and error of an early return
abbrev pub invalid : SyncError → SyncResult → SyncResult
invalid e res = record res { status = Status.invalid; health = Health.invalid; error = some e }

abbrev pub blank : SyncUnit → SyncResult
blank unit = record {
  unit = unit;
  desired_image = "";
  live_image = "";
  track = "";
  version = "";
  repository = "";
  resource_type = "";
  status = Status.unset;
  health = Health.unset;
  status_since = none;
  health_since = none;
  deploy_failed = false;
  failure_message = "";
  error = none;
  observing = observe_mode_enabled unit.sync;
}

-- the definition's image fields in the result
abbrev pub described : ServiceDefinition → SyncResult → SyncResult
described sd res = record res {
  track = sd.image.track;
  version = sd.image.version;
  repository = sd.image.repository;
  resource_type = sd.resource_type;
}

abbrev pub has_override : SyncUnit → Bool
has_override unit = not (unit.track == "") || not (unit.version == "")

-- `res` with the digest that is wanted
abbrev pub with_digest : SyncUnit → String → SyncResult → SyncResult
with_digest unit digest res =
    if has_override unit
    then record res { desired_image = digest; track = unit.track; version = unit.version }
    else record res { desired_image = digest }

-- a failed precondition does not return: health is still assessed
abbrev pub with_preconditions : Option CheckError → SyncResult → SyncResult
with_preconditions none res = res
with_preconditions (some e) res = record res {
  status = Status.invalid;
  error = some (precondition_failed e);
}

module _ (x : External) where
  abbrev resolve_tags : SyncUnit → String → Result String (List Tag) → Result SyncError String
  resolve_tags unit repository (err e) = err (list_tags_failed e)
  resolve_tags unit repository (ok tags) =
      resolved (resolve x.semver tags unit.track unit.version (path_base repository))

  abbrev live_tags :
      SyncUnit → String → Option (String → Result String (List Tag)) → Result SyncError String
  live_tags unit repository none = err no_tag_resolver
  live_tags unit repository (some list) = resolve_tags unit repository (list repository)

  -- the manifest's digest, or the one that the unit's override resolves to
  unfoldable pub desired_digest : SyncUnit → ServiceDefinition → Result SyncError String
  unfolding path_base
  desired_digest unit sd =
      if has_override unit
      then (if sd.image.repository == ""
          then err no_repository
          else live_tags unit sd.image.repository x.list_tags)
      else ok sd.image.digest

  -- the closures for a service, a worker pool or a job
  unfoldable pub target_of :
      SyncUnit → String → String → ServiceState → Bool → Option (Target x.Cloud)
  target_of unit resource_type fetch_digest desired traffic_managed =
      let service =
        λ (c : x.Cloud). x.get_service c unit.project unit.region unit.app fetch_digest in
      let deploy = λ (c : x.Cloud) (d : ServiceState).
        x.deploy_service c unit.project unit.region unit.app d in
      if resource_type == "service"
      then some (record {
        fetch = λ c. service_view (λ live. assess_service desired live traffic_managed) (service c);
        deploy = deploy;
      })
      else if resource_type == "workerPool"
      then some
          (record { fetch = λ c. service_view assess_worker_pool (service c); deploy = deploy })
      else if resource_type == "job"
      then some (record {
        fetch = λ c. job_view (x.get_job c unit.project unit.region unit.app fetch_digest);
        deploy = λ c d. x.deploy_job c unit.project unit.region unit.app d;
      })
      else none

  abbrev pub on_target :
      SyncUnit
      → SyncOptions
      → ServiceDefinition
      → ServiceState
      → List String
      → SyncResult
      → World x.Cloud
      → Option (Target x.Cloud)
      → Run x
  on_target unit options sd desired managed_fields res w none =
      (w, invalid unknown_resource_type res)
  on_target unit options sd desired managed_fields res w (some target) =
      apply_live_state x
        (record {
          unit = unit;
          desired = desired;
          live = zero_state;
          resource_type = sd.resource_type;
          target = target;
          options = options;
          managed_fields = managed_fields;
        })
        res w

  -- from the desired digest on
  unfoldable pub assess :
      List String
      → SyncUnit
      → SyncOptions
      → ServiceDefinition
      → String
      → SyncResult
      → World x.Cloud
      → Run x
  unfolding desired_state target_of
  assess base unit options sd digest res w =
      let managed_fields = effective_managed_fields base unit.ignore_fields in
      let checked =
        with_preconditions
          (check x.checker unit.project
            (filter_preconditions sd.requires unit.ignore_preconditions))
          res in
      let desired = desired_state sd digest managed_fields in
      let fetch_digest = if field_managed managed_fields "image" then digest else "" in
      if (sd.resource_type == "job")
        && (field_managed managed_fields "env" && not (is_some checked.error))
      then (w, invalid env_unsupported checked)
      else on_target unit options sd desired managed_fields checked w (
          target_of unit sd.resource_type fetch_digest desired
            (field_managed managed_fields "traffic"))

  abbrev pub on_digest :
      List String
      → SyncUnit
      → SyncOptions
      → ServiceDefinition
      → SyncResult
      → World x.Cloud
      → Result SyncError String
      → Run x
  on_digest base unit options sd res w (err e) = (w, invalid e res)
  on_digest base unit options sd res w (ok digest) =
      assess base unit options sd digest (with_digest unit digest res) w

  abbrev pub on_definition :
      List String
      → SyncUnit
      → SyncOptions
      → SyncResult
      → World x.Cloud
      → Result Manifest.ParseError ServiceDefinition
      → Run x
  on_definition base unit options res w (err e) = (w, invalid (invalid_definition e) res)
  on_definition base unit options res w (ok sd) =
      on_digest base unit options sd (described sd res) w (desired_digest unit sd)

  abbrev pub on_manifest :
      List String
      → SyncUnit
      → SyncOptions
      → SyncResult
      → World x.Cloud
      → Result String String
      → Run x
  on_manifest base unit options res w (err e) = (w, invalid (fetch_manifest e) res)
  on_manifest base unit options res w (ok raw) =
      on_definition base unit options res w (Manifest.parse x.unmarshal raw)

  -- `base` is the reconciler's ManagedFields.
  unfoldable pub reconcile : List String → SyncUnit → SyncOptions → World x.Cloud → Run x
  unfolding assess desired_digest
  reconcile base unit options w = on_manifest base unit options (blank unit) w (x.get_manifest unit)
