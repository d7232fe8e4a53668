-- ===== src/Reconcile/Pass.antt =====
-- The decision of applyLiveState in internal/reconcile/reconcile.go, and the filters before it.
pub mod Decision
pub mod Deploys
use Prim.Native.Char.{code}
use Prim.Native.String
use run_cd.Base.{
  ℕ, String, ◌==◌, Bool, true, false, not, ◌&&◌, ◌||◌, Option, none, some, List, [], ◌∷◌, filter,
  map, is_some, contains, Result, ok, err, if◌then◌else◌, nat_eq,
}
use run_cd.Config.{SyncPolicy}
use run_cd.Config.Window.{windows_allow}
use run_cd.Cloudrun.{SecretRef, ServiceState, LiveService, LiveJob, ReadError, other}
use run_cd.Cloudrun
use run_cd.Diff
use run_cd.Diff.{compute}
use run_cd.Health.{assess_service, assess_worker_pool, assess_job}
use run_cd.Manifest
use run_cd.Manifest.{ServiceDefinition, Precondition}
use run_cd.Precondition
use run_cd.Registry.{Tag, resolve}
use run_cd.Expander.{SyncUnit}
use run_cd.Reconcile.{
  Status, Health, Trigger, SyncError, SyncResult, SyncOptions, auto, manual, fetch_manifest,
  invalid_definition, no_repository, no_tag_resolver, unknown_resource_type, env_unsupported,
  list_tags_failed, resolve_failed, precondition_failed, sync_in_progress, observe_mode,
  get_live_state, upsert_failed, World, External,
}
use run_cd.Reconcile.Store.{upsert}
use run_cd.Reconcile.Deploy.{
  Target, Attempt, Run, set_error, of_diff, field_managed, deploy_sync_unit,
}

abbrev pub is_true : Option Bool → Bool
is_true none = false
is_true (some b) = b

unfoldable pub auto_sync_enabled : SyncPolicy → Bool
auto_sync_enabled sync = is_true sync.auto

unfoldable pub observe_mode_enabled : SyncPolicy → Bool
observe_mode_enabled sync = is_true sync.observe

-- With nothing to ignore the code returns the list itself, which the filter does too.
unfoldable pub effective_managed_fields : List String → List String → List String
effective_managed_fields base ignore = filter (λ f. not (contains ignore f)) base

unfoldable pub filter_preconditions : List Precondition → List String → List Precondition
filter_preconditions requires ignore =
    filter (λ req. not (contains ignore (String.◌++◌ req.type (String.◌++◌ ":" req.name)))) requires

abbrev windows_of {ℓ} : {A : Type ℓ} → Option (List A) → List A
windows_of none = []
windows_of (some ws) = ws

unfoldable pub auto_allowed : SyncPolicy → ℕ → Bool
unfolding auto_sync_enabled
auto_allowed sync now = auto_sync_enabled sync && windows_allow (windows_of sync.sync_windows) now

abbrev pub is_blocked : Status → Bool
is_blocked Status.invalid = true
is_blocked Status.missing = true
is_blocked _ = false

abbrev pub is_out_of_sync : Status → Bool
is_out_of_sync Status.out_of_sync = true
is_out_of_sync _ = false

-- wouldDeploy
unfoldable pub would_deploy : Status → SyncPolicy → SyncOptions → Bool
unfolding auto_allowed
would_deploy status sync options =
    not options.dry_run
    && (not (is_blocked status)
        && (options.force || (is_out_of_sync status && auto_allowed sync options.now)))

abbrev pub or_status : Status → Status → Status
or_status Status.unset s = s
or_status old s = old

module _ (x : External) where
  -- the end of applyLiveState
  unfoldable pub decide : Attempt x.Cloud → SyncResult → World x.Cloud → Run x
  unfolding would_deploy
  decide a res w =
      if would_deploy res.status a.unit.sync a.options
      then (if res.observing
          then (w, if a.options.force then set_error observe_mode res else res)
          else deploy_sync_unit x a res w)
      else (w, res)

  abbrev pub on_live :
      Attempt x.Cloud
      → SyncResult
      → World x.Cloud
      → Result ReadError (ServiceState × Health)
      → Run x
  on_live a res w (err Cloudrun.not_provisioned) = (
    w,
    set_error SyncError.not_provisioned
        (record res { health = Health.missing; status = or_status res.status Status.missing }),
  )
  on_live a res w (err (other e)) = (
    w,
    set_error (get_live_state e)
        (record res { health = Health.invalid; status = or_status res.status Status.invalid }),
  )
  on_live a res w (ok (live, health)) =
      decide (record a { live = live })
        (record res {
          live_image = live.image_digest;
          health = health;
          status =
              or_status res.status
                (of_diff (compute a.desired live a.managed_fields a.resource_type));
        })
        w

  -- The attempt's live state is the one that this fetch returns.
  unfoldable pub apply_live_state : Attempt x.Cloud → SyncResult → World x.Cloud → Run x
  unfolding decide
  apply_live_state a res w = on_live a res w (a.target.fetch w.cloud)
