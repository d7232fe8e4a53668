-- ===== src/Reconcile/Deploy.antt =====
-- deploySyncUnit of internal/reconcile/reconcile.go: lock, audit row, deploy, check, release.
pub mod Ahead
pub mod Reached
use run_cd.Base.{
  ℕ, String, ◌==◌, Bool, true, false, Option, none, some, List, [], ◌∷◌, contains, Result, ok, err,
  if◌then◌else◌,
}
use run_cd.Cloudrun.{ServiceState, ReadError}
use run_cd.Diff
use run_cd.Diff.{compute}
use run_cd.Expander.{SyncUnit}
use run_cd.Reconcile.{
  Status, Health, SyncError, SyncResult, SyncOptions, EventResult, in_progress, succeeded, failed,
  sync_in_progress, acquire_lock_failed, upsert_before_deploy, write_event,
  deploy_and_update_failed, post_check_failed, post_check_and_update_failed, update_failed, Db,
  DeployCall, World, External,
}
use run_cd.Reconcile.Store.{
  acquire_lock, release_lock, insert_sync_event, update_sync_event, upsert,
}

unfoldable pub field_managed : List String → String → Bool
field_managed managed_fields name = contains managed_fields name

abbrev pub first_of_errors : SyncError → Option SyncError → Option SyncError
first_of_errors e none = some e
first_of_errors e (some old) = some old

-- `if res.Err == nil { res.Err = … }`
abbrev pub set_error : SyncError → SyncResult → SyncResult
set_error e res = record res { error = first_of_errors e res.error }

abbrev pub of_diff : Diff.Status → Status
of_diff Diff.synced = Status.synced
of_diff Diff.out_of_sync = Status.out_of_sync

-- an image that is not managed is replaced by the live one
unfoldable pub effective_state : List String → ServiceState → ServiceState → ServiceState
effective_state managed_fields desired live =
    if field_managed managed_fields "image"
    then desired
    else record desired { image_digest = live.image_digest }

-- The calls that differ by resource type: the two closures of reconcile, over Cloud Run's state.
pub record Target (C : Type 0) : Type 0 where
  pub fetch : C → Result ReadError (ServiceState × Health)
  pub deploy : C → ServiceState → C × Option String

-- What one attempt deploys, and for whom.
pub record Attempt (C : Type 0) : Type 0 where
  pub unit : SyncUnit
  pub desired : ServiceState
  pub live : ServiceState
  pub resource_type : String
  pub target : Target C
  pub options : SyncOptions
  pub managed_fields : List String

module _ (x : External) where
  abbrev pub Run : Type 0
  Run = World x.Cloud × SyncResult

  abbrev pub settle :
      SyncError → (String → SyncError) → SyncResult → World x.Cloud × Result String (Unit {0}) → Run
  settle plain also res (w, ok u) = (w, set_error plain res)
  settle plain also res (w, err e) = (w, set_error (also e) res)

  abbrev pub settle_success : SyncResult → World x.Cloud × Result String (Unit {0}) → Run
  settle_success res (w, ok u) = (w, res)
  settle_success res (w, err e) = (w, set_error (update_failed e) res)

  -- after a deploy call that succeeded
  abbrev pub after_deploy :
      Attempt x.Cloud
      → ServiceState
      → SyncResult
      → ℕ
      → World x.Cloud
      → Result ReadError (ServiceState × Health)
      → Run
  after_deploy a desired res id w (err e) =
      settle (post_check_failed e) (post_check_and_update_failed e) res
        (update_sync_event x id succeeded "" w)
  after_deploy a desired res id w (ok (live, health)) =
      settle_success
        (record res {
          live_image = live.image_digest;
          health = health;
          status = of_diff (compute desired live a.managed_fields a.resource_type);
        })
        (update_sync_event x id succeeded "" w)

  abbrev pub on_deployed :
      Attempt x.Cloud → ServiceState → SyncResult → ℕ → World x.Cloud → Option String → Run
  on_deployed a desired res id w (some e) =
      settle (SyncError.deploy_failed e) (deploy_and_update_failed e)
        (record res { deploy_failed = true; failure_message = e })
        (update_sync_event x id failed e w)
  on_deployed a desired res id w none = after_deploy a desired res id w (a.target.fetch w.cloud)

  -- The call of the attempt's deploy, which the world records.
  unfoldable pub call_deploy :
      Attempt x.Cloud → ServiceState → World x.Cloud → World x.Cloud × Option String
  call_deploy a desired w =
      let (cloud, e) = a.target.deploy w.cloud desired in
      let call : DeployCall = record {
        application = a.unit.app;
        project = a.unit.project;
        state = desired;
        tables = w.db;
      } in
      (record w { cloud = cloud; deploys = call ∷ w.deploys }, e)

  unfoldable pub run_deploy : Attempt x.Cloud → ServiceState → SyncResult → ℕ → World x.Cloud → Run
  run_deploy a desired res id w =
      let (w', e) = call_deploy a desired w in on_deployed a desired res id w' e

  abbrev pub on_event :
      Attempt x.Cloud → ServiceState → SyncResult → World x.Cloud × Result String ℕ → Run
  on_event a desired res (w, err e) = (w, record res { error = some (write_event e) })
  on_event a desired res (w, ok id) = run_deploy a desired res id w

  abbrev pub on_upsert :
      Attempt x.Cloud → ServiceState → SyncResult → World x.Cloud × SyncResult × Option String → Run
  on_upsert a desired res (w, _, some e) = (w, record res { error = some (upsert_before_deploy e) })
  on_upsert a desired res (w, _, none) = on_event a desired res (
      insert_sync_event x a.unit a.options.trigger a.options.actor a.live.image_digest
        desired.image_digest w)

  -- the section that holds the lock
  unfoldable pub deploy_locked : Attempt x.Cloud → ServiceState → SyncResult → World x.Cloud → Run
  unfolding run_deploy call_deploy
  deploy_locked a desired res w = on_upsert a desired res (upsert x res w)

  abbrev released : Attempt x.Cloud → String → Run → Run
  released a token (w, res) = (release_lock x a.unit token w, res)

  abbrev pub on_lock :
      Attempt x.Cloud
      → ServiceState
      → String
      → SyncResult
      → World x.Cloud × Result String Bool
      → Run
  on_lock a desired token res (w, err e) = (w, record res { error = some (acquire_lock_failed e) })
  on_lock a desired token res (w, ok false) = (w, record res { error = some sync_in_progress })
  on_lock a desired token res (w, ok true) = released a token (deploy_locked a desired res w)

  unfoldable pub deploy_sync_unit : Attempt x.Cloud → SyncResult → World x.Cloud → Run
  unfolding effective_state field_managed deploy_locked
  deploy_sync_unit a res w =
      let desired = effective_state a.managed_fields a.desired a.live in
      let token = x.token w.statements in
      on_lock a desired token res (acquire_lock x a.unit token w)
