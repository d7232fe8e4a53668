-- ===== src/Reconcile/Entry.antt =====
-- RunOnce, ManualSync and DryRun of internal/reconcile/reconcile.go: a unit's pass, its row in the
-- applications table, and the notifier. RunOnce's goroutines are taken one after another, in the
-- order of the list.
pub mod Fleet
use run_cd.Base.{
  ℕ, String, Bool, true, false, Option, none, some, List, [], ◌∷◌, ◌++◌, if◌then◌else◌,
}
use run_cd.Expander.{SyncUnit}
use run_cd.Reconcile.{
  SyncError, SyncResult, SyncOptions, auto, manual, sync_in_progress, upsert_failed, World,
  External,
}
use run_cd.Reconcile.Store.{upsert}
use run_cd.Reconcile.Deploy.{Run, set_error}
use run_cd.Reconcile.Unit.{reconcile}

-- The world after some passes, their results, the first error of an upsert, and the results that
-- the notifier was given.
pub record Outcome (C : Type 0) : Type 0 where
  pub world : World C
  pub results : List SyncResult
  pub failure : Option String
  pub notified : List SyncResult

-- errors.Is(res.Err, ErrSyncInProgress)
abbrev pub is_in_progress : Option SyncError → Bool
is_in_progress (some sync_in_progress) = true
is_in_progress _ = false

abbrev pub manual_options : String → Bool → Bool → ℕ → SyncOptions
manual_options actor force dry_run now = record {
  trigger = manual;
  actor = actor;
  force = force;
  dry_run = dry_run;
  now = now;
}

abbrev pub auto_options : ℕ → SyncOptions
auto_options now = record {
  trigger = auto;
  actor = "runcd-controller";
  force = false;
  dry_run = false;
  now = now;
}

-- `if err != nil && res.Err == nil { res.Err = … }`
abbrev with_upsert_error : SyncResult → Option String → SyncResult
with_upsert_error res none = res
with_upsert_error res (some e) = set_error (upsert_failed e) res

abbrev or_first : Option String → Option String → Option String
or_first none later = later
or_first (some e) later = some e

module _ (x : External) where
  -- Another attempt's row is left alone: no upsert of a result that found the lock held.
  unfoldable pub record_result : Run x → World x.Cloud × SyncResult × Option String
  record_result (w, res) = if is_in_progress res.error then (w, res, none) else upsert x res w

  abbrev told : World x.Cloud × SyncResult × Option String → Outcome x.Cloud
  told (w, res, e) = record { world = w; results = res ∷ []; failure = e; notified = res ∷ [] }

  unfoldable pub manual_sync : List String → SyncUnit → String → ℕ → World x.Cloud → Outcome x.Cloud
  unfolding record_result
  manual_sync base unit actor now w =
      told (record_result (reconcile x base unit (manual_options actor true false now) w))

  unfoldable pub dry_run : List String → SyncUnit → ℕ → World x.Cloud → Run x
  dry_run base unit now w = reconcile x base unit (manual_options "" false true now) w

  abbrev blamed :
      World x.Cloud × SyncResult × Option String → World x.Cloud × SyncResult × Option String
  blamed (w, res, e) = (w, with_upsert_error res e, e)

  -- the body of one goroutine
  unfoldable pub run_unit : List String → ℕ → SyncUnit → World x.Cloud → Outcome x.Cloud
  unfolding record_result
  run_unit base now unit w =
      told (blamed (record_result (reconcile x base unit (auto_options now) w)))

  abbrev followed_by : Outcome x.Cloud → Outcome x.Cloud → Outcome x.Cloud
  followed_by first later = record {
    world = later.world;
    results = first.results ++ later.results;
    failure = or_first first.failure later.failure;
    notified = first.notified ++ later.notified;
  }

  unfoldable pub run_once : List String → List SyncUnit → ℕ → World x.Cloud → Outcome x.Cloud
  unfolding run_unit
  run_once base [] now w = record { world = w; results = []; failure = none; notified = [] }
  run_once base (unit ∷ rest) now w =
      let first = run_unit base now unit w in followed_by first (run_once base rest now first.world)
