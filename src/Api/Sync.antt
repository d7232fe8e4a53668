-- ===== src/Api/Sync.antt =====
-- internal/api/api.go and sync_batch.go: a manual sync of one unit, and of all that the caller may sync.
-- The units of a batch are taken one after another.
pub mod Authorized
use run_cd.Base.{
  ℕ, String, ◌==◌, Bool, true, false, not, ◌&&◌, ◌||◌, Option, none, some, List, [], ◌∷◌, filter,
  any, if◌then◌else◌,
}
use run_cd.Expander.{SyncUnit}
use run_cd.Rbac.{Config, Membership, get, folder_membership, can_sync_folders, has_any_grant}
use run_cd.Reconcile
use run_cd.Reconcile.{SyncError, SyncResult, Status, Health, observe_mode, World, External}
use run_cd.Reconcile.Entry.{Outcome, is_in_progress, manual_sync}
use run_cd.Api.{
  Handler, Request, Refusal, unauthorized, unknown_unit, forbidden, unsupported, code_of, may_sync,
}
use Prim.Native.String.{◌++◌}

-- errors.Is(res.Err, ErrObserveMode)
abbrev pub is_observe_mode : Option SyncError → Bool
is_observe_mode (some observe_mode) = true
is_observe_mode _ = false

-- What handleSync replies with, and its status code.
pub data SyncReply : Type 0 where
  refused : Refusal → SyncReply
  failed in_progress observing : SyncReply
  synced : Status → Health → Bool → SyncReply

abbrev pub reply_code : SyncReply → ℕ
reply_code (refused r) = code_of r
reply_code failed = 500
reply_code in_progress = 409
reply_code observing = 409
reply_code (synced s h deploy_failed) = if deploy_failed then 422 else 200

-- the error of the applications table first, then the result's
abbrev pub reply_to : Option String → List SyncResult → SyncReply
reply_to (some e) results = failed
reply_to none [] = failed
reply_to none (res ∷ rest) =
    if is_in_progress res.error
    then in_progress
    else if is_observe_mode res.error
    then observing
    else synced res.status res.health res.deploy_failed

pub data Skipped : Type 0 where
  attempted forbidden_unit sync_error already_running in_observe_mode : Skipped

pub record BatchResult : Type 0 where
  pub app : String
  pub project : String
  pub status : Status
  pub health : Health
  pub skipped : Skipped
  pub deploy_failed : Bool

abbrev pub skipped_unit : SyncUnit → Skipped → BatchResult
skipped_unit unit why = record {
  app = unit.app;
  project = unit.project;
  status = Reconcile.Status.unset;
  health = Reconcile.Health.unset;
  skipped = why;
  deploy_failed = false;
}

abbrev pub batch_result : SyncUnit → SyncReply → BatchResult
batch_result unit (refused r) = skipped_unit unit forbidden_unit
batch_result unit failed = skipped_unit unit sync_error
batch_result unit in_progress = skipped_unit unit already_running
batch_result unit observing = skipped_unit unit in_observe_mode
batch_result unit (synced s h deploy_failed) = record {
  app = unit.app;
  project = unit.project;
  status = s;
  health = h;
  skipped = attempted;
  deploy_failed = deploy_failed;
}

-- A row of the applications table, of which the batch reads the status.
pub record ApplicationRow : Type 0 where
  pub app : String
  pub project : String
  pub is_synced : Bool

abbrev pub row_key : String → String → String
row_key app project = app ++ ("/" ++ project)

-- A later row of a key replaces an earlier one in the code's map; the table has one row per key.
unfoldable pub known_synced : List ApplicationRow → SyncUnit → Bool
known_synced rows unit =
    any (λ row. (row_key row.app row.project == row_key unit.app unit.project) && row.is_synced)
      rows

-- without the rows, every unit is kept
unfoldable pub filter_out_of_sync : Option (List ApplicationRow) → List SyncUnit → List SyncUnit
unfolding known_synced
filter_out_of_sync none units = units
filter_out_of_sync (some rows) units = filter (λ u. not (known_synced rows u)) units

-- The query of a batch: ?project= and ?filter=outOfSync.
pub record Query : Type 0 where
  pub project : String
  pub only_out_of_sync : Bool

unfoldable pub candidates :
    Handler → String → Query → Option (List ApplicationRow) → List SyncUnit → List SyncUnit
unfolding filter_out_of_sync
candidates h email q rows units =
    let chosen = filter (λ u. (q.project == "") || (u.project == q.project)) units in
    if q.only_out_of_sync && has_any_grant (get h.rbac) email
    then filter_out_of_sync rows chosen
    else chosen

module _ (x : External) where
  abbrev pub replied : Outcome x.Cloud → World x.Cloud × SyncReply
  replied o = (o.world, reply_to o.failure o.results)

  abbrev pub sync_allowed :
      Handler → String → SyncUnit → ℕ → World x.Cloud → World x.Cloud × SyncReply
  sync_allowed h email unit now w =
      if not (may_sync h email unit)
      then (w, refused forbidden)
      else replied (manual_sync x h.base unit email now w)

  abbrev sync_found :
      Handler → String → Option SyncUnit → ℕ → World x.Cloud → World x.Cloud × SyncReply
  sync_found h email none now w = (w, refused unknown_unit)
  sync_found h email (some unit) now w = sync_allowed h email unit now w

  abbrev sync_for : Handler → Request → Option String → World x.Cloud → World x.Cloud × SyncReply
  sync_for h r none w = (w, refused unauthorized)
  sync_for h r (some email) w = sync_found h email (h.find r.app r.project) r.now w

  unfoldable pub handle_sync : Handler → Request → World x.Cloud → World x.Cloud × SyncReply
  handle_sync h r w = sync_for h r r.caller w

  unfoldable pub sync_one_for_batch :
      Handler → String → SyncUnit → ℕ → World x.Cloud → World x.Cloud × BatchResult
  sync_one_for_batch h email unit now w =
      let (next, reply) = sync_allowed h email unit now w in (next, batch_result unit reply)

  unfoldable pub sync_units :
      Handler → String → List SyncUnit → ℕ → World x.Cloud → World x.Cloud × List BatchResult
  unfolding sync_one_for_batch
  sync_units h email [] now w = (w, [])
  sync_units h email (unit ∷ rest) now w =
      let (next, result) = sync_one_for_batch h email unit now w in
      let (end, results) = sync_units h email rest now next in (end, result ∷ results)

  -- the status code with the results, or a refusal
  abbrev batch_code : List BatchResult → ℕ
  batch_code results = if any (λ res. res.deploy_failed) results then 422 else 200

  abbrev pub batch_listed :
      Handler
      → Request
      → Query
      → Option (List ApplicationRow)
      → String
      → Option (List SyncUnit)
      → World x.Cloud
      → World x.Cloud × ℕ × List BatchResult
  batch_listed h r q rows email none w = (w, code_of unsupported, [])
  batch_listed h r q rows email (some units) w =
      let (next, results) = sync_units h email (candidates h email q rows units) r.now w in
      (next, batch_code results, results)

  abbrev batch_for :
      Handler
      → Request
      → Query
      → Option (List ApplicationRow)
      → Option String
      → World x.Cloud
      → World x.Cloud × ℕ × List BatchResult
  batch_for h r q rows none w = (w, code_of unauthorized, [])
  batch_for h r q rows (some email) w = batch_listed h r q rows email h.list w

  unfoldable pub handle_sync_batch :
      Handler
      → Request
      → Query
      → Option (List ApplicationRow)
      → World x.Cloud
      → World x.Cloud × ℕ × List BatchResult
  unfolding sync_units candidates
  handle_sync_batch h r q rows w = batch_for h r q rows r.caller w
