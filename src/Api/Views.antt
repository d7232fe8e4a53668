-- ===== src/Api/Views.antt =====
-- internal/api/units.go: the views that only callers with a sync grant may ask for.
pub mod Scanned
pub mod Limited
use run_cd.Base.{
  ℕ, String, ◌==◌, Bool, true, false, not, ◌||◌, Option, none, some, List, [], ◌∷◌, filter, map,
  contains, leb, Result, ok, err, if◌then◌else◌,
}
use run_cd.Base.Int.{ℤ, pos, negsuc}
use run_cd.Expander.{SyncUnit}
use run_cd.Rbac.{get, has_any_grant}
use run_cd.Reconcile.{External, World, SyncResult, Status, Health}
use run_cd.Reconcile.Entry.{dry_run}
use run_cd.Reconcile.Orphans.{OrphanScope, Orphan, detect_orphans}
use run_cd.Api.{
  Handler, Request, Refusal, unauthorized, unknown_unit, forbidden, unsupported, code_of, may_sync,
  listed,
}

-- A view's reply: a refusal, a failure inside, a bad request, all of the answer, or a part of it.
pub data View (A : Type 0) : Type 0 where
  refused : Refusal → View A
  broken bad_request : View A
  whole partial : A → View A

abbrev pub view_code : {A : Type 0} → View A → ℕ
view_code (refused r) = code_of r
view_code broken = 500
view_code bad_request = 400
view_code (whole a) = 200
view_code (partial a) = 206

-- scannable
abbrev pub scannable : Handler → String → List SyncUnit
scannable h email = filter (λ u. may_sync h email u) (listed h.list)

abbrev projects_of : List SyncUnit → List String
projects_of units = map (λ (u : SyncUnit). u.project) units

abbrev pub shown_orphans : List String → List Orphan → List Orphan
shown_orphans allowed orphans = filter (λ o. contains allowed o.project) orphans

abbrev pub view_of_scan :
    List String → Option (List Orphan) × List (OrphanScope × String) → View (List Orphan)
view_of_scan allowed (none, []) = whole []
view_of_scan allowed (none, e ∷ es) = broken
view_of_scan allowed (some orphans, []) = whole (shown_orphans allowed orphans)
view_of_scan allowed (some orphans, e ∷ es) = partial (shown_orphans allowed orphans)

abbrev scan_listed :
    (OrphanScope → Result String (List String))
    → List SyncUnit
    → Option (List SyncUnit)
    → View (List Orphan)
scan_listed list_names units none = refused unsupported
scan_listed list_names units (some all) =
    view_of_scan (projects_of units) (detect_orphans list_names units)

abbrev orphans_for :
    (OrphanScope → Result String (List String)) → Handler → Option String → View (List Orphan)
orphans_for list_names h none = refused unauthorized
orphans_for list_names h (some email) =
    if not (has_any_grant (get h.rbac) email)
    then refused forbidden
    else scan_listed list_names (scannable h email) h.list

unfoldable pub handle_orphans :
    (OrphanScope → Result String (List String)) → Handler → Request → View (List Orphan)
unfolding detect_orphans
handle_orphans list_names h r = orphans_for list_names h r.caller

-- defaultHistoryLimit and maxHistoryLimit
abbrev pub default_history_limit : ℕ
default_history_limit = 50

abbrev pub max_history_limit : ℕ
max_history_limit = 500

-- n <= 0 is refused; else min(n, maxHistoryLimit)
abbrev limit_of : Option ℤ → Option ℕ
limit_of none = none
limit_of (some (negsuc n)) = none
limit_of (some (pos n)) =
    if leb n 0 then none else some (if leb n max_history_limit then n else max_history_limit)

-- The limit of the query; strconv.Atoi is a parameter.
unfoldable pub history_limit : (String → Option ℤ) → String → Option ℕ
history_limit atoi q = if not (q == "") then limit_of (atoi q) else some default_history_limit

-- SyncHistory: the events of a unit, at most so many, or an error.
abbrev pub History : Type 0 → Type 0
History E = String → String → ℕ → Option (List E)

abbrev history_view : {E : Type 0} → Option (List E) → View (List E)
history_view none = broken
history_view (some events) = whole events

abbrev history_limited : {E : Type 0} → History E → Request → Option ℕ → View (List E)
history_limited sync_history r none = bad_request
history_limited sync_history r (some limit) = history_view (sync_history r.app r.project limit)

abbrev history_found :
    {E : Type 0}
    → History E
    → (String → Option ℤ)
    → Handler
    → Request
    → String
    → String
    → Option SyncUnit
    → View (List E)
history_found sync_history atoi h r q email none = refused unknown_unit
history_found sync_history atoi h r q email (some unit) =
    if not (may_sync h email unit)
    then refused forbidden
    else history_limited sync_history r (history_limit atoi q)

abbrev history_for :
    {E : Type 0}
    → History E
    → (String → Option ℤ)
    → Handler
    → Request
    → String
    → Option String
    → View (List E)
history_for sync_history atoi h r q none = refused unauthorized
history_for sync_history atoi h r q (some email) =
    history_found sync_history atoi h r q email (h.find r.app r.project)

unfoldable pub handle_unit_history :
    {E : Type 0} → History E → (String → Option ℤ) → Handler → Request → String → View (List E)
unfolding history_limit
handle_unit_history sync_history atoi h r q = history_for sync_history atoi h r q r.caller

-- The error is left out.
pub record DryRunView : Type 0 where
  pub app : String
  pub project : String
  pub status : Status
  pub health : Health
  pub desired_image : String
  pub live_image : String
  pub observing : Bool

abbrev dry_run_view : Request → SyncResult → DryRunView
dry_run_view r res = record {
  app = r.app;
  project = r.project;
  status = res.status;
  health = res.health;
  desired_image = res.desired_image;
  live_image = res.live_image;
  observing = res.observing;
}

module _ (x : External) where
  abbrev dry_run_found :
      Handler → Request → String → World x.Cloud → Option SyncUnit → View DryRunView
  dry_run_found h r email w none = refused unknown_unit
  dry_run_found h r email w (some unit) =
      if not (may_sync h email unit)
      then refused forbidden
      else whole (dry_run_view r (dry_run x h.base unit r.now w).1)

  abbrev dry_run_for : Handler → Request → World x.Cloud → Option String → View DryRunView
  dry_run_for h r w none = refused unauthorized
  dry_run_for h r w (some email) = dry_run_found h r email w (h.find r.app r.project)

  unfoldable pub handle_dry_run : Handler → Request → World x.Cloud → View DryRunView
  handle_dry_run h r w = dry_run_for h r w r.caller
