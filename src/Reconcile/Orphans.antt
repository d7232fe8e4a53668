-- ===== src/Reconcile/Orphans.antt =====
-- internal/reconcile/orphans.go: live services that no unit declares. The scopes, which the code scans
-- at once, are taken in the order of the map; a listing of a scope is a function of it.
pub mod Declared
pub mod Found
pub mod Failed
use run_cd.Base.{
  ℕ, suc, String, ◌==◌, Bool, true, false, not, ◌&&◌, Option, none, some, List, [], ◌∷◌, ◌++◌, ltb,
  nat_eq, length, contains, Result, ok, err, if◌then◌else◌,
}
use run_cd.Expander.{SyncUnit}

pub record OrphanScope : Type 0 where
  pub project : String
  pub region : String

pub record Orphan : Type 0 where
  pub project : String
  pub region : String
  pub app : String

abbrev pub scope_eq : OrphanScope → OrphanScope → Bool
scope_eq a b = (a.project == b.project) && (a.region == b.region)

abbrev pub scope_of : SyncUnit → OrphanScope
scope_of u = record { project = u.project; region = u.region }

-- expectedApps: for a scope, the apps that are marked in it.
abbrev pub Expected : Type 0
Expected = List (OrphanScope × List String)

-- expectedApps[key][app] = true
unfoldable pub mark : OrphanScope → String → Expected → Expected
mark key app [] = (key, app ∷ []) ∷ []
mark key app ((k, apps) ∷ m) =
    let rest = mark key app m in if scope_eq k key then (k, app ∷ apps) ∷ m else (k, apps) ∷ rest

unfoldable pub expected_from : Expected → List SyncUnit → Expected
unfolding mark
expected_from m [] = m
expected_from m (u ∷ us) = expected_from (mark (scope_of u) u.app m) us

unfoldable pub expected_apps : List SyncUnit → Expected
unfolding expected_from
expected_apps units = expected_from [] units

-- expectedApps[key]
unfoldable pub apps_at : OrphanScope → Expected → List String
apps_at key [] = []
apps_at key ((k, apps) ∷ m) = let rest = apps_at key m in if scope_eq k key then apps else rest

abbrev pub scopes : Expected → List OrphanScope
scopes [] = []
scopes ((k, apps) ∷ m) = k ∷ scopes m

-- the names of a scope that are not marked
unfoldable pub unmarked : OrphanScope → List String → List String → List Orphan
unmarked key apps [] = []
unmarked key apps (name ∷ names) =
    let rest = unmarked key apps names in
    if not (contains apps name)
    then record { project = key.project; region = key.region; app = name } ∷ rest
    else rest

-- What the loop over the scopes has gathered.
pub record Scan : Type 0 where
  pub orphans : List Orphan
  pub errors : List (OrphanScope × String)
  pub succeeded : ℕ

abbrev pub with_result : OrphanScope → List String → Result String (List String) → Scan → Scan
with_result key apps (ok names) rest = record {
  orphans = unmarked key apps names ++ rest.orphans;
  errors = rest.errors;
  succeeded = suc rest.succeeded;
}
with_result key apps (err e) rest = record {
  orphans = rest.orphans;
  errors = (key, e) ∷ rest.errors;
  succeeded = rest.succeeded;
}

unfoldable pub scan :
    (OrphanScope → Result String (List String)) → Expected → List OrphanScope → Scan
unfolding unmarked apps_at
scan list_names m [] = record { orphans = []; errors = []; succeeded = 0 }
scan list_names m (key ∷ keys) =
    with_result key (apps_at key m) (list_names key) (scan list_names m keys)

-- the orphans, nil if every scope failed, with the errors
abbrev pub report : ℕ → Scan → Option (List Orphan) × List (OrphanScope × String)
report n s =
    if ltb 0 n && nat_eq s.succeeded 0 then (none, s.errors) else (some s.orphans, s.errors)

unfoldable pub detect_orphans :
    (OrphanScope → Result String (List String))
    → List SyncUnit
    → Option (List Orphan) × List (OrphanScope × String)
unfolding expected_apps scan
detect_orphans list_names units =
    let m = expected_apps units in report (length (scopes m)) (scan list_names m (scopes m))
