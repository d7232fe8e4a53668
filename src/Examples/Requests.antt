-- ===== src/Examples/Requests.antt =====
-- Requests of a caller who may sync one of two units, and of one without a token.
use run_cd.Base.{
  ℕ, ◌≤◌, String, ◌==◌, ◌≡◌, ◌↔◌, refl, inl, inr, Bool, true, false, Option, none, some, List, [],
  ◌∷◌, filter, Memᴰ, Result, ok, err, if◌then◌else◌,
}
use run_cd.Base.Int.{pos}
use run_cd.Expander.{SyncUnit}
use run_cd.Rbac.{get, has_any_grant}
use run_cd.Reconcile.Orphans.{OrphanScope, Orphan}
use run_cd.Reconcile.Orphans.Found.{IsOrphan}
use run_cd.Api.{Handler, Request, may_sync, listed}
use run_cd.Api.Sync.{Query, candidates, handle_sync, handle_sync_batch}
use run_cd.Api.Sync.Authorized.{
  after_syncs, found_units, handle_sync-after_syncs, handle_sync_batch-after_syncs,
}
use run_cd.Api.Views.{whole, scannable, handle_orphans, handle_unit_history}
use run_cd.Api.Views.Scanned.{handle_orphans-Shows}
use run_cd.Api.Views.Limited.{IsPermitted, handle_unit_history-IsPermitted}
use run_cd.Examples.{api_unit}
use run_cd.Examples.Deployment.{outside, before}

abbrev web_unit : SyncUnit
web_unit = record api_unit { app = "web" }

abbrev find : String → String → Option SyncUnit
find app project = if app == "api" then some api_unit else none

abbrev handler : Handler
handler = record {
  rbac = record {
    v = some (record {
      roles = record { subject = "ann"; role = "deployer"; scope = "app:api@p1" ∷ [] } ∷ [];
    });
    folder = none;
  };
  find = λ app project. find app project;
  list = some (api_unit ∷ web_unit ∷ []);
  base = "image" ∷ [];
}

abbrev ann : Option String
ann = some "ann"

abbrev request : Option String → Request
request caller = record { caller = caller; app = "api"; project = "p1"; now = 1000 }

abbrev everything : Query
everything = record { project = ""; only_out_of_sync = false }

handle_sync-after_syncs_example :
    ((email : String)
      → ann ≡ some email
      → (handle_sync outside handler (request ann) before).0
        ≡ after_syncs outside handler.base email 1000
            (filter (λ u. may_sync handler email u) (found_units (find "api" "p1")))
            before)
    × (ann ≡ none → (handle_sync outside handler (request ann) before).0 ≡ before)
handle_sync-after_syncs_example = handle_sync-after_syncs outside handler (request ann) before

handle_sync_batch-after_syncs_example :
    ((email : String)
      → ann ≡ some email
      → (handle_sync_batch outside handler (request ann) everything none before).0
        ≡ after_syncs outside handler.base email 1000
            (filter
              (λ u. may_sync handler email u)
              (candidates handler email everything none (listed handler.list)))
            before)
    × (ann ≡ none
        → (handle_sync_batch outside handler (request ann) everything none before).0 ≡ before)
handle_sync_batch-after_syncs_example =
    handle_sync_batch-after_syncs outside handler (request ann) everything none before

abbrev live_names : OrphanScope → Result String (List String)
live_names key = ok ("api" ∷ "web" ∷ [])

abbrev web : Orphan
web = record { project = "p1"; region = "us-east1"; app = "web" }

-- The caller may not sync web, so web's unit is left out of the scan, and web is shown as an orphan.
declared_service_shown : handle_orphans (λ k. live_names k) handler (request ann) ≡ whole (web ∷ [])
unfolding handle_orphans has_any_grant get run_cd.Rbac.is_recognized_scope run_cd.Base.cut_prefix
    run_cd.Base.cut run_cd.Rbac.can_sync_folders run_cd.Rbac.scope_matches run_cd.Base.contains
declared_service_shown = refl

handle_orphans-Shows_example :
    (has_any_grant (get handler.rbac) "ann" ≡ true)
    × (Memᴰ web (web ∷ []) ↔ IsOrphan (λ k. live_names k) (scannable handler "ann") web)
handle_orphans-Shows_example =
    handle_orphans-Shows (λ k. live_names k) handler (request ann) "ann" (web ∷ []) web refl
      (inl declared_service_shown)

abbrev events : String → String → ℕ → Option (List ℕ)
events app project limit = some (limit ∷ [])

history_run :
    handle_unit_history (λ a p n. events a p n) (λ q. some (pos 900)) handler (request ann) "900"
    ≡ whole (500 ∷ [])
unfolding handle_unit_history run_cd.Rbac.can_sync_folders get run_cd.Rbac.scope_matches
    run_cd.Base.cut_prefix run_cd.Base.cut
history_run = refl

handle_unit_history-IsPermitted_example :
    IsPermitted (λ a p n. events a p n) handler (request ann) (500 ∷ [])
handle_unit_history-IsPermitted_example =
    handle_unit_history-IsPermitted (λ a p n. events a p n) (λ q. some (pos 900)) handler
      (request ann) "900" (500 ∷ []) history_run
