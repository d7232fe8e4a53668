-- ===== src/Examples/Orphaned.antt =====
-- A project with a service that no unit declares, and one whose listing fails.
use run_cd.Base.{
  String, ◌==◌, ◌≡◌, ◌≢◌, ◌↔◌, refl, Option, none, some, List, [], ◌∷◌, Memᴰ, Result, ok, err,
  if◌then◌else◌,
}
use run_cd.Expander.{SyncUnit}
use run_cd.Reconcile.Orphans.{OrphanScope, Orphan, detect_orphans}
use run_cd.Reconcile.Orphans.Declared.{IsCovered}
use run_cd.Reconcile.Orphans.Found.{IsOrphan, detect_orphans_iff}
use run_cd.Reconcile.Orphans.Failed.{detect_orphans-none_iff}
use run_cd.Examples.{api_unit}

abbrev other_unit : SyncUnit
other_unit = record api_unit { project = "p2" }

abbrev live_names : OrphanScope → Result String (List String)
live_names key = if key.project == "p1" then ok ("api" ∷ "old" ∷ []) else err "denied"

abbrev old : Orphan
old = record { project = "p1"; region = "us-east1"; app = "old" }

detect_orphans_iff_example :
    Memᴰ old (old ∷ []) ↔ IsOrphan (λ k. live_names k) (api_unit ∷ other_unit ∷ []) old
unfolding detect_orphans run_cd.Base.contains
detect_orphans_iff_example =
    detect_orphans_iff (λ k. live_names k) (api_unit ∷ other_unit ∷ []) (old ∷ []) old refl

detect_orphans-none_iff_example :
    (((detect_orphans (λ k. live_names k) (other_unit ∷ [])).0 ≡ none) ↔ (
      ((other_unit ∷ []) ≢ [])
      × ((key : OrphanScope)
          → IsCovered (other_unit ∷ []) key
          → (e : String) × (live_names key ≡ err e))))
    × ((detect_orphans (λ k. live_names k) (other_unit ∷ [])).0 ≡ none
        → (detect_orphans (λ k. live_names k) (other_unit ∷ [])).1 ≢ [])
detect_orphans-none_iff_example = detect_orphans-none_iff (λ k. live_names k) (other_unit ∷ [])
