-- ===== src/Api/Sync/Authorized.antt =====
-- A manual sync changes the world only by syncs of units that the caller may sync.
use run_cd.Base.{
  ℕ, String, ◌≡◌, refl, Option, none, some, List, [], ◌∷◌, filter, Bool-cases, inl, inr, if_cases,
}
use run_cd.Expander.{SyncUnit}
use run_cd.Reconcile.{World, External}
use run_cd.Reconcile.Entry.{manual_sync}
use run_cd.Api.{Handler, Request, may_sync, listed}
use run_cd.Api.Sync.{
  batch_listed, filter_out_of_sync, Query, ApplicationRow, candidates, sync_found, sync_units,
  handle_sync, handle_sync_batch,
}

abbrev pub found_units : Option SyncUnit → List SyncUnit
found_units none = []
found_units (some unit) = unit ∷ []

candidates-nil :
    (h : Handler) (email : String) (q : Query) (rows : Option (List ApplicationRow))
    → candidates h email q rows [] ≡ []
unfolding candidates filter_out_of_sync
candidates-nil h email q none = if_cases (λ l. l ≡ []) _ _ _ refl refl
candidates-nil h email q (some rows) = if_cases (λ l. l ≡ []) _ _ _ refl refl

module _ (x : External) where
  -- The world after manual syncs of the units by the caller, one after another.
  unfoldable pub after_syncs :
      List String → String → ℕ → List SyncUnit → World x.Cloud → World x.Cloud
  after_syncs base email now [] w = w
  after_syncs base email now (unit ∷ rest) w =
      after_syncs base email now rest (manual_sync x base unit email now w).world

  sync_units-after_syncs :
      (h : Handler) (email : String) (now : ℕ) (units : List SyncUnit) (w : World x.Cloud)
      → (sync_units x h email units now w).0
        ≡ after_syncs h.base email now (filter (λ u. may_sync h email u) units) w
  unfolding sync_units after_syncs
  sync_units-after_syncs h email now [] w = refl
  sync_units-after_syncs h email now (unit ∷ rest) w = elim (Bool-cases (may_sync h email unit)) [
    | inl allowed ↦ rw allowed (sync_units-after_syncs h email now rest _)
    | inr denied ↦ rw denied (sync_units-after_syncs h email now rest w)
  ]

  -- A request to sync one unit leaves the world as a manual sync by the verified caller does, if
  -- the unit is found and the caller may sync it; in every other case it leaves the world as it
  -- was.
  pub handle_sync-after_syncs :
      (h : Handler) (r : Request) (w : World x.Cloud)
      → ((email : String)
          → r.caller ≡ some email
          → (handle_sync x h r w).0
            ≡ after_syncs h.base email r.now
                (filter (λ u. may_sync h email u) (found_units (h.find r.app r.project)))
                w)
        × (r.caller ≡ none → (handle_sync x h r w).0 ≡ w)
  unfolding handle_sync after_syncs
  handle_sync-after_syncs h r w =
      ((λ email e. rw e (of_found email (h.find r.app r.project))), (λ e. rw e refl))
    where
      of_found :
          (email : String) (found : Option SyncUnit)
          → (sync_found x h email found r.now w).0
            ≡ after_syncs h.base email r.now
                (filter (λ u. may_sync h email u) (found_units found))
                w
      of_found email none = refl
      of_found email (some unit) = elim (Bool-cases (may_sync h email unit)) [
        | inl allowed ↦ rw allowed refl
        | inr denied ↦ rw denied refl
      ]

  -- For a verified caller, a batch leaves the world as manual syncs by that caller do, one after
  -- another, of exactly those candidates that the caller may sync; without a verified caller it
  -- leaves the world as it was.
  pub handle_sync_batch-after_syncs :
      (h : Handler) (r : Request) (q : Query) (rows : Option (List ApplicationRow))
      (w : World x.Cloud)
      → ((email : String)
          → r.caller ≡ some email
          → (handle_sync_batch x h r q rows w).0
            ≡ after_syncs h.base email r.now
                (filter (λ u. may_sync h email u) (candidates h email q rows (listed h.list)))
                w)
        × (r.caller ≡ none → (handle_sync_batch x h r q rows w).0 ≡ w)
  unfolding handle_sync_batch after_syncs
  handle_sync_batch-after_syncs h r q rows w =
      ((λ email e. rw e (of_list email h.list)), (λ e. rw e refl))
    where
      of_list :
          (email : String) (units : Option (List SyncUnit))
          → (batch_listed x h r q rows email units w).0
            ≡ after_syncs h.base email r.now
                (filter (λ u. may_sync h email u) (candidates h email q rows (listed units)))
                w
      of_list email none = rw (candidates-nil h email q rows) refl
      of_list email (some units) =
          sync_units-after_syncs h email r.now (candidates h email q rows units) w
