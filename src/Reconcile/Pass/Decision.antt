-- ===== src/Reconcile/Pass/Decision.antt =====
-- The decision at the end of applyLiveState in internal/reconcile/reconcile.go.
use run_cd.Base.{
  ℕ, ◌≡◌, ◌≢◌, ◌↔◌, ◌⊎◌, inl, inr, refl, Bool, true, false, not, ◌&&◌, ◌||◌, some, arith,
  Bool-cases, iff_trans, iff_refl, both_iff, or_iff,
}
use run_cd.Config.{SyncPolicy}
use run_cd.Config.Window.{windows_allow}
use run_cd.Reconcile.{Status, SyncResult, SyncOptions, World, External}
use run_cd.Reconcile.Deploy.{Attempt}
use run_cd.Reconcile.Pass.{
  is_blocked, is_out_of_sync, windows_of, auto_allowed, would_deploy, decide,
}

-- The policy lets the controller deploy by itself at the time.
abbrev pub AutoAllowed : SyncPolicy → ℕ → Type 0
AutoAllowed sync now =
    (sync.auto ≡ some true) × (windows_allow (windows_of sync.sync_windows) now ≡ true)

auto_allowed_iff :
    (sync : SyncPolicy) (now : ℕ) → (auto_allowed sync now ≡ true) ↔ AutoAllowed sync now
unfolding auto_allowed
auto_allowed_iff sync now = ground arith

abbrev decision : Status → Bool → Bool → Bool → Bool
decision status dry force allowed =
    not dry && (not (is_blocked status) && (force || (is_out_of_sync status && allowed)))

abbrev Decides : Status → Bool → Bool → Type 0 → Type 0
Decides status dry force Allowed =
    (dry ≡ false)
    × (((status ≢ Status.invalid) × (status ≢ Status.missing))
        × ((force ≡ true) ⊎ ((status ≡ Status.out_of_sync) × Allowed)))

decision_iff :
    (status : Status) (dry force allowed : Bool)
    → (decision status dry force allowed ≡ true) ↔ Decides status dry force (allowed ≡ true)
decision_iff Status.unset dry force allowed = ground arith
decision_iff Status.invalid dry force allowed = ground arith
decision_iff Status.missing dry force allowed = ground arith
decision_iff Status.synced dry force allowed = ground arith
decision_iff Status.out_of_sync dry force allowed = ground arith

-- The test wouldDeploy passes exactly if there is no dry run, the status is neither Invalid nor
-- Missing, and the sync is forced, or the status is OutOfSync and the policy allows the time.
pub would_deploy_iff :
    (status : Status) (sync : SyncPolicy) (options : SyncOptions)
    → (would_deploy status sync options ≡ true) ↔ (
        (options.dry_run ≡ false)
        × (((status ≢ Status.invalid) × (status ≢ Status.missing))
            × ((options.force ≡ true)
                ⊎ ((status ≡ Status.out_of_sync) × AutoAllowed sync options.now))))
unfolding would_deploy auto_allowed
would_deploy_iff status sync options =
    iff_trans (decision_iff status options.dry_run options.force (auto_allowed sync options.now)) (
      both_iff (iff_refl _) (
        both_iff (iff_refl _)
          (or_iff (iff_refl _) (both_iff (iff_refl _) (auto_allowed_iff sync options.now)))))

module _ (x : External) (a : Attempt x.Cloud) (w : World x.Cloud) where
  decide_quiet :
      (res : SyncResult)
      → (a.options.dry_run ≡ true) ⊎ (res.observing ≡ true)
      → (decide x a res w).0 ≡ w
  unfolding decide would_deploy
  decide_quiet res h = ground arith

  -- What a deploy needs, whatever the status.
  abbrev pub Authorized : SyncResult → Type 0
  Authorized res =
      (a.options.dry_run ≡ false)
      × ((res.observing ≡ false)
          × ((a.options.force ≡ true) ⊎ AutoAllowed a.unit.sync a.options.now))

  pub decide-Authorized : (res : SyncResult) → ((decide x a res w).0 ≡ w) ⊎ Authorized res
  unfolding decide
  decide-Authorized res = elim (Bool-cases (would_deploy res.status a.unit.sync a.options)) [
    | inl yes_deploy ↦ elim (Bool-cases res.observing) [
      | inl shadow ↦ inl (rw (yes_deploy, shadow) refl)
      | inr open_unit ↦
          let (dry, rest) = (would_deploy_iff res.status a.unit.sync a.options).0 yes_deploy in
          inr (dry, (open_unit, elim rest.1 [ inl f ↦ inl f | inr s ↦ inr s.1 ]))
    ]
    | inr no_deploy ↦ inl (rw no_deploy refl)
  ]
