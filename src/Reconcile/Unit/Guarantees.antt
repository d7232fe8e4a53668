-- ===== src/Reconcile/Unit/Guarantees.antt =====
-- What reconcile guarantees, whatever the manifest, Cloud Run and the database answer.
use run_cd.Base.{
  String, ◌≡◌, ◌⊎◌, inl, inr, refl, sym, subst, ◌∙◌, Bool, true, false, List, Result, ok, err,
}
use run_cd.Cloudrun
use run_cd.Cloudrun.{ServiceState, ReadError, other}
use run_cd.Expander.{SyncUnit}
use run_cd.Reconcile.{Health, SyncResult, SyncOptions, World, External}
use run_cd.Reconcile.Deploy.{Attempt}
use run_cd.Reconcile.Pass.{observe_mode_enabled, apply_live_state, on_live}
use run_cd.Reconcile.Pass.Decision.{AutoAllowed, decide-Authorized}
use run_cd.Reconcile.Unit.{reconcile}
use run_cd.Reconcile.Unit.Cases.{reconcile_cases}

-- What a deploy of the unit needs: no dry run, no shadow mode, and a forced sync or a policy that
-- allows the controller to deploy at the time.
abbrev pub MayDeploy : SyncUnit → SyncOptions → Type 0
MayDeploy unit options =
    (options.dry_run ≡ false)
    × ((observe_mode_enabled unit.sync ≡ false)
        × ((options.force ≡ true) ⊎ AutoAllowed unit.sync options.now))

module _ (x : External) (a : Attempt x.Cloud) (w : World x.Cloud) where
  on_live_authorized :
      (res : SyncResult) (r : Result ReadError (ServiceState × Health))
      → ((on_live x a res w r).0 ≡ w)
        ⊎ ((a.options.dry_run ≡ false)
            × ((res.observing ≡ false)
                × ((a.options.force ≡ true) ⊎ AutoAllowed a.unit.sync a.options.now)))
  on_live_authorized res (err Cloudrun.not_provisioned) = inl refl
  on_live_authorized res (err (other e)) = inl refl
  on_live_authorized res (ok (found, h)) = decide-Authorized x (record a { live = found }) w _

-- The same in terms of the unit and the options of the pass.
MayDeploy-of :
    (unit u : SyncUnit) (options o : SyncOptions) (observing : Bool)
    → u ≡ unit
    → o ≡ options
    → observing ≡ observe_mode_enabled unit.sync
    → (o.dry_run ≡ false) × ((observing ≡ false) × ((o.force ≡ true) ⊎ AutoAllowed u.sync o.now))
    → MayDeploy unit options
MayDeploy-of unit u options o observing p q r h =
    let h' =
      subst
        (λ (k : SyncOptions).
          (k.dry_run ≡ false)
          × ((observing ≡ false) × ((k.force ≡ true) ⊎ AutoAllowed u.sync k.now)))
        q h in
    let h'' =
      subst
        (λ (k : SyncUnit).
          (options.dry_run ≡ false)
          × ((observing ≡ false) × ((options.force ≡ true) ⊎ AutoAllowed k.sync options.now)))
        p h' in
    (h''.0, (sym r ∙ h''.1.0, h''.1.1))

-- Unless the unit may be deployed, reconciling it leaves the world as it was: no SQL statement
-- runs and no deploy is called. So a dry run writes nothing, a unit in shadow mode is never
-- deployed, not even by a forced sync, and without force a unit is deployed only where its
-- policy has auto set and its windows allow the time.
pub reconcile_authorized :
    (x : External) (base : List String) (unit : SyncUnit) (options : SyncOptions)
    (w : World x.Cloud)
    → ((reconcile x base unit options w).0 ≡ w) ⊎ MayDeploy unit options
reconcile_authorized x base unit options w =
    reconcile_cases x base unit options w (λ r. (r.0 ≡ w) ⊎ MayDeploy unit options)
      (λ res e u o. inl refl)
      (λ a res u o m i.
        unfold apply_live_state in
        elim (on_live_authorized x a w res (a.target.fetch w.cloud)) [
          | inl same ↦ inl same
          | inr h ↦ inr (MayDeploy-of unit a.unit options a.options res.observing u o i.observes h)
        ])
