-- ===== src/Reconcile/Pass/Deploys.antt =====
-- applyLiveState of internal/reconcile/reconcile.go, from the fetched state to the deploy call.
use run_cd.Base.{
  ◌≡◌, ◌≢◌, ◌↔◌, ◌⊎◌, inl, inr, refl, sym, subst, Bool-cases, true, false, iff_trans, both_iff,
  iff_refl, List, [], ◌∷◌, Result, ok,
}
use run_cd.Cloudrun.{ServiceState, ReadError}
use run_cd.Diff.{compute}
use run_cd.Reconcile.{Status, Health, SyncResult, DeployCall, World, External}
use run_cd.Reconcile.Store.Succeeding.{IsFree, Succeeds}
use run_cd.Reconcile.Deploy.{Attempt, effective_state, of_diff}
use run_cd.Reconcile.Deploy.Ahead.{IsAhead}
use run_cd.Reconcile.Deploy.Reached.{deploy_sync_unit-IsAhead}
use run_cd.Reconcile.Pass.{or_status, would_deploy, decide, on_live, apply_live_state}
use run_cd.Reconcile.Pass.Decision.{AutoAllowed, would_deploy_iff}

cons-ne {ℓ} : {A : Type ℓ} (x : A) (xs : List A) → xs ≢ x ∷ xs
cons-ne x [] h = cc
cons-ne x (y ∷ ys) h = cons-ne y ys (let q : ys ≡ y ∷ ys = cc in q)

module _ (x : External) (a : Attempt x.Cloud) (w : World x.Cloud) where
  -- The attempt has called its deploy, once and prepared, with the live state at hand.
  abbrev pub Calls : ServiceState → List DeployCall → Type 0
  Calls live after =
      IsAhead a.unit (x.token w.statements) (effective_state a.managed_fields a.desired live)
        w.deploys after

  -- The status once the live state is there.
  abbrev pub status_of : SyncResult → ServiceState → Status
  status_of res live =
      or_status res.status (of_diff (compute a.desired live a.managed_fields a.resource_type))

  -- What the options, the unit's policy and the status demand.
  abbrev pub IsDue : SyncResult → Status → Type 0
  IsDue res status =
      (res.observing ≡ false)
      × ((a.options.dry_run ≡ false)
          × (((status ≢ Status.invalid) × (status ≢ Status.missing))
              × ((a.options.force ≡ true)
                  ⊎ ((status ≡ Status.out_of_sync) × AutoAllowed a.unit.sync a.options.now))))

  decide-Calls_iff :
      (res : SyncResult)
      → res.unit ≡ a.unit
      → Succeeds x w
      → IsFree a.unit (x.clock w.statements) w.db
      → Calls a.live (decide x a res w).0.deploys ↔ IsDue res res.status
  unfolding decide
  decide-Calls_iff res u faults free =
      iff_trans tested (both_iff (iff_refl _) (would_deploy_iff res.status a.unit.sync a.options))
    where
      still : ¬ (Calls a.live w.deploys)
      still ahead = cons-ne ahead.call w.deploys ahead.one_more

      tested :
          Calls a.live (decide x a res w).0.deploys
          ↔ ((res.observing ≡ false) × (would_deploy res.status a.unit.sync a.options ≡ true))
      tested = elim (Bool-cases (would_deploy res.status a.unit.sync a.options)) [
        | inr no_deploy ↦
            rw no_deploy (λ h. absurd (still h), λ h. absurd (let q : false ≡ true = h.1 in cc))
        | inl yes_deploy ↦ elim (Bool-cases res.observing) [
          | inl shadow ↦
              rw (yes_deploy, shadow)
                (λ h. absurd (still h), λ h. absurd (let q : true ≡ false = h.0 in cc))
          | inr acting ↦
              rw (yes_deploy, acting)
                (λ _. (refl, refl), λ _. deploy_sync_unit-IsAhead x a _ w u faults free)
        ]
      ]

-- Where the result is of the attempt's own unit, the live state is fetched, nobody holds the
-- unit's lock, and the claim of the lock, the upsert and the INSERT of the audit row have no
-- fault: the end of a pass over a unit calls the deploy, once, prepared with lock and audit row,
-- and of the desired state with the live image where the image is not managed, exactly if the
-- result is not marked as observing, there is no dry run, the status is neither Invalid nor
-- Missing, and the sync is forced, or the status is OutOfSync and the unit's policy has auto set
-- and windows that allow the time. The status is that of the result, if it has one, and
-- otherwise the comparison of the desired with the live state.
pub apply_live_state-Calls_iff :
    (x : External) (a : Attempt x.Cloud) (res : SyncResult) (w : World x.Cloud)
    (live : ServiceState) (level : Health)
    → res.unit ≡ a.unit
    → a.target.fetch w.cloud ≡ ok (live, level)
    → Succeeds x w
    → IsFree a.unit (x.clock w.statements) w.db
    → Calls x a w live (apply_live_state x a res w).0.deploys
      ↔ IsDue x a w res (status_of x a w res live)
unfolding apply_live_state
apply_live_state-Calls_iff x a res w live level u fetched faults free =
    subst
      (λ (r : Result ReadError (ServiceState × Health)).
        Calls x a w live (on_live x a res w r).0.deploys
        ↔ IsDue x a w res (status_of x a w res live))
      (sym fetched) (decide-Calls_iff x (record a { live = live }) w _ u faults free)
