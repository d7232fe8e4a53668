-- ===== src/Reconcile/Unit/Reported.antt =====
-- What every result says: its status is set, and where it blocks the unit there is an error.
use run_cd.Base.{
  ℕ, String, ◌≡◌, ◌≢◌, ◌⊎◌, inl, inr, Bool, true, false, Option, none, some, List, if_cases, Result,
  ok, err,
}
use run_cd.Cloudrun
use run_cd.Cloudrun.{ServiceState, ReadError, other}
use run_cd.Diff
use run_cd.Expander.{SyncUnit}
use run_cd.Reconcile.{
  Status, Health, SyncError, observe_mode, get_live_state, SyncResult, SyncOptions, World, External,
}
use run_cd.Reconcile.Store.{acquire_lock, upsert}
use run_cd.Reconcile.Deploy.{
  Attempt, Run, first_of_errors, set_error, of_diff, effective_state, settle, settle_success,
  after_deploy, on_deployed, call_deploy, run_deploy, on_event, on_upsert, deploy_locked, on_lock,
  deploy_sync_unit,
}
use run_cd.Reconcile.Pass.{or_status, decide, on_live, apply_live_state}
use run_cd.Reconcile.Unit.{reconcile}
use run_cd.Reconcile.Unit.Cases.{IsEntering, reconcile_cases}

-- The status of the result, and its error where the status is Invalid or Missing.
abbrev Says : Status → Option SyncError → Type 0
Says status error =
    (status ≢ Status.unset) × ((status ≡ Status.invalid) ⊎ (status ≡ Status.missing) → error ≢ none)

abbrev pub IsReported : SyncResult → Type 0
IsReported res = Says res.status res.error

Says-some : (status : Status) (e : SyncError) → status ≢ Status.unset → Says status (some e)
Says-some status e h = (h, λ b q. cc)

Says-diff : (s : Diff.Status) (error : Option SyncError) → Says (of_diff s) error
Says-diff Diff.synced error = (λ q. cc, λ b. elim b [ inl q ↦ absurd (cc) | inr q ↦ absurd (cc) ])
Says-diff Diff.out_of_sync error =
    (λ q. cc, λ b. elim b [ inl q ↦ absurd (cc) | inr q ↦ absurd (cc) ])

set_error-IsReported :
    (e : SyncError) (res : SyncResult) → IsReported res → IsReported (set_error e res)
set_error-IsReported e res h = split res.error
  where
    split : (o : Option SyncError) → Says res.status (first_of_errors e o)
    split none = Says-some res.status e h.0
    split (some old) = Says-some res.status old h.0

-- A failed fetch sets the status where it is unset, and the error where there is none.
entering_error :
    (unit : SyncUnit) (res : SyncResult) (s : Status) (e : SyncError)
    → s ≢ Status.unset
    → IsEntering unit res
    → Says (or_status res.status s) (first_of_errors e res.error)
entering_error unit res s e set i = elim i.undecided [
  | inl (q, n) ↦ rw (q, n) (Says-some s e set)
  | inr (q, n) ↦ rw q (some_error res.error)
]
  where
    some_error : (o : Option SyncError) → Says Status.invalid (first_of_errors e o)
    some_error none = Says-some Status.invalid e (λ k. cc)
    some_error (some old) = Says-some Status.invalid old (λ k. cc)

module _ (x : External) where
  settle-IsReported :
      (plain : SyncError) (also : String → SyncError) (res : SyncResult)
      (r : World x.Cloud × Result String (Unit {0}))
      → IsReported res
      → IsReported (settle x plain also res r).1
  settle-IsReported plain also res (w, ok u) h = set_error-IsReported plain res h
  settle-IsReported plain also res (w, err e) h = set_error-IsReported (also e) res h

  settle_success-IsReported :
      (res : SyncResult) (r : World x.Cloud × Result String (Unit {0}))
      → IsReported res
      → IsReported (settle_success x res r).1
  settle_success-IsReported res (w, ok u) h = h
  settle_success-IsReported res (w, err e) h = set_error-IsReported _ res h

  module _ (a : Attempt x.Cloud) (desired : ServiceState) where
    after_deploy-IsReported :
        (res : SyncResult) (id : ℕ) (w : World x.Cloud)
        (r : Result ReadError (ServiceState × Health))
        → IsReported res
        → IsReported (after_deploy x a desired res id w r).1
    after_deploy-IsReported res id w (err e) h = settle-IsReported _ _ res _ h
    after_deploy-IsReported res id w (ok (found, k)) h =
        settle_success-IsReported _ _ (Says-diff _ res.error)

    on_deployed-IsReported :
        (res : SyncResult) (id : ℕ) (w : World x.Cloud) (o : Option String)
        → IsReported res
        → IsReported (on_deployed x a desired res id w o).1
    on_deployed-IsReported res id w none h = after_deploy-IsReported res id w _ h
    on_deployed-IsReported res id w (some e) h = settle-IsReported _ _ _ _ h

    on_event-IsReported :
        (res : SyncResult) (r : World x.Cloud × Result String ℕ)
        → IsReported res
        → IsReported (on_event x a desired res r).1
    unfolding run_deploy
    on_event-IsReported res (w, err e) h = Says-some res.status _ h.0
    on_event-IsReported res (w, ok id) h =
        on_deployed-IsReported res id (call_deploy x a desired w).0 (call_deploy x a desired w).1 h

    on_upsert-IsReported :
        (res : SyncResult) (w : World x.Cloud) (r : SyncResult) (o : Option String)
        → IsReported res
        → IsReported (on_upsert x a desired res (w, r, o)).1
    on_upsert-IsReported res w r (some e) h = Says-some res.status _ h.0
    on_upsert-IsReported res w r none h = on_event-IsReported res _ h

    on_lock-IsReported :
        (token : String) (res : SyncResult) (r : World x.Cloud × Result String Bool)
        → IsReported res
        → IsReported (on_lock x a desired token res r).1
    unfolding deploy_locked
    on_lock-IsReported token res (w, err e) h = Says-some res.status _ h.0
    on_lock-IsReported token res (w, ok false) h = Says-some res.status _ h.0
    on_lock-IsReported token res (w, ok true) h =
        on_upsert-IsReported res (upsert x res w).0 (upsert x res w).1 (upsert x res w).2 h

  deploy_sync_unit-IsReported :
      (a : Attempt x.Cloud) (res : SyncResult) (w : World x.Cloud)
      → IsReported res
      → IsReported (deploy_sync_unit x a res w).1
  unfolding deploy_sync_unit
  deploy_sync_unit-IsReported a res w h =
      on_lock-IsReported a (effective_state a.managed_fields a.desired a.live)
        (x.token w.statements) res (acquire_lock x a.unit (x.token w.statements) w) h

  -- The three ends of the decision.
  decide_cases :
      (P : Run x → Type 0) (a : Attempt x.Cloud) (res : SyncResult) (w : World x.Cloud)
      → P (w, set_error observe_mode res)
      → P (w, res)
      → P (deploy_sync_unit x a res w)
      → P (decide x a res w)
  unfolding decide
  decide_cases P a res w refused stays deployed =
      if_cases P _ _ _
        (if_cases P _ _ _ (if_cases (λ (r : SyncResult). P (w, r)) _ _ _ refused stays) deployed)
        stays

  decide-IsReported :
      (a : Attempt x.Cloud) (res : SyncResult) (w : World x.Cloud)
      → IsReported res
      → IsReported (decide x a res w).1
  decide-IsReported a res w h =
      decide_cases (λ (r : Run x). IsReported r.1) a res w (set_error-IsReported observe_mode res h)
        h (deploy_sync_unit-IsReported a res w h)

  -- The status of a result that a fetch completes.
  or_status-Says :
      (status s : Status) (error : Option SyncError)
      → ((status ≡ Status.unset) × (error ≡ none)) ⊎ ((status ≡ Status.invalid) × (error ≢ none))
      → Says s error
      → Says (or_status status s) error
  or_status-Says status s error (inl (q, e)) h = rw q h
  or_status-Says status s error (inr (q, e)) h = rw q (λ k. cc, λ b. e)

  on_live-IsReported :
      (unit : SyncUnit) (a : Attempt x.Cloud) (res : SyncResult) (w : World x.Cloud)
      → IsEntering unit res
      → (r : Result ReadError (ServiceState × Health)) → IsReported (on_live x a res w r).1
  on_live-IsReported unit a res w i (err Cloudrun.not_provisioned) =
      entering_error unit res Status.missing SyncError.not_provisioned (λ q. cc) i
  on_live-IsReported unit a res w i (err (other e)) =
      entering_error unit res Status.invalid (get_live_state e) (λ q. cc) i
  on_live-IsReported unit a res w i (ok (found, k)) =
      decide-IsReported (record a { live = found }) _ w
        (or_status-Says res.status _ res.error i.undecided (Says-diff _ res.error))

-- A result of reconcile has a status, never the empty one, and where the status is Invalid or
-- Missing it carries an error. This holds on every early return and whichever statements of a
-- deploy fail.
pub reconcile-IsReported :
    (x : External) (base : List String) (unit : SyncUnit) (options : SyncOptions)
    (w : World x.Cloud)
    → IsReported (reconcile x base unit options w).1
reconcile-IsReported x base unit options w =
    reconcile_cases x base unit options w (λ (r : Run x). IsReported r.1)
      (λ res e u o. Says-some Status.invalid e (λ q. cc))
      (λ a res u o m i.
        unfold apply_live_state in on_live-IsReported x unit a res w i (a.target.fetch w.cloud))
