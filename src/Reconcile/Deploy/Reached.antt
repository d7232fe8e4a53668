-- ===== src/Reconcile/Deploy/Reached.antt =====
-- That the steps of deploySyncUnit reach the deploy call, where the statements before it succeed.
use run_cd.Base.{
  ℕ, suc, String, ◌≡◌, sym, ◌∙◌, ap, subst, Bool, true, false, Option, none, some, List, Result, ok,
  err,
}
use run_cd.Cloudrun.{ServiceState}
use run_cd.Expander.{SyncUnit}
use run_cd.Reconcile.{SyncResult, AppRow, DeployCall, World, External}
use run_cd.Reconcile.Store.{acquire_lock, insert_sync_event, upsert}
use run_cd.Reconcile.Store.Succeeding.{
  IsFree, Succeeds, acquire_lock-free, acquire_lock_statements, upsert_statements, upsert-stored,
  insert_sync_event-known,
}
use run_cd.Reconcile.Store.Statements.{
  Locked, IsLogged, Locked-locks, insert_sync_event_deploys, insert_sync_event-IsLogged,
  acquire_lock_deploys, acquire_lock-Locked, release_lock_deploys, upsert_deploys, upsert_locks,
}
use run_cd.Reconcile.Deploy.{
  Attempt, effective_state, on_event, on_upsert, deploy_locked, on_lock, deploy_sync_unit,
}
use run_cd.Reconcile.Deploy.Ahead.{IsAhead, run_deploy-IsAhead}

module _ (x : External) (a : Attempt x.Cloud) (desired : ServiceState) (token : String)
    (before : List DeployCall) where
  on_event_reached :
      (res : SyncResult) (r : World x.Cloud × Result String ℕ) (id : ℕ)
      → r.1 ≡ ok id
      → r.0.deploys ≡ before
      → Locked a.unit token r.0.db
      → IsLogged a.unit desired.image_digest r.0.db
      → IsAhead a.unit token desired before (on_event x a desired res r).0.deploys
  on_event_reached res (w, err e) id h same locked logged = absurd (cc)
  on_event_reached res (w, ok i) id h same locked logged =
      run_deploy-IsAhead x a desired token before res i w same locked logged

  on_upsert_reached :
      (res r : SyncResult) (w : World x.Cloud) (o : Option String) (row : AppRow)
      → o ≡ none
      → x.fault w.statements ≡ none
      → w.db.applications a.unit.app a.unit.project ≡ some row
      → w.deploys ≡ before
      → Locked a.unit token w.db
      → IsAhead a.unit token desired before (on_upsert x a desired res (w, r, o)).0.deploys
  on_upsert_reached res r w (some e) row h f known same locked = absurd (cc)
  on_upsert_reached res r w none row h f known same locked =
      let inserted =
        insert_sync_event x a.unit a.options.trigger a.options.actor a.live.image_digest
          desired.image_digest w in
      let id : inserted.1 ≡ ok w.db.next_id =
        insert_sync_event-known x a.unit a.options.trigger a.options.actor a.live.image_digest
          desired.image_digest w row f known in
      let (logged, locks) =
        insert_sync_event-IsLogged x a.unit a.options.trigger a.options.actor a.live.image_digest
          desired.image_digest w w.db.next_id id in
      on_event_reached res inserted w.db.next_id id
        (insert_sync_event_deploys x a.unit a.options.trigger a.options.actor a.live.image_digest
            desired.image_digest w
          ∙ same)
        (Locked-locks a.unit token w.db inserted.0.db locks locked) logged

  on_lock_reached :
      (res : SyncResult) (r : World x.Cloud × Result String Bool)
      → res.unit ≡ a.unit
      → r.1 ≡ ok true
      → x.fault r.0.statements ≡ none
      → x.fault (suc r.0.statements) ≡ none
      → r.0.deploys ≡ before
      → Locked a.unit token r.0.db
      → IsAhead a.unit token desired before (on_lock x a desired token res r).0.deploys
  unfolding deploy_locked
  on_lock_reached res (w, err e) u h f g same locked = absurd (cc)
  on_lock_reached res (w, ok false) u h f g same locked = absurd (cc)
  on_lock_reached res (w, ok true) u h f g same locked =
      let (stored, (row, known)) = upsert-stored x res w f in
      subst (λ l. IsAhead a.unit token desired before l)
        (sym (release_lock_deploys x a.unit token _))
        (on_upsert_reached res (upsert x res w).1 (upsert x res w).0 (upsert x res w).2 row stored
          (ap x.fault (upsert_statements x res w) ∙ g)
          (subst (λ (k : SyncUnit). (upsert x res w).0.db.applications k.app k.project ≡ some row) u
            known)
          (upsert_deploys x res w ∙ same)
          (Locked-locks a.unit token w.db (upsert x res w).0.db (upsert_locks x res w) locked))

-- Where the lock is free and the statements before the call succeed, the attempt calls the deploy.
pub deploy_sync_unit-IsAhead :
    (x : External) (a : Attempt x.Cloud) (res : SyncResult) (w : World x.Cloud)
    → res.unit ≡ a.unit
    → Succeeds x w
    → IsFree a.unit (x.clock w.statements) w.db
    → IsAhead a.unit
        (x.token w.statements)
        (effective_state a.managed_fields a.desired a.live)
        w.deploys
        (deploy_sync_unit x a res w).0.deploys
unfolding deploy_sync_unit
deploy_sync_unit-IsAhead x a res w u faults free =
    let token = x.token w.statements in
    let locked = acquire_lock-free x a.unit token w faults.0 free in
    let count = acquire_lock_statements x a.unit token w in
    on_lock_reached x a (effective_state a.managed_fields a.desired a.live) token w.deploys res
      (acquire_lock x a.unit token w) u locked (ap x.fault count ∙ faults.1)
      (ap (λ n. x.fault (suc n)) count ∙ faults.2) (acquire_lock_deploys x a.unit token w)
      (acquire_lock-Locked x a.unit token w locked)
