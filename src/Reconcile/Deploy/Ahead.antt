-- ===== src/Reconcile/Deploy/Ahead.antt =====
-- What stands in the tables when a deploy is called: the lock and the audit row come first.
use run_cd.Base.{
  ℕ, String, ◌≡◌, ◌⊎◌, inl, inr, refl, sym, ◌∙◌, ap, subst, Bool, true, false, Option, none, some,
  List, ◌∷◌, Result, ok, err,
}
use run_cd.Cloudrun.{ServiceState, ReadError}
use run_cd.Expander.{SyncUnit}
use run_cd.Reconcile.{Health, SyncError, SyncResult, succeeded, failed, DeployCall, World, External}
use run_cd.Reconcile.Store.{acquire_lock, insert_sync_event, upsert}
use run_cd.Reconcile.Deploy.{
  Attempt, effective_state, settle, settle_success, after_deploy, on_deployed, call_deploy,
  run_deploy, on_event, on_upsert, deploy_locked, on_lock, deploy_sync_unit,
}
use run_cd.Reconcile.Store.Statements.{
  Locked, IsLogged, Locked-locks, insert_sync_event_deploys, insert_sync_event-IsLogged,
  acquire_lock_deploys, acquire_lock-Locked, release_lock_deploys, update_sync_event_deploys,
  upsert_deploys, upsert_locks,
}

-- Before the call that the list gained, the unit's lock was held under the token and an audit row
-- that names the image was stored; the call is of the state.
pub record IsAhead (unit : SyncUnit) (token : String) (desired : ServiceState)
    (before after : List DeployCall) : Type 0 where
  pub call : DeployCall
  pub one_more : after ≡ call ∷ before
  pub application : call.application ≡ unit.app
  pub project : call.project ≡ unit.project
  pub state : call.state ≡ desired
  pub locked : Locked unit token call.tables
  pub logged : IsLogged unit desired.image_digest call.tables

-- The list has gained no call, or one that was prepared.
abbrev pub Prepared : SyncUnit → String → ServiceState → List DeployCall → List DeployCall → Type 0
Prepared unit token desired before after =
    (after ≡ before) ⊎ IsAhead unit token desired before after

module _ (x : External) where
  settle_deploys :
      (plain : SyncError) (also : String → SyncError) (res : SyncResult)
      (r : World x.Cloud × Result String (Unit {0}))
      → (settle x plain also res r).0.deploys ≡ r.0.deploys
  settle_deploys plain also res (w, ok u) = refl
  settle_deploys plain also res (w, err e) = refl

  settle_success_deploys :
      (res : SyncResult) (r : World x.Cloud × Result String (Unit {0}))
      → (settle_success x res r).0.deploys ≡ r.0.deploys
  settle_success_deploys res (w, ok u) = refl
  settle_success_deploys res (w, err e) = refl

  module _ (a : Attempt x.Cloud) (desired : ServiceState) where
    after_deploy_deploys :
        (res : SyncResult) (id : ℕ) (w : World x.Cloud)
        (r : Result ReadError (ServiceState × Health))
        → (after_deploy x a desired res id w r).0.deploys ≡ w.deploys
    after_deploy_deploys res id w (err e) =
        settle_deploys _ _ _ _ ∙ update_sync_event_deploys x id succeeded "" w
    after_deploy_deploys res id w (ok (s, h)) =
        settle_success_deploys _ _ ∙ update_sync_event_deploys x id succeeded "" w

    on_deployed_deploys :
        (res : SyncResult) (id : ℕ) (w : World x.Cloud) (o : Option String)
        → (on_deployed x a desired res id w o).0.deploys ≡ w.deploys
    on_deployed_deploys res id w none = after_deploy_deploys res id w (a.target.fetch w.cloud)
    on_deployed_deploys res id w (some e) =
        settle_deploys _ _ _ _ ∙ update_sync_event_deploys x id failed e w

  module _ (a : Attempt x.Cloud) (desired : ServiceState) (token : String)
      (before : List DeployCall) where
    pub run_deploy-IsAhead :
        (res : SyncResult) (id : ℕ) (w : World x.Cloud)
        → w.deploys ≡ before
        → Locked a.unit token w.db
        → IsLogged a.unit desired.image_digest w.db
        → IsAhead a.unit token desired before (run_deploy x a desired res id w).0.deploys
    unfolding run_deploy call_deploy
    run_deploy-IsAhead res id w same locked logged = record {
      call = _;
      one_more =
          on_deployed_deploys a desired res id (call_deploy x a desired w).0
            (call_deploy x a desired w).1
          ∙ ap
              (λ l.
                record {
                  application = a.unit.app;
                  project = a.unit.project;
                  state = desired;
                  tables = w.db;
                }
                ∷ l)
              same;
      application = refl;
      project = refl;
      state = refl;
      locked = locked;
      logged = logged;
    }

    on_event_ahead :
        (res : SyncResult) (r : World x.Cloud × Result String ℕ)
        → r.0.deploys ≡ before
        → ((id : ℕ)
            → r.1 ≡ ok id
            → Locked a.unit token r.0.db × IsLogged a.unit desired.image_digest r.0.db)
        → Prepared a.unit token desired before (on_event x a desired res r).0.deploys
    on_event_ahead res (w, err e) same ready = inl same
    on_event_ahead res (w, ok id) same ready =
        let (locked, logged) = ready id refl in inr (run_deploy-IsAhead res id w same locked logged)

    on_upsert_ahead :
        (res : SyncResult) (w : World x.Cloud) (r : SyncResult) (o : Option String)
        → w.deploys ≡ before
        → Locked a.unit token w.db
        → Prepared a.unit token desired before (on_upsert x a desired res (w, r, o)).0.deploys
    on_upsert_ahead res w r (some e) same locked = inl same
    on_upsert_ahead res w r none same locked =
        on_event_ahead res _
          (insert_sync_event_deploys x a.unit a.options.trigger a.options.actor a.live.image_digest
              desired.image_digest w
            ∙ same)
          (λ id h.
            let (logged, locks) =
              insert_sync_event-IsLogged x a.unit a.options.trigger a.options.actor
                a.live.image_digest desired.image_digest w id h in
            (
              Locked-locks a.unit token w.db
                  (insert_sync_event x a.unit a.options.trigger a.options.actor a.live.image_digest
                    desired.image_digest w).0.db
                  locks locked,
              logged,
            ))

    on_lock_ahead :
        (res : SyncResult) (r : World x.Cloud × Result String Bool)
        → r.0.deploys ≡ before
        → (r.1 ≡ ok true → Locked a.unit token r.0.db)
        → Prepared a.unit token desired before (on_lock x a desired token res r).0.deploys
    unfolding deploy_locked
    on_lock_ahead res (w, err e) same locked = inl same
    on_lock_ahead res (w, ok false) same locked = inl same
    on_lock_ahead res (w, ok true) same locked =
        subst (λ l. Prepared a.unit token desired before l)
          (sym (release_lock_deploys x a.unit token _))
          (on_upsert_ahead res (upsert x res w).0 (upsert x res w).1 (upsert x res w).2
            (upsert_deploys x res w ∙ same)
            (Locked-locks a.unit token w.db (upsert x res w).0.db (upsert_locks x res w)
              (locked refl)))

-- An attempt makes at most one deploy call, of the desired state with the live image where the
-- image is not managed; and when it makes it, the unit's lock is held under the attempt's token
-- and an in_progress audit row that names the image is stored. This holds whichever statements
-- fail.
pub deploy_sync_unit-Prepared :
    (x : External) (a : Attempt x.Cloud) (res : SyncResult) (w : World x.Cloud)
    → Prepared a.unit
        (x.token w.statements)
        (effective_state a.managed_fields a.desired a.live)
        w.deploys
        (deploy_sync_unit x a res w).0.deploys
unfolding deploy_sync_unit
deploy_sync_unit-Prepared x a res w =
    on_lock_ahead x a (effective_state a.managed_fields a.desired a.live) (x.token w.statements)
      w.deploys res (acquire_lock x a.unit (x.token w.statements) w)
      (acquire_lock_deploys x a.unit (x.token w.statements) w)
      (acquire_lock-Locked x a.unit (x.token w.statements) w)
