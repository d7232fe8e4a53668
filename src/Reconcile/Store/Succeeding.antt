-- ===== src/Reconcile/Store/Succeeding.antt =====
-- What the statements before a deploy do where they have no fault.
use run_cd.Base.{
  ℕ, suc, String, ◌≡◌, ◌<◌, ◌⊎◌, inl, inr, refl, true, Option, none, some, ok, lt→ltb,
}
use run_cd.Expander.{SyncUnit}
use run_cd.Reconcile.{Trigger, SyncResult, LockRow, AppRow, Db, World, External}
use run_cd.Reconcile.Store.{
  exec_with, exec, claim_lock, upsert_application, insert_event, acquire_lock, insert_sync_event,
  upsert,
}
use run_cd.Reconcile.Store.Statements.{at_key_self}

-- Nobody holds the unit's lock: it has no row, or one that has expired.
abbrev pub IsFree : SyncUnit → ℕ → Db → Type 0
IsFree unit now db =
    (db.locks unit.app unit.project ≡ none)
    ⊎ ((row : LockRow) × (db.locks unit.app unit.project ≡ some row) × (row.expires_at < now))

-- The claim of the lock, the upsert and the INSERT of the audit row have no fault.
abbrev pub Succeeds : (x : External) → World x.Cloud → Type 0
Succeeds x w =
    (x.fault w.statements ≡ none)
    × (x.fault (suc w.statements) ≡ none)
    × (x.fault (suc (suc w.statements)) ≡ none)

module _ (x : External) where
  exec_statements {ℓ} :
      {A : Type ℓ} (w : World x.Cloud) (run : Db → ℕ → Db × A)
      → (exec x w run).0.statements ≡ suc w.statements
  unfolding exec
  exec_statements w run = split (x.fault w.statements)
    where
      split : (o : Option String) → (exec_with x w o run).0.statements ≡ suc w.statements
      split none = refl
      split (some e) = refl

  pub acquire_lock-free :
      (unit : SyncUnit) (token : String) (w : World x.Cloud)
      → x.fault w.statements ≡ none
      → IsFree unit (x.clock w.statements) w.db
      → (acquire_lock x unit token w).1 ≡ ok true
  unfolding acquire_lock exec claim_lock
  acquire_lock-free unit token w f (inl missing) = rw (f, missing) refl
  acquire_lock-free unit token w f (inr (row, at, late)) =
      rw (f, at, lt→ltb row.expires_at (x.clock w.statements) late) refl

  pub acquire_lock_statements :
      (unit : SyncUnit) (token : String) (w : World x.Cloud)
      → (acquire_lock x unit token w).0.statements ≡ suc w.statements
  unfolding acquire_lock
  acquire_lock_statements unit token w = exec_statements w (claim_lock unit token)

  pub upsert_statements :
      (res : SyncResult) (w : World x.Cloud) → (upsert x res w).0.statements ≡ suc w.statements
  unfolding upsert
  upsert_statements res w = exec_statements w (upsert_application res)

  -- The unit then has a row in applications.
  pub upsert-stored :
      (res : SyncResult) (w : World x.Cloud)
      → x.fault w.statements ≡ none
      → ((upsert x res w).2 ≡ none)
        × ((row : AppRow) × ((upsert x res w).0.db.applications res.unit.app res.unit.project
              ≡ some row))
  unfolding upsert exec upsert_application
  upsert-stored res w f =
      rw f (refl, (_, at_key_self res.unit.app res.unit.project _ w.db.applications))

  pub insert_sync_event-known :
      (unit : SyncUnit) (trigger : Trigger) (actor from_image to_image : String) (w : World x.Cloud)
      (row : AppRow)
      → x.fault w.statements ≡ none
      → w.db.applications unit.app unit.project ≡ some row
      → (insert_sync_event x unit trigger actor from_image to_image w).1 ≡ ok w.db.next_id
  unfolding insert_sync_event exec insert_event
  insert_sync_event-known unit trigger actor from_image to_image w row f known = rw (f, known) refl
