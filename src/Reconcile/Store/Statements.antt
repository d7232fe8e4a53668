-- ===== src/Reconcile/Store/Statements.antt =====
-- What single statements do to the tables and the recorded calls.
use run_cd.Base.{
  nat_eq, nat_eq_iff, ℕ, String, ◌≡◌, inl, inr, refl, ◌∙◌, ap, true, false, Option, none, some,
  Memᴰ, arith, eq_refl, Result, ok, err, Bool-cases, ltb, is_some,
}
use run_cd.Expander.{SyncUnit}
use run_cd.Reconcile.{
  Trigger, SyncResult, LockRow, EventRow, EventResult, in_progress, Db, World, External,
}
use run_cd.Reconcile.Store.{
  exec_with, update_event, one_row, delete_lock, at_key, claim, claim_lock, upsert_application,
  insert_event, exec, acquire_lock, release_lock, insert_sync_event, joined, update_sync_event,
  upsert,
}

-- The unit's lock is held under the token.
abbrev pub Locked : SyncUnit → String → Db → Type 0
Locked unit token db =
    (row : LockRow) × (db.locks unit.app unit.project ≡ some row) × (row.holder ≡ token)

-- An in_progress audit row of the unit names the image.
pub record IsLogged (unit : SyncUnit) (image : String) (db : Db) : Type 0 where
  pub row : EventRow
  pub stored : Memᴰ row db.events
  pub application : row.application ≡ unit.app
  pub project : row.project ≡ unit.project
  pub running : row.result ≡ in_progress
  pub image_named : row.to_image ≡ image

pub at_key_self {ℓ} :
    {V : Type ℓ} (a p : String) (v : V) (t : String → String → V) → at_key a p v t a p ≡ v
at_key_self a p v t = rw (eq_refl a, eq_refl p) refl

-- The hold depends on the locks only.
pub Locked-locks :
    (unit : SyncUnit) (token : String) (db db' : Db)
    → db'.locks ≡ db.locks
    → Locked unit token db
    → Locked unit token db'
Locked-locks unit token db db' same (row, found, held) =
    (row, ap (λ t. t unit.app unit.project) same ∙ found, held)

-- One statement records no deploy call.
pub exec_deploys {ℓ} :
    (x : External) {A : Type ℓ} (w : World x.Cloud) (run : Db → ℕ → Db × A)
    → (exec x w run).0.deploys ≡ w.deploys
unfolding exec
exec_deploys x w run = split (x.fault w.statements)
  where
    split : (o : Option String) → (exec_with x w o run).0.deploys ≡ w.deploys
    split none = refl
    split (some e) = refl

claim-Locked :
    (unit : SyncUnit) (token : String) (now : ℕ) (o : Option LockRow) (db : Db)
    → (claim unit token now o db).1 ≡ 1
    → Locked unit token (claim unit token now o db).0
claim-Locked unit token now none db h = (_, at_key_self unit.app unit.project _ db.locks, refl)
claim-Locked unit token now (some row) db h = elim (Bool-cases (ltb row.expires_at now)) [
  | inl late ↦ rw late (_, at_key_self unit.app unit.project _ db.locks, refl)
  | inr live ↦ absurd (let q : 0 ≡ 1 = rw live at h in omega arith)
]

one_row-ok : (x : External) (r : Result String ℕ) → one_row x r ≡ ok true → r ≡ ok 1
one_row-ok x (ok n) h = elim (Bool-cases (nat_eq n 1)) [
  | inl one ↦ ap ok ((nat_eq_iff n 1).0 one)
  | inr other ↦ absurd (let q : ok false ≡ ok true = rw other at h in cc)
]
one_row-ok x (err e) h = absurd (let q = h in cc)

-- A statement that returns a value has run.
pub exec-ok {ℓ} :
    (x : External) {A : Type ℓ} (w : World x.Cloud) (run : Db → ℕ → Db × A) (r : A)
    → (exec x w run).1 ≡ ok r
    → ((exec x w run).0.db ≡ (run w.db (x.clock w.statements)).0)
      × ((run w.db (x.clock w.statements)).1 ≡ r)
unfolding exec
exec-ok x w run r = split (x.fault w.statements)
  where
    split :
        (o : Option String)
        → (exec_with x w o run).1 ≡ ok r
        → ((exec_with x w o run).0.db ≡ (run w.db (x.clock w.statements)).0)
          × ((run w.db (x.clock w.statements)).1 ≡ r)
    split none h = (refl, let q = h in cc)
    split (some e) h = absurd (let q = h in cc)

module _ (x : External) (unit : SyncUnit) (token : String) where
  pub acquire_lock_deploys :
      (w : World x.Cloud) → (acquire_lock x unit token w).0.deploys ≡ w.deploys
  unfolding acquire_lock
  acquire_lock_deploys w = exec_deploys x w (claim_lock unit token)

  pub acquire_lock-Locked :
      (w : World x.Cloud)
      → (acquire_lock x unit token w).1 ≡ ok true
      → Locked unit token (acquire_lock x unit token w).0.db
  unfolding acquire_lock claim_lock
  acquire_lock-Locked w h =
      let (db_is, one) = exec-ok x w (claim_lock unit token) 1 (one_row-ok x _ h) in
      rw db_is
        (claim-Locked unit token (x.clock w.statements) (w.db.locks unit.app unit.project) w.db one)

  pub release_lock_deploys : (w : World x.Cloud) → (release_lock x unit token w).deploys ≡ w.deploys
  unfolding release_lock
  release_lock_deploys w = exec_deploys x w (delete_lock unit token)

module _ (x : External) where
  pub update_sync_event_deploys :
      (id : ℕ) (result : EventResult) (message : String) (w : World x.Cloud)
      → (update_sync_event x id result message w).0.deploys ≡ w.deploys
  unfolding update_sync_event
  update_sync_event_deploys id result message w = exec_deploys x w (update_event id result message)

  pub upsert_deploys :
      (res : SyncResult) (w : World x.Cloud) → (upsert x res w).0.deploys ≡ w.deploys
  unfolding upsert
  upsert_deploys res w = exec_deploys x w (upsert_application res)

  pub upsert_locks :
      (res : SyncResult) (w : World x.Cloud) → (upsert x res w).0.db.locks ≡ w.db.locks
  unfolding upsert exec upsert_application
  upsert_locks res w = split (x.fault w.statements)
    where
      split :
          (o : Option String) → (exec_with x w o (upsert_application res)).0.db.locks ≡ w.db.locks
      split none = refl
      split (some e) = refl

  joined-ok : (r : Result String (Result String ℕ)) (id : ℕ) → joined x r ≡ ok id → r ≡ ok (ok id)
  joined-ok (ok r) id h = ap ok h
  joined-ok (err e) id h = absurd (let q = h in cc)

-- The INSERT of an audit row that meets its foreign key stores the row.
insert_event-IsLogged :
    (unit : SyncUnit) (trigger : Trigger) (actor from_image to_image : String) (db : Db)
    (now id : ℕ)
    → (insert_event unit trigger actor from_image to_image db now).1 ≡ ok id
    → IsLogged unit to_image (insert_event unit trigger actor from_image to_image db now).0
      × ((insert_event unit trigger actor from_image to_image db now).0.locks ≡ db.locks)
unfolding insert_event
insert_event-IsLogged unit trigger actor from_image to_image db now id h =
    elim (Bool-cases (is_some (db.applications unit.app unit.project))) [
      | inl known ↦ rw known (
        record {
          row = _;
          stored = Memᴰ.head refl;
          application = refl;
          project = refl;
          running = refl;
          image_named = refl;
        },
        refl,
      )
      | inr unknown ↦
          absurd (let q : err "sync_events_application_fkey" ≡ ok id = rw unknown at h in cc)
    ]

module _ (x : External) (unit : SyncUnit) (trigger : Trigger)
    (actor from_image to_image : String) where
  pub insert_sync_event_deploys :
      (w : World x.Cloud)
      → (insert_sync_event x unit trigger actor from_image to_image w).0.deploys ≡ w.deploys
  unfolding insert_sync_event
  insert_sync_event_deploys w =
      exec_deploys x w (insert_event unit trigger actor from_image to_image)

  pub insert_sync_event-IsLogged :
      (w : World x.Cloud) (id : ℕ)
      → (insert_sync_event x unit trigger actor from_image to_image w).1 ≡ ok id
      → IsLogged unit to_image (insert_sync_event x unit trigger actor from_image to_image w).0.db
        × ((insert_sync_event x unit trigger actor from_image to_image w).0.db.locks ≡ w.db.locks)
  unfolding insert_sync_event
  insert_sync_event-IsLogged w id h =
      let (db_is, stored) =
        exec-ok x w (insert_event unit trigger actor from_image to_image) (ok id)
          (joined-ok x _ id h) in
      rw db_is (insert_event-IsLogged unit trigger actor from_image to_image w.db _ id stored)
