-- ===== src/Reconcile/Store.antt =====
-- The SQL statements of internal/reconcile/reconcile.go.
pub mod Statements
pub mod Locks
pub mod Succeeding
use run_cd.Base.{
  ℕ, suc, ◌+◌, String, ◌==◌, Bool, true, false, ◌&&◌, Option, none, some, List, [], ◌∷◌, ◌++◌, map,
  ltb, nat_eq, is_some, Result, ok, err, if◌then◌else◌,
}
use run_cd.Expander.{SyncUnit}
use run_cd.Reconcile.{
  Status, Health, Trigger, SyncResult, LockRow, AppRow, EventRow, EventResult, in_progress, Db,
  World, External,
}

abbrev pub at_key {ℓ} :
    {V : Type ℓ} → String → String → V → (String → String → V) → String → String → V
at_key app project v table a p = if (a == app) && (p == project) then v else table a p

abbrev pub null_if_empty : String → Option String
null_if_empty s = if s == "" then none else some s

-- lockTTL, in seconds
abbrev pub lock_ttl : ℕ
lock_ttl = 120

-- INSERT INTO sync_locks … ON CONFLICT DO UPDATE … WHERE expires_at < now(): the rows affected.
abbrev claim : SyncUnit → String → ℕ → Option LockRow → Db → Db × ℕ
claim unit token now none db = (
  record db {
    locks =
        at_key unit.app unit.project (some (record { holder = token; expires_at = now + lock_ttl }))
          db.locks;
  },
  1,
)
claim unit token now (some row) db =
    if ltb row.expires_at now
    then (
      record db {
        locks =
            at_key unit.app unit.project
              (some (record { holder = token; expires_at = now + lock_ttl })) db.locks;
      },
      1,
    )
    else (db, 0)

unfoldable pub claim_lock : SyncUnit → String → Db → ℕ → Db × ℕ
claim_lock unit token db now = claim unit token now (db.locks unit.app unit.project) db

abbrev drop_if_held : SyncUnit → String → Option LockRow → Db → Db
drop_if_held unit token none db = db
drop_if_held unit token (some row) db =
    if row.holder == token
    then record db { locks = at_key unit.app unit.project none db.locks }
    else db

-- DELETE FROM sync_locks WHERE … AND holder = token
unfoldable pub delete_lock : SyncUnit → String → Db → ℕ → Db × Unit {0}
delete_lock unit token db now = (drop_if_held unit token (db.locks unit.app unit.project) db, tt)

-- The columns that a failed fetch leaves empty keep the values of the row.
abbrev kept : Bool → String → String → String
kept fetched old new = if fetched then new else old

abbrev kept_image : Option String → Option String → Option String
kept_image old none = old
kept_image old (some image) = some image

abbrev status_eq : Status → Status → Bool
status_eq Status.unset Status.unset = true
status_eq Status.invalid Status.invalid = true
status_eq Status.missing Status.missing = true
status_eq Status.synced Status.synced = true
status_eq Status.out_of_sync Status.out_of_sync = true
status_eq _ _ = false

abbrev health_eq : Health → Health → Bool
health_eq Health.unset Health.unset = true
health_eq Health.invalid Health.invalid = true
health_eq Health.missing Health.missing = true
health_eq Health.healthy Health.healthy = true
health_eq Health.progressing Health.progressing = true
health_eq Health.degraded Health.degraded = true
health_eq _ _ = false

-- VALUES (…), or the ON CONFLICT DO UPDATE of the row that is there
unfoldable pub upserted : SyncResult → ℕ → Option AppRow → AppRow
upserted res now none = record {
  desired_image = res.desired_image;
  live_image = null_if_empty res.live_image;
  track = res.track;
  version = res.version;
  repository = res.repository;
  resource_type = res.resource_type;
  status = res.status;
  health = res.health;
  status_since = now;
  health_since = now;
  last_reconciled_at = now;
}
upserted res now (some row) =
    let fetched = if res.desired_image == "" then false else true in
    record {
      desired_image = kept fetched row.desired_image res.desired_image;
      live_image = kept_image row.live_image (null_if_empty res.live_image);
      track = kept fetched row.track res.track;
      version = kept fetched row.version res.version;
      repository = kept fetched row.repository res.repository;
      resource_type = kept fetched row.resource_type res.resource_type;
      status = res.status;
      health = res.health;
      status_since = if status_eq row.status res.status then row.status_since else now;
      health_since = if health_eq row.health res.health then row.health_since else now;
      last_reconciled_at = now;
    }

unfoldable pub upsert_application : SyncResult → Db → ℕ → Db × AppRow
upsert_application res db now =
    let app = res.unit.app in
    let project = res.unit.project in
    let row = upserted res now (db.applications app project) in
    (record db { applications = at_key app project (some row) db.applications }, row)

-- INSERT INTO sync_events …, whose foreign key wants the applications row
unfoldable pub insert_event :
    SyncUnit → Trigger → String → String → String → Db → ℕ → Db × Result String ℕ
insert_event unit trigger actor from_image to_image db now =
    let row : EventRow = record {
      id = db.next_id;
      application = unit.app;
      project = unit.project;
      trigger = trigger;
      actor = actor;
      from_image = null_if_empty from_image;
      to_image = to_image;
      started_at = now;
      finished_at = none;
      result = in_progress;
      message = none;
    } in
    if is_some (db.applications unit.app unit.project)
    then (record db { events = row ∷ db.events; next_id = suc db.next_id }, ok db.next_id)
    else (db, err "sync_events_application_fkey")

abbrev finish : ℕ → EventResult → String → ℕ → EventRow → EventRow
finish id result message now row =
    if nat_eq row.id id
    then record row { finished_at = some now; result = result; message = null_if_empty message }
    else row

-- UPDATE sync_events SET finished_at = now(), … WHERE id = …
unfoldable pub update_event : ℕ → EventResult → String → Db → ℕ → Db × Unit {0}
update_event id result message db now =
    (record db { events = map (finish id result message now) db.events }, tt)

module _ (x : External) where
  abbrev exec_with {ℓ} :
      {A : Type ℓ}
      → World x.Cloud
      → Option String
      → (Db → ℕ → Db × A)
      → World x.Cloud × Result String A
  exec_with w (some e) run = (record w { statements = suc w.statements }, err e)
  exec_with w none run =
      let (db, a) = run w.db (x.clock w.statements) in
      (record w { db = db; statements = suc w.statements }, ok a)

  -- One statement: its fault, or its effect and result.
  unfoldable pub exec {ℓ} :
      {A : Type ℓ} → World x.Cloud → (Db → ℕ → Db × A) → World x.Cloud × Result String A
  exec w run = exec_with w (x.fault w.statements) run

  abbrev one_row : Result String ℕ → Result String Bool
  one_row (ok n) = ok (nat_eq n 1)
  one_row (err e) = err e

  unfoldable pub acquire_lock :
      SyncUnit → String → World x.Cloud → World x.Cloud × Result String Bool
  unfolding exec claim_lock
  acquire_lock unit token w = let (w', r) = exec w (claim_lock unit token) in (w', one_row r)

  -- A fault is only logged.
  unfoldable pub release_lock : SyncUnit → String → World x.Cloud → World x.Cloud
  unfolding exec delete_lock
  release_lock unit token w = (exec w (delete_lock unit token)).0

  abbrev joined : Result String (Result String ℕ) → Result String ℕ
  joined (ok r) = r
  joined (err e) = err e

  unfoldable pub insert_sync_event :
      SyncUnit
      → Trigger
      → String
      → String
      → String
      → World x.Cloud
      → World x.Cloud × Result String ℕ
  unfolding exec insert_event
  insert_sync_event unit trigger actor from_image to_image w =
      let (w', r) = exec w (insert_event unit trigger actor from_image to_image) in (w', joined r)

  unfoldable pub update_sync_event :
      ℕ → EventResult → String → World x.Cloud → World x.Cloud × Result String (Unit {0})
  unfolding exec update_event
  update_sync_event id result message w = exec w (update_event id result message)

  abbrev with_since : SyncResult → Result String AppRow → SyncResult × Option String
  with_since res (ok row) = (
    record res { status_since = some row.status_since; health_since = some row.health_since },
    none,
  )
  with_since res (err e) = (res, some e)

  -- The result with the times of the row, and the error of the statement.
  unfoldable pub upsert : SyncResult → World x.Cloud → World x.Cloud × SyncResult × Option String
  unfolding exec upsert_application upserted
  upsert res w =
      let (w', r) = exec w (upsert_application res) in
      let (res', e) = with_since res r in (w', res', e)
