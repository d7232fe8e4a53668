-- ===== src/Reconcile/Store/Locks.antt =====
-- The locks of sync_locks over any history of claims and releases, by any attempts on any units.
use run_cd.Base.{
  ℕ, ◌+◌, ◌≤◌, ◌<◌, String, ◌==◌, ◌≡◌, ◌≢◌, ◌⊎◌, inl, inr, refl, sym, ◌∙◌, Bool, true, false, ◌&&◌,
  Option, none, some, List, [], ◌∷◌, All, arith, ltb, nat_eq, Bool-cases, eq_iff, eq-false_iff,
  and-eq-true_iff, if_cases, if◌then◌else◌,
}
use run_cd.Expander.{SyncUnit}
use run_cd.Reconcile.{LockRow, Db}
use run_cd.Reconcile.Store.{at_key, lock_ttl, claim, claim_lock, drop_if_held, delete_lock}

pub data LockAct : Type 0 where
  acquire release : LockAct

-- A statement on the locks: by an attempt with the token, on the unit.
pub record LockEvent : Type 0 where
  pub act : LockAct
  pub unit : SyncUnit
  pub token : String
  pub now : ℕ

-- The tables after the statement, and whether it has taken a lock.
abbrev pub lock_step : LockAct → SyncUnit → String → ℕ → Db → Db × Bool
lock_step acquire unit token now db =
    let (next, n) = claim_lock unit token db now in (next, nat_eq n 1)
lock_step release unit token now db = ((delete_lock unit token db now).0, false)

-- The claims of a history that take a lock.
unfoldable pub taken : Db → List LockEvent → List LockEvent
unfolding claim_lock delete_lock
taken db [] = []
taken db (e ∷ rest) =
    let (next, took) = lock_step e.act e.unit e.token e.now db in
    let later = taken next rest in if took then e ∷ later else later

-- The database's clock never goes back.
abbrev pub Ordered : ℕ → List LockEvent → Type 0
Ordered from [] = Unit
Ordered from (e ∷ rest) = (from ≤ e.now) × Ordered e.now rest

-- The two have one row.
abbrev pub IsSame : SyncUnit → SyncUnit → Type 0
IsSame u unit = (u.app ≡ unit.app) × (u.project ≡ unit.project)

module _ {ℓ} {V : Type ℓ} (unit u : SyncUnit) (v : V) (table : String → String → V) where
  at_key-same : IsSame u unit → at_key u.app u.project v table unit.app unit.project ≡ v
  at_key-same e =
      rw ((eq_iff unit.app u.app).1 (sym e.0), (eq_iff unit.project u.project).1 (sym e.1)) refl

  at_key-apart :
      ¬ (IsSame u unit)
      → at_key u.app u.project v table unit.app unit.project ≡ table unit.app unit.project
  at_key-apart d =
      let apart : ((unit.app == u.app) && (unit.project == u.project)) ≡ false =
        (eq-false_iff _ (and-eq-true_iff (unit.app == u.app) (unit.project == u.project))).1 (λ h.
          d (sym ((eq_iff unit.app u.app).0 h.0), sym ((eq_iff unit.project u.project).0 h.1))) in
      rw apart refl

IsSame-cases : (u unit : SyncUnit) → IsSame u unit ⊎ (¬ (IsSame u unit))
IsSame-cases u unit = elim (Bool-cases (u.app == unit.app)) [
  | inl a ↦ elim (Bool-cases (u.project == unit.project)) [
    | inl p ↦ inl ((eq_iff u.app unit.app).0 a, (eq_iff u.project unit.project).0 p)
    | inr p ↦ inr (λ h. (eq-false_iff _ (eq_iff u.project unit.project)).0 p h.1)
  ]
  | inr a ↦ inr (λ h. (eq-false_iff _ (eq_iff u.app unit.app)).0 a h.0)
]

nat_eq-one : (n : ℕ) → nat_eq n 1 ≡ true → n ≡ 1
nat_eq-one n h = ground (arith, h)

module _ (unit : SyncUnit) (token : String) (until : ℕ) where
  -- The unit's row is the attempt's and lasts until the time, or the time is over.
  abbrev Held : ℕ → Db → Type 0
  Held now db =
      ((row : LockRow) × (db.locks unit.app unit.project ≡ some row)
        × (row.holder ≡ token)
        × (until ≤ row.expires_at))
      ⊎ (until < now)

  Held-later : (now later : ℕ) (db : Db) → now ≤ later → Held now db → Held later db
  Held-later now later db o (inl stands) = inl stands
  Held-later now later db o (inr over) = inr (omega arith)

  -- A statement on another unit leaves the row as it is.
  claim-apart :
      (u : SyncUnit) (t : String) (now : ℕ) (o : Option LockRow) (db : Db)
      → ¬ (IsSame u unit)
      → (claim u t now o db).0.locks unit.app unit.project ≡ db.locks unit.app unit.project
  claim-apart u t now none db d = at_key-apart unit u _ db.locks d
  claim-apart u t now (some row) db d =
      if_cases (λ (r : Db × ℕ). r.0.locks unit.app unit.project ≡ db.locks unit.app unit.project)
        (ltb row.expires_at now) _ _ (at_key-apart unit u _ db.locks d) refl

  drop-apart :
      (u : SyncUnit) (t : String) (o : Option LockRow) (db : Db)
      → ¬ (IsSame u unit)
      → (drop_if_held u t o db).locks unit.app unit.project ≡ db.locks unit.app unit.project
  drop-apart u t none db d = refl
  drop-apart u t (some row) db d =
      if_cases (λ (r : Db). r.locks unit.app unit.project ≡ db.locks unit.app unit.project)
        (row.holder == t) _ _ (at_key-apart unit u _ db.locks d) refl

  Held-move :
      (now : ℕ) (db next : Db)
      → next.locks unit.app unit.project ≡ db.locks unit.app unit.project
      → Held now db
      → Held now next
  Held-move now db next e (inl (row, at, held, late)) = inl (row, e ∙ at, held, late)
  Held-move now db next e (inr over) = inr over

  locks-same :
      (u : SyncUnit) (db : Db)
      → IsSame u unit
      → db.locks u.app u.project ≡ db.locks unit.app unit.project
  locks-same u db e = rw (e.0, e.1) refl

  -- A claim of the unit while the lock stands changes nothing.
  claim-Held :
      (u : SyncUnit) (t : String) (now : ℕ) (db : Db)
      → Held now db
      → Held now (claim_lock u t db now).0
        × ((claim_lock u t db now).1 ≡ 1 → IsSame u unit → until < now)
  unfolding claim_lock
  claim-Held u t now db (inr over) = (inr over, λ _ _. over)
  claim-Held u t now db (inl (row, at, held, late)) = elim (IsSame-cases u unit) [
    | inr apart ↦ (
      Held-move now db (claim_lock u t db now).0
          (claim-apart u t now (db.locks u.app u.project) db apart) (inl (row, at, held, late)),
      λ _ same. absurd (apart same),
    )
    | inl same ↦ rw (locks-same u db same ∙ at) (elim (Bool-cases (ltb row.expires_at now)) [
      | inl expired ↦
          let over : until < now = ground (arith, expired, late) in (inr over, λ _ _. over)
      | inr stands ↦ rw stands (inl (row, at, held, late), λ n _. absurd (omega (arith, n)))
    ])
  ]

  drop-Held :
      (u : SyncUnit) (t : String) (now : ℕ) (db : Db)
      → (IsSame u unit → t ≢ token)
      → Held now db
      → Held now (delete_lock u t db now).0
  unfolding delete_lock
  drop-Held u t now db d (inr over) = inr over
  drop-Held u t now db d (inl (row, at, held, late)) = elim (IsSame-cases u unit) [
    | inr apart ↦
        Held-move now db (delete_lock u t db now).0
          (drop-apart u t (db.locks u.app u.project) db apart) (inl (row, at, held, late))
    | inl same ↦
        let other : (row.holder == t) ≡ false =
          (eq-false_iff _ (eq_iff row.holder t)).1 (λ e. d same (sym e ∙ held)) in
        rw (locks-same u db same ∙ at) (rw other (inl (row, at, held, late)))
  ]

  -- A statement keeps the lock, and takes it only once the time is over.
  step-Held :
      (a : LockAct) (u : SyncUnit) (t : String) (now : ℕ) (db : Db)
      → (a ≡ release → IsSame u unit → t ≢ token)
      → Held now db
      → Held now (lock_step a u t now db).0
        × ((lock_step a u t now db).1 ≡ true → IsSame u unit → until < now)
  step-Held acquire u t now db d held =
      let (kept, late) = claim-Held u t now db held in
      (kept, λ took same. late (nat_eq-one _ took) same)
  step-Held release u t now db d held = (drop-Held u t now db (d refl) held, λ took. absurd (cc))

  taken-Held :
      (from : ℕ) (history : List LockEvent) (db : Db)
      → Ordered from history
      → All (λ e. e.act ≡ release → IsSame e.unit unit → e.token ≢ token) history
      → Held from db
      → All (λ e. IsSame e.unit unit → until < e.now) (taken db history)
  unfolding taken
  taken-Held from [] db o d held = tt
  taken-Held from (e ∷ rest) db o d held =
      let (kept, late) =
        step-Held e.act e.unit e.token e.now db d.0 (Held-later from e.now db o.0 held) in
      let later = taken-Held e.now rest (lock_step e.act e.unit e.token e.now db).0 o.1 d.1 kept in
      elim (Bool-cases (lock_step e.act e.unit e.token e.now db).1) [
        | inl t ↦ rw t (late t, later)
        | inr f ↦ rw f later
      ]

-- A claim that changes one row has made the row the attempt's for the time to live.
won_claim-Held :
    (unit : SyncUnit) (token : String) (start : ℕ) (o : Option LockRow) (db : Db)
    → (claim unit token start o db).1 ≡ 1
    → Held unit token (start + lock_ttl) start (claim unit token start o db).0
won_claim-Held unit token start none db n =
    inl (_, at_key-same unit unit _ db.locks (refl, refl), refl, omega arith)
won_claim-Held unit token start (some row) db n =
    if_cases (λ (r : Db × ℕ). r.1 ≡ 1 → Held unit token (start + lock_ttl) start r.0)
      (ltb row.expires_at start) _ _
      (λ _. inl (_, at_key-same unit unit _ db.locks (refl, refl), refl, omega arith))
      (λ none_changed. absurd (omega (arith, none_changed))) n

-- After an attempt has claimed a unit's lock, in any history of claims and releases from then
-- on, by any attempts on any units and at times that never go back, each further claim that
-- takes the same unit's lock comes more than lockTTL, 120 seconds, later, as long as no release
-- of that unit carries the attempt's own token. Releases under any other token, also late ones,
-- do not give the lock away.
pub claim_lock-Exclusive :
    (unit : SyncUnit) (token : String) (start : ℕ) (db : Db) (history : List LockEvent)
    → (claim_lock unit token db start).1 ≡ 1
    → Ordered start history
    → All (λ e. e.act ≡ release → IsSame e.unit unit → e.token ≢ token) history
    → All
        (λ e. IsSame e.unit unit → start + lock_ttl < e.now)
        (taken (claim_lock unit token db start).0 history)
unfolding claim_lock
claim_lock-Exclusive unit token start db history n o d =
    taken-Held unit token (start + lock_ttl) start history _ o d
      (won_claim-Held unit token start (db.locks unit.app unit.project) db n)
