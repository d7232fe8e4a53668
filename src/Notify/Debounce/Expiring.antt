-- ===== src/Notify/Debounce/Expiring.antt =====
-- A claim that is never ended expires: then the next claim of its kind succeeds.
use run_cd.Base.{
  ℕ, ◌+◌, ◌≤◌, ◌<◌, ◌≡◌, ◌≢◌, inl, inr, refl, sym, ◌∙◌, subst, Bool, true, false, Option, none,
  some, List, [], ◌∷◌, All, All-intro, arith, Bool-cases,
}
use run_cd.Notify.{DebounceRow, is_free, claimed_until}
use run_cd.Notify.Debounce.{
  Act, claim, confirm, release, claim_recovery, clear, Event, IsClaim, statement_of, grants,
  Ordered, claim_if,
}

-- What the two kinds of claim demand of the row besides, at a time.
abbrev pub IsEligible : ℕ → ℕ → Act → DebounceRow → Type 0
IsEligible interval now claim row = row.last_notified_at + interval < now
IsEligible interval now claim_recovery row = 0 < row.last_notified_at
IsEligible interval now _ row = ⊥

claim_if-refused :
    (b : Bool) (expires : ℕ) (row : DebounceRow)
    → (claim_if b expires row).1 ≡ false
    → (claim_if b expires row).0 ≡ some row
claim_if-refused true expires row h = absurd (cc)
claim_if-refused false expires row h = refl

claim_if-passed :
    (b : Bool) (expires : ℕ) (row : DebounceRow) → b ≡ true → (claim_if b expires row).1 ≡ true
claim_if-passed true expires row h = refl
claim_if-passed false expires row h = absurd (cc)

module _ (interval ttl : ℕ) where
  -- A claim that is refused leaves the row.
  statement-refused :
      (now : ℕ) (a : Act) (row : DebounceRow)
      → IsClaim a
      → (statement_of interval ttl a now (some row)).1 ≡ false
      → (statement_of interval ttl a now (some row)).0 ≡ some row
  unfolding statement_of
  statement-refused now claim row c h = claim_if-refused _ (now + ttl) row h
  statement-refused now claim_recovery row c h = claim_if-refused _ (now + ttl) row h
  statement-refused now confirm row c h = absurd (elim c [ inl q ↦ cc | inr q ↦ cc ])
  statement-refused now release row c h = absurd (elim c [ inl q ↦ cc | inr q ↦ cc ])
  statement-refused now clear row c h = absurd (elim c [ inl q ↦ cc | inr q ↦ cc ])

  -- A claim succeeds where the row is eligible and the claim on it is over.
  statement-granted :
      (until now : ℕ) (a : Act) (row : DebounceRow)
      → row.claim_expires_at ≡ some until
      → until < now
      → IsEligible interval now a row
      → (statement_of interval ttl a now (some row)).1 ≡ true
  unfolding statement_of
  statement-granted until now claim row e late due = claim_if-passed _ (now + ttl) row (
      let free : is_free now row.claim_expires_at ≡ true = rw e (ground (arith, late)) in
      ground (arith, free, due))
  statement-granted until now claim_recovery row e late due = claim_if-passed _ (now + ttl) row (
      let free : is_free now row.claim_expires_at ≡ true = rw e (ground (arith, late)) in
      ground (arith, free, due))
  statement-granted until now confirm row e late due = absurd due
  statement-granted until now release row e late due = absurd due
  statement-granted until now clear row e late due = absurd due

  -- Some statement of the history succeeds if a claim of the kind comes after the time.
  abbrev pub Succeeds : ℕ → Act → Option DebounceRow → List Event → Type 0
  Succeeds until kind row history =
      All (λ e. e.act ≡ kind → until < e.now → grants interval ttl row history ≢ []) history

  IsEligible-later :
      (a : Act) (now later : ℕ) (row : DebounceRow)
      → now ≤ later
      → IsEligible interval now a row
      → IsEligible interval later a row
  IsEligible-later claim now later row o due = omega arith
  IsEligible-later claim_recovery now later row o due = due
  IsEligible-later confirm now later row o due = due
  IsEligible-later release now later row o due = due
  IsEligible-later clear now later row o due = due

  pub grants-Succeeds :
      (until from : ℕ) (kind : Act) (history : List Event) (row : DebounceRow)
      → Ordered from history
      → All (λ e. IsClaim e.act) history
      → row.claim_expires_at ≡ some until
      → IsEligible interval from kind row
      → Succeeds until kind (some row) history
  unfolding grants
  grants-Succeeds until from kind [] row o c e due = tt
  grants-Succeeds until from kind (v ∷ rest) row o c e due =
      elim (Bool-cases (statement_of interval ttl v.act v.now (some row)).1) [
        | inl granted ↦
            let some_grant : grants interval ttl (some row) (v ∷ rest) ≢ [] =
              rw granted (λ h. cc) in
            All-intro _ (v ∷ rest) (λ _ _ _. some_grant)
        | inr refused ↦
            let same = statement-refused v.now v.act row c.0 refused in
            let onward : grants interval ttl (some row) (v ∷ rest)
                ≡ grants interval ttl (some row) rest =
              rw (refused, same) refl in
            let due_then = IsEligible-later kind from v.now row o.0 due in
            (
              λ k late. absurd (
                  let q : true ≡ false =
                    sym (
                      statement-granted until v.now v.act row e late
                        (subst (λ a. IsEligible interval v.now a row) (sym k) due_then))
                    ∙ refused in
                  cc),
              subst (λ g. All (λ u. u.act ≡ kind → until < u.now → g ≢ []) rest) (sym onward)
                  (grants-Succeeds until v.now kind rest row o.1 c.1 e due_then),
            )
      ]

  -- What a claim that succeeds leaves behind.
  abbrev Claimed : ℕ → Act → Option DebounceRow → Type 0
  Claimed start kind o =
      (row : DebounceRow) × (o ≡ some row)
      × (row.claim_expires_at ≡ some (start + ttl))
      × IsEligible interval start kind row

  claim_if-Claimed :
      (start : ℕ) (kind : Act) (b : Bool) (row : DebounceRow)
      → (b ≡ true → IsEligible interval start kind (claimed_until (start + ttl) row))
      → (claim_if b (start + ttl) row).1 ≡ true
      → Claimed start kind (claim_if b (start + ttl) row).0
  claim_if-Claimed start kind true row f h = (_, refl, refl, f refl)
  claim_if-Claimed start kind false row f h = absurd (cc)

  pub statement-Claimed :
      (start : ℕ) (kind : Act) (row : Option DebounceRow)
      → interval < start
      → IsClaim kind
      → (statement_of interval ttl kind start row).1 ≡ true
      → Claimed start kind (statement_of interval ttl kind start row).0
  unfolding statement_of
  statement-Claimed start claim none i c h = (_, refl, refl, omega arith)
  statement-Claimed start claim (some row) i c h =
      claim_if-Claimed start claim _ row (λ t. ground (arith, t)) h
  statement-Claimed start claim_recovery none i c h = absurd (cc)
  statement-Claimed start claim_recovery (some row) i c h =
      claim_if-Claimed start claim_recovery _ row (λ t. ground (arith, t)) h
  statement-Claimed start confirm row i c h = absurd (elim c [ inl q ↦ cc | inr q ↦ cc ])
  statement-Claimed start release row i c h = absurd (elim c [ inl q ↦ cc | inr q ↦ cc ])
  statement-Claimed start clear row i c h = absurd (elim c [ inl q ↦ cc | inr q ↦ cc ])

  -- After a claim that succeeded, among claims alone.
  pub Claimed-Succeeds :
      (start : ℕ) (kind : Act) (o : Option DebounceRow) (history : List Event)
      → Ordered start history
      → All (λ e. IsClaim e.act) history
      → Claimed start kind o
      → Succeeds (start + ttl) kind o history
  Claimed-Succeeds start kind o history order claims (row, at, expires, due) =
      subst (λ r. Succeeds (start + ttl) kind r history) (sym at)
        (grants-Succeeds (start + ttl) start kind history row order claims expires due)
