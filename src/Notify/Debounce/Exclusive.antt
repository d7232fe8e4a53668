-- ===== src/Notify/Debounce/Exclusive.antt =====
-- While a claim stands, no other claim of its row succeeds; once it is over, the next one does.
use run_cd.Base.{
  ℕ, ◌+◌, ◌≤◌, ◌<◌, ◌≡◌, ◌⊎◌, inl, inr, refl, Bool, true, false, Option, none, some, List, [], ◌∷◌,
  All, arith, ltb, ◌&&◌, Bool-cases,
}
use run_cd.Notify.{DebounceRow, is_free}
use run_cd.Notify.Debounce.{
  Act, claim, confirm, release, claim_recovery, clear, Event, IsClaim, statement_of, grants,
  Ordered, claim_if, claim_if-granted,
}
use run_cd.Notify.Debounce.Expiring.{Succeeds, statement-Claimed, Claimed-Succeeds}

-- The claim stands until the time, or the time is over.
abbrev Held : ℕ → ℕ → Option DebounceRow → Type 0
Held until now none = until < now
Held until now (some row) =
    (until < now) ⊎ ((e : ℕ) × (row.claim_expires_at ≡ some e) × (until ≤ e))

Held-later :
    (until now later : ℕ) (row : Option DebounceRow)
    → now ≤ later
    → Held until now row
    → Held until later row
Held-later until now later none o h = omega arith
Held-later until now later (some row) o (inl over) = inl (omega arith)
Held-later until now later (some row) o (inr stands) = inr stands

is_free-over :
    (until now : ℕ) (row : DebounceRow)
    → Held until now (some row)
    → is_free now row.claim_expires_at ≡ true
    → until < now
is_free-over until now row (inl over) h = over
is_free-over until now row (inr (e, stands, late)) h =
    let free : is_free now (some e) ≡ true = rw stands at h in ground (arith, free, late)

claim_if-Held :
    (until now : ℕ) (b : Bool) (expires : ℕ) (row : DebounceRow)
    → (b ≡ true → until < now)
    → Held until now (some row)
    → Held until now (claim_if b expires row).0
claim_if-Held until now true expires row f h = inl (f refl)
claim_if-Held until now false expires row f h = h

statement-Held :
    (interval ttl until now : ℕ) (a : Act) (row : Option DebounceRow)
    → IsClaim a
    → Held until now row
    → Held until now (statement_of interval ttl a now row).0
      × ((statement_of interval ttl a now row).1 ≡ true → until < now)
unfolding statement_of
statement-Held interval ttl until now claim none c h = (inl h, λ _. h)
statement-Held interval ttl until now claim (some row) c h =
    let test = ltb (row.last_notified_at + interval) now && is_free now row.claim_expires_at in
    let over : test ≡ true → until < now = λ t. is_free-over until now row h (ground (arith, t)) in
    (
      claim_if-Held until now test (now + ttl) row over h,
      claim_if-granted test (now + ttl) row over,
    )
statement-Held interval ttl until now claim_recovery none c h = (h, λ _. h)
statement-Held interval ttl until now claim_recovery (some row) c h =
    let test = ltb 0 row.last_notified_at && is_free now row.claim_expires_at in
    let over : test ≡ true → until < now = λ t. is_free-over until now row h (ground (arith, t)) in
    (
      claim_if-Held until now test (now + ttl) row over h,
      claim_if-granted test (now + ttl) row over,
    )
statement-Held interval ttl until now confirm row c h = absurd (elim c [ inl q ↦ cc | inr q ↦ cc ])
statement-Held interval ttl until now release row c h = absurd (elim c [ inl q ↦ cc | inr q ↦ cc ])
statement-Held interval ttl until now clear row c h = absurd (elim c [ inl q ↦ cc | inr q ↦ cc ])

grants-Held :
    (interval ttl until from : ℕ) (history : List Event) (row : Option DebounceRow)
    → Ordered from history
    → All (λ e. IsClaim e.act) history
    → Held until from row
    → All (λ e. until < e.now) (grants interval ttl row history)
unfolding grants
grants-Held interval ttl until from [] row o c h = tt
grants-Held interval ttl until from (e ∷ rest) row o c h =
    let (kept, granted) =
      statement-Held interval ttl until e.now e.act row c.0
        (Held-later until from e.now row o.0 h) in
    let later =
      grants-Held interval ttl until e.now rest (statement_of interval ttl e.act e.now row).0 o.1
        c.1 kept in
    elim (Bool-cases (statement_of interval ttl e.act e.now row).1) [
      | inl t ↦ rw t (granted t, later)
      | inr f ↦ rw f later
    ]

-- Let a claim of a row, for a message or a recovery, succeed at a time that is more than the
-- debounce interval past the epoch, and let claims of either kind follow, by any replicas and at
-- times that never go back. Then each of them that succeeds comes more than the claim's time to
-- live after the first; and if one of the first one's kind comes after that time to live, some
-- claim of the history succeeds. Histories with confirmations, releases or clears, which can
-- free the row earlier, are left out.
pub claim-Exclusive :
    (interval ttl start : ℕ) (first : Act) (row : Option DebounceRow) (history : List Event)
    → interval < start
    → IsClaim first
    → (statement_of interval ttl first start row).1 ≡ true
    → Ordered start history
    → All (λ e. IsClaim e.act) history
    → All
        (λ e. start + ttl < e.now)
        (grants interval ttl (statement_of interval ttl first start row).0 history)
      × Succeeds interval ttl
          (start + ttl)
          first
          (statement_of interval ttl first start row).0
          history
unfolding statement_of
claim-Exclusive interval ttl start first row history past c granted o claims = (
  grants-Held interval ttl (start + ttl) start history _ o claims (taken first row c granted),
  Claimed-Succeeds interval ttl start first _ history o claims
      (statement-Claimed interval ttl start first row past c granted),
)
  where
    claim_if-taken :
        (b : Bool) (held : DebounceRow)
        → (claim_if b (start + ttl) held).1 ≡ true
        → Held (start + ttl) start (claim_if b (start + ttl) held).0
    claim_if-taken true held h = inr (start + ttl, refl, omega arith)
    claim_if-taken false held h = absurd (cc)

    taken :
        (a : Act) (r : Option DebounceRow)
        → IsClaim a
        → (statement_of interval ttl a start r).1 ≡ true
        → Held (start + ttl) start (statement_of interval ttl a start r).0
    taken claim none k h = inr (start + ttl, refl, omega arith)
    taken claim (some held) k h = claim_if-taken _ held h
    taken claim_recovery none k h = absurd (cc)
    taken claim_recovery (some held) k h = claim_if-taken _ held h
    taken confirm r k h = absurd (elim k [ inl q ↦ cc | inr q ↦ cc ])
    taken release r k h = absurd (elim k [ inl q ↦ cc | inr q ↦ cc ])
    taken clear r k h = absurd (elim k [ inl q ↦ cc | inr q ↦ cc ])
