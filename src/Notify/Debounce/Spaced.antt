-- ===== src/Notify/Debounce/Spaced.antt =====
-- After a message is confirmed, no claim for its key succeeds within the interval.
use run_cd.Base.{
  ℕ, ◌+◌, ◌≤◌, ◌<◌, ◌≡◌, ◌≢◌, inl, inr, refl, Bool, true, false, Option, none, some, List, [], ◌∷◌,
  All, arith, ltb, ◌&&◌, Bool-cases,
}
use run_cd.Notify.{DebounceRow, is_free, confirm_row}
use run_cd.Notify.Debounce.{
  Act, claim, confirm, release, claim_recovery, clear, Event, statement_of, grants, Ordered,
  claim_if, claim_if-granted,
}

-- The row was notified at the time or later.
abbrev Notified : ℕ → Option DebounceRow → Type 0
Notified start none = ⊥
Notified start (some row) = start ≤ row.last_notified_at

claim_if-Notified :
    (start : ℕ) (b : Bool) (expires : ℕ) (row : DebounceRow)
    → start ≤ row.last_notified_at
    → Notified start (claim_if b expires row).0
claim_if-Notified start true expires row n = n
claim_if-Notified start false expires row n = n

-- A statement but `clear` keeps a row notified, and grants a claim only after the interval.
statement-Notified :
    (interval ttl start now : ℕ) (a : Act) (row : Option DebounceRow)
    → start ≤ now
    → a ≢ clear
    → Notified start row
    → Notified start (statement_of interval ttl a now row).0
      × ((statement_of interval ttl a now row).1 ≡ true → a ≡ claim → start + interval < now)
unfolding statement_of
statement-Notified interval ttl start now a none o d n = absurd n
statement-Notified interval ttl start now claim (some row) o d n =
    let test = ltb (row.last_notified_at + interval) now && is_free now row.claim_expires_at in
    (
      claim_if-Notified start test (now + ttl) row n,
      λ h _. claim_if-granted test (now + ttl) row (λ t. ground (arith, t, n)) h,
    )
statement-Notified interval ttl start now confirm (some row) o d n = (o, λ h q. absurd (cc))
statement-Notified interval ttl start now release (some row) o d n = (n, λ h q. absurd (cc))
statement-Notified interval ttl start now claim_recovery (some row) o d n =
    (claim_if-Notified start _ (now + ttl) row n, λ h q. absurd (cc))
statement-Notified interval ttl start now clear (some row) o d n = absurd (d refl)

grants-Notified :
    (interval ttl start from : ℕ) (history : List Event) (row : Option DebounceRow)
    → start ≤ from
    → Ordered from history
    → All (λ e. e.act ≢ clear) history
    → Notified start row
    → All (λ e. e.act ≡ claim → start + interval < e.now) (grants interval ttl row history)
unfolding grants
grants-Notified interval ttl start from [] row s o d n = tt
grants-Notified interval ttl start from (e ∷ rest) row s o d n =
    let (kept, granted) =
      statement-Notified interval ttl start e.now e.act row (omega arith) d.0 n in
    let later =
      grants-Notified interval ttl start e.now rest (statement_of interval ttl e.act e.now row).0
        (omega arith) o.1 d.1 kept in
    elim (Bool-cases (statement_of interval ttl e.act e.now row).1) [
      | inl t ↦ rw t (granted t, later)
      | inr f ↦ rw f later
    ]

-- After a message of a key is confirmed at a time, in any history of the statements on its row
-- from then on, by any replicas and at times that never go back, each successful claim for a
-- message comes more than the debounce interval later, as long as no recovery clears the marker.
pub confirm_row-Spaced :
    (interval ttl start : ℕ) (row : DebounceRow) (history : List Event)
    → Ordered start history
    → All (λ e. e.act ≢ clear) history
    → All
        (λ e. e.act ≡ claim → start + interval < e.now)
        (grants interval ttl (confirm_row start (some row)).0 history)
unfolding confirm_row
confirm_row-Spaced interval ttl start row history o d =
    grants-Notified interval ttl start start history _ (omega arith) o d (omega arith)
