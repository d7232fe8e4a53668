-- ===== src/Notify/Markers.antt =====
-- internal/notify/notify.go: what a call of maybeNotify leaves in the table, per outcome.
use run_cd.Base.{
  ℕ, suc, ◌+◌, String, ◌&&◌, ◌≡◌, ◌≢◌, refl, ap, ◌∙◌, Bool, true, false, Option, none, some, ◌∷◌,
  Bool-cases, inl, inr, Result, ok, err, eq_iff, eq_refl, if_cases, arith, ltb,
}
use run_cd.Notify.{
  DebounceRow, Key, key_eq, Table, set_row, is_free, claim_row, confirm_row, release_row, Message,
  World, Outside, Outcome, sent, debounced, failed, send_failed, executed, execute, call_send,
  confirmed, after_send, after_claim, maybe_notify,
}

-- When the row was last notified; a missing row, at the epoch.
abbrev pub marker : Option DebounceRow → ℕ
marker none = 0
marker (some row) = row.last_notified_at

key_eq-path : (a b : Key) → key_eq a b ≡ true → a ≡ b
key_eq-path a b h =
    ground (
      arith,
      eq_iff a.application b.application,
      eq_iff a.project b.project,
      eq_iff a.rule b.rule,
      h,
    )

key_eq_refl : (a : Key) → key_eq a a ≡ true
key_eq_refl a = rw (eq_refl a.application, eq_refl a.project, eq_refl a.rule) refl

-- No marker has moved.
abbrev pub SameMarkers : World → World → Type 0
SameMarkers w next = (k : Key) → marker (next.table k) ≡ marker (w.table k)

set_row-marker :
    (key : Key) (row : Option DebounceRow) (table : Table)
    → marker row ≡ marker (table key)
    → (k : Key) → marker (set_row key row table k) ≡ marker (table k)
set_row-marker key row table h k = elim (Bool-cases (key_eq key k)) [
  | inl same ↦ rw same (h ∙ ap (λ (j : Key). marker (table j)) (key_eq-path key k same))
  | inr other ↦ rw other refl
]

executed-SameMarkers :
    (key : Key) (w : World) (fault : Option String) (r : Option DebounceRow × Bool)
    → marker r.0 ≡ marker (w.table key)
    → SameMarkers w (executed key w fault r).0
executed-SameMarkers key w none (row, b) h = set_row-marker key row w.table h
executed-SameMarkers key w (some e) (row, b) h = λ k. refl

claim_row-marker :
    (interval ttl now : ℕ) (row : Option DebounceRow)
    → marker (claim_row interval ttl now row).0 ≡ marker row
unfolding claim_row
claim_row-marker interval ttl now none = refl
claim_row-marker interval ttl now (some row) =
    elim (Bool-cases
      (ltb (row.last_notified_at + interval) now && is_free now row.claim_expires_at)) [
        | inl t ↦ rw t refl
        | inr f ↦ rw f refl
      ]

release_row-marker : (row : Option DebounceRow) → marker (release_row row).0 ≡ marker row
unfolding release_row
release_row-marker none = refl
release_row-marker (some row) = refl

-- A claim that succeeds leaves a row.
claim_row-some :
    (interval ttl now : ℕ) (row : Option DebounceRow)
    → (r : DebounceRow) × ((claim_row interval ttl now row).0 ≡ some r)
unfolding claim_row
claim_row-some interval ttl now none = (_, refl)
claim_row-some interval ttl now (some row) =
    if_cases (λ (o : Option DebounceRow × Bool). (r : DebounceRow) × (o.0 ≡ some r)) _ _ _ (_, refl)
      (row, refl)

-- What a run of the claim leaves.
record AfterClaim (key : Key) (w : World) (r : World × Result String Bool) : Type 0 where
  same_markers : SameMarkers w r.0
  same_sent : r.0.sent ≡ w.sent
  counted : r.0.statements ≡ suc w.statements
  has_row : (b : Bool) → r.1 ≡ ok b → (row : DebounceRow) × (r.0.table key ≡ some row)

claim-AfterClaim :
    (x : Outside) (interval ttl : ℕ) (key : Key) (w : World)
    → AfterClaim key w (execute x key (claim_row interval ttl) w)
unfolding execute
claim-AfterClaim x interval ttl key w =
    of_fault (x.fault w.statements) (claim_row interval ttl (x.time w.statements) (w.table key))
      (claim_row-marker interval ttl (x.time w.statements) (w.table key))
      (claim_row-some interval ttl (x.time w.statements) (w.table key))
  where
    of_fault :
        (fault : Option String) (r : Option DebounceRow × Bool)
        → marker r.0 ≡ marker (w.table key)
        → (row : DebounceRow) × (r.0 ≡ some row)
        → AfterClaim key w (executed key w fault r)
    of_fault none (row, b) h (found, e) = record {
      same_markers = set_row-marker key row w.table h;
      same_sent = refl;
      counted = refl;
      has_row = λ c q. (found, rw (key_eq_refl key) e);
    }
    of_fault (some f) (row, b) h (found, e) = record {
      same_markers = λ k. refl;
      same_sent = refl;
      counted = refl;
      has_row = λ c q. absurd (cc);
    }

-- What a call of maybeNotify leaves: a message that was sent is recorded at the time of the
-- confirmation; otherwise no marker moves; and nothing is sent where it is debounced.
abbrev pub IsRecorded : Outside → String → Message → Key → World → World × Outcome → Type 0
IsRecorded x sink message key w r =
    (r.1 ≡ sent
      → (r.0.sent ≡ record { sink = sink; message = message; key = key; delivered = true } ∷ w.sent)
        × (r.0.table key
            ≡ some
                (record { last_notified_at = x.time (suc w.statements); claim_expires_at = none })))
    × (r.1 ≢ sent → SameMarkers w r.0)
    × (r.1 ≡ debounced → r.0.sent ≡ w.sent)

module _ (x : Outside) (sink : String) (message : Message) (key : Key) (w next : World)
    (same_markers : SameMarkers w next) (same_sent : next.sent ≡ w.sent)
    (counted : next.statements ≡ suc w.statements) where
  confirm-IsRecorded :
      (fault : Option String) (row : DebounceRow)
      → next.table key ≡ some row
      → IsRecorded x sink message key w (
          confirmed key (
            executed key
              (call_send sink message key none next)
              fault
              (confirm_row (x.time next.statements) (next.table key))))
  unfolding confirm_row
  confirm-IsRecorded none row there =
      rw (there, key_eq_refl key, same_sent, counted)
        ((λ q. (refl, refl)), (λ d. absurd (d refl)), (λ q. absurd (cc)))
  confirm-IsRecorded (some e) row there =
      rw there ((λ q. absurd (cc)), (λ d. same_markers), (λ q. absurd (cc)))

  release-IsRecorded :
      (e : String) (fault : Option String)
      → IsRecorded x sink message key w (
        (executed key
            (call_send sink message key (some e) next)
            fault
            (release_row (next.table key))).0,
        failed (send_failed key e),
      )
  release-IsRecorded e fault = (
    (λ q. absurd (cc)),
    (λ d k.
        executed-SameMarkers key (call_send sink message key (some e) next) fault
          (release_row (next.table key)) (release_row-marker (next.table key)) k
        ∙ same_markers k),
    (λ q. absurd (cc)),
  )

after_claim-IsRecorded :
    (x : Outside) (sink : String) (message : Message) (key : Key) (w : World)
    (r : World × Result String Bool)
    → AfterClaim key w r
    → IsRecorded x sink message key w (after_claim x sink message key r)
unfolding execute
after_claim-IsRecorded x sink message key w (next, err e) a =
    ((λ q. absurd (cc)), (λ d. a.same_markers), (λ q. a.same_sent))
after_claim-IsRecorded x sink message key w (next, ok false) a =
    ((λ q. absurd (cc)), (λ d. a.same_markers), (λ q. a.same_sent))
after_claim-IsRecorded x sink message key w (next, ok true) a =
    of_fault (x.send_fault next.statements)
  where
    of_fault :
        (fault : Option String)
        → IsRecorded x sink message key w
            (after_send x key fault (call_send sink message key fault next))
    of_fault none =
        let (row, there) = a.has_row true refl in
        confirm-IsRecorded x sink message key w next a.same_markers a.same_sent a.counted
          (x.fault next.statements) row there
    of_fault (some e) =
        release-IsRecorded x sink message key w next a.same_markers a.same_sent a.counted e
          (x.fault next.statements)

-- Whatever statement or send fails: if maybeNotify reports a message as sent, exactly that
-- message was delivered and its row holds the time of the confirmation and no claim; if it does
-- not, no key's marker has moved; and if it is debounced, nothing was sent.
pub maybe_notify-IsRecorded :
    (x : Outside) (interval ttl : ℕ) (sink : String) (message : Message) (key : Key) (w : World)
    → IsRecorded x sink message key w (maybe_notify x interval ttl sink message key w)
unfolding maybe_notify
maybe_notify-IsRecorded x interval ttl sink message key w =
    after_claim-IsRecorded x sink message key w _ (claim-AfterClaim x interval ttl key w)
