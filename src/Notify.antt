-- ===== src/Notify.antt =====
-- internal/notify/notify.go: the table notification_debounce, and one message that is claimed, sent and
-- confirmed. A time is in seconds from the epoch. Rules: the rules, and Evaluate.
pub mod Rules
pub mod Debounce
pub mod Markers
pub mod Sends
pub mod Calls
pub mod Resolved
use run_cd.Base.{
  ℕ, zero, suc, ◌+◌, String, ◌==◌, Bool, true, false, ◌&&◌, Option, none, some, List, [], ◌∷◌, ltb,
  Result, ok, err, if◌then◌else◌,
}
use run_cd.Base.Int.{ℤ, pos, negsuc}

-- A row, without its key.
pub record DebounceRow : Type 0 where
  pub last_notified_at : ℕ
  pub claim_expires_at : Option ℕ

-- application, target_gcp_project and rule
pub record Key : Type 0 where
  pub application : String
  pub project : String
  pub rule : String

abbrev pub key_eq : Key → Key → Bool
key_eq a b = (a.application == b.application) && ((a.project == b.project) && (a.rule == b.rule))

-- The table: the row of a key, if there is one.
abbrev pub Table : Type 0
Table = Key → Option DebounceRow

abbrev pub set_row : Key → Option DebounceRow → Table → Table
set_row key row table = λ k. if key_eq key k then row else table k

-- claim_expires_at IS NULL OR claim_expires_at < now()
abbrev pub is_free : ℕ → Option ℕ → Bool
is_free now none = true
is_free now (some expires) = ltb expires now

abbrev pub claimed_until : ℕ → DebounceRow → DebounceRow
claimed_until expires row = record row { claim_expires_at = some expires }

-- A statement on the row of one key: the row after it, and whether a row is returned.
abbrev pub Statement : Type 0
Statement = Option DebounceRow → Option DebounceRow × Bool

-- INSERT … ON CONFLICT … DO UPDATE … WHERE last_notified_at < now() - interval AND the claim is free
unfoldable pub claim_row : ℕ → ℕ → ℕ → Statement
claim_row interval ttl now none =
    (some (record { last_notified_at = 0; claim_expires_at = some (now + ttl) }), true)
claim_row interval ttl now (some row) =
    if ltb (row.last_notified_at + interval) now && is_free now row.claim_expires_at
    then (some (claimed_until (now + ttl) row), true)
    else (some row, false)

-- SET last_notified_at = now(), claim_expires_at = NULL
unfoldable pub confirm_row : ℕ → Statement
confirm_row now none = (none, false)
confirm_row now (some row) =
    (some (record { last_notified_at = now; claim_expires_at = none }), true)

-- SET claim_expires_at = NULL
unfoldable pub release_row : Statement
release_row none = (none, false)
release_row (some row) = (some (record row { claim_expires_at = none }), true)

-- UPDATE … SET claim_expires_at … WHERE last_notified_at > 'epoch' AND the claim is free
unfoldable pub claim_recovery_row : ℕ → ℕ → Statement
claim_recovery_row ttl now none = (none, false)
claim_recovery_row ttl now (some row) =
    if ltb 0 row.last_notified_at && is_free now row.claim_expires_at
    then (some (claimed_until (now + ttl) row), true)
    else (some row, false)

-- SET last_notified_at = 'epoch', claim_expires_at = NULL
unfoldable pub clear_row : Statement
clear_row none = (none, false)
clear_row (some row) = (some (record { last_notified_at = 0; claim_expires_at = none }), true)

-- The messages, each with what its text is made of.
pub data Message : Type 0 where
  sync_failed : String → String → String → Message
  degraded_since gated_since : String → String → ℕ → Message
  recovered : String → String → Message

-- A call of Send: the sink (its webhook), the message and the key that it was claimed under.
pub record Sent : Type 0 where
  pub sink : String
  pub message : Message
  pub key : Key
  pub delivered : Bool

-- The table, the number of statements so far, and the calls of Send, the last one first.
pub record World : Type 0 where
  pub table : Table
  pub statements : ℕ
  pub sent : List Sent

-- What is outside: whether the n-th statement fails and what time the database has then, and whether
-- Send fails after the n-th statement.
pub record Outside : Type 0 where
  pub fault : ℕ → Option String
  pub time : ℕ → ℕ
  pub send_fault : ℕ → Option String

pub data NotifyError : Type 0 where
  claim_failed send_failed confirm_failed : Key → String → NotifyError
  recovery_claim_failed recovery_confirm_failed : Key → String → NotifyError

pub data Outcome : Type 0 where
  sent debounced : Outcome
  failed : NotifyError → Outcome

-- A Duration in whole seconds, and its default where it is not positive.
abbrev pub or_default : ℤ → ℕ → ℕ
or_default (pos (suc n)) d = suc n
or_default (pos zero) d = d
or_default (negsuc n) d = d

abbrev executed :
    Key → World → Option String → Option DebounceRow × Bool → World × Result String Bool
executed key w none (row, returned) =
    (record w { table = set_row key row w.table; statements = suc w.statements }, ok returned)
executed key w (some e) (row, returned) = (record w { statements = suc w.statements }, err e)

-- One statement, at the database's time.
unfoldable pub execute : Outside → Key → (ℕ → Statement) → World → World × Result String Bool
execute x key statement w =
    executed key w (x.fault w.statements) (statement (x.time w.statements) (w.table key))

abbrev pub call_send : String → Message → Key → Option String → World → World
call_send sink message key none w = record w {
  sent = record { sink = sink; message = message; key = key; delivered = true } ∷ w.sent;
}
call_send sink message key (some e) w = record w {
  sent = record { sink = sink; message = message; key = key; delivered = false } ∷ w.sent;
}

abbrev pub confirmed : Key → World × Result String Bool → World × Outcome
confirmed key (w, ok _) = (w, sent)
confirmed key (w, err e) = (w, failed (confirm_failed key e))

-- after Send: the confirmation, or the release of the claim, whose own failure is dropped
abbrev pub after_send : Outside → Key → Option String → World → World × Outcome
after_send x key none w = confirmed key (execute x key confirm_row w)
after_send x key (some e) w = ((execute x key (λ now. release_row) w).0, failed (send_failed key e))

abbrev pub after_claim :
    Outside → String → Message → Key → World × Result String Bool → World × Outcome
after_claim x sink message key (w, err e) = (w, failed (claim_failed key e))
after_claim x sink message key (w, ok false) = (w, debounced)
after_claim x sink message key (w, ok true) =
    let fault = x.send_fault w.statements in
    after_send x key fault (call_send sink message key fault w)

unfoldable pub maybe_notify : Outside → ℕ → ℕ → String → Message → Key → World → World × Outcome
unfolding execute
maybe_notify x interval ttl sink message key w =
    after_claim x sink message key (execute x key (claim_row interval ttl) w)
