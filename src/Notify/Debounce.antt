-- ===== src/Notify/Debounce.antt =====
-- internal/notify/notify.go: when a message of a key may be claimed again, over any history of the
-- statements on its row, by any replicas.
pub mod Spaced
pub mod Expiring
pub mod Exclusive
use run_cd.Base.{
  ℕ, suc, ◌+◌, ◌≤◌, ◌<◌, ◌≡◌, ◌≢◌, ◌⊎◌, inl, inr, refl, Bool, true, false, Option, none, some, List,
  [], ◌∷◌, All, arith, ltb, ◌&&◌, Bool-cases, if◌then◌else◌,
}
use run_cd.Notify.{
  DebounceRow, Statement, is_free, claimed_until, claim_row, confirm_row, release_row,
  claim_recovery_row, clear_row,
}

-- The statements on one row, by whoever runs them.
pub data Act : Type 0 where
  claim confirm release claim_recovery clear : Act

-- The acts that claim a row, for a message or for a recovery.
abbrev pub IsClaim : Act → Type 0
IsClaim a = (a ≡ claim) ⊎ (a ≡ claim_recovery)

pub record Event : Type 0 where
  pub act : Act
  pub now : ℕ

unfoldable pub statement_of : ℕ → ℕ → Act → ℕ → Statement
unfolding claim_row confirm_row release_row claim_recovery_row clear_row
statement_of interval ttl claim now = claim_row interval ttl now
statement_of interval ttl confirm now = confirm_row now
statement_of interval ttl release now = release_row
statement_of interval ttl claim_recovery now = claim_recovery_row ttl now
statement_of interval ttl clear now = clear_row

-- The statements of a history that find a row to change. Such a claim lets its claimant send.
unfoldable pub grants : ℕ → ℕ → Option DebounceRow → List Event → List Event
unfolding statement_of
grants interval ttl row [] = []
grants interval ttl row (e ∷ rest) =
    let (row', returned) = statement_of interval ttl e.act e.now row in
    let later = grants interval ttl row' rest in if returned then e ∷ later else later

-- The database's clock never goes back.
abbrev pub Ordered : ℕ → List Event → Type 0
Ordered from [] = Unit
Ordered from (e ∷ rest) = (from ≤ e.now) × Ordered e.now rest

abbrev pub claim_if : Bool → ℕ → DebounceRow → Option DebounceRow × Bool
claim_if b expires row = if b then (some (claimed_until expires row), true) else (some row, false)

-- A statement with a test changes a row only if the test passes.
pub claim_if-granted {ℓ} :
    {P : Type ℓ} (b : Bool) (expires : ℕ) (row : DebounceRow)
    → (b ≡ true → P)
    → (claim_if b expires row).1 ≡ true
    → P
claim_if-granted true expires row f h = f refl
claim_if-granted false expires row f h = absurd (cc)
