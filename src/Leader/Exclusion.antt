-- ===== src/Leader/Exclusion.antt =====
-- No replica becomes leader while the lease of another one lasts.
use run_cd.Base.{
  ℕ, ◌+◌, ◌≤◌, ◌<◌, String, ◌==◌, ◌≡◌, ◌⊎◌, inl, inr, refl, Bool, true, false, Option, none, some,
  List, [], ◌∷◌, All, Result, sym, ◌∙◌, ◌||◌, if◌then◌else◌, Bool-cases, eq_iff, ltb, arith, ok,
}
use run_cd.Leader.{LeaseRow, ttl, claimed, claim_row, claim, Attempt, won, wins}

-- The database's clock never goes back.
abbrev pub Ordered : ℕ → List Attempt → Type 0
Ordered from [] = Unit
Ordered from (a ∷ rest) = (from ≤ a.now) × Ordered a.now rest

-- The lease that was taken for the holder at the time still stands, or has run out.
abbrev Guards : String → ℕ → LeaseRow → ℕ → Type 0
Guards holder start row now =
    (start ≤ now)
    × (((row.holder_id ≡ holder) × (start + ttl ≤ row.expires_at)) ⊎ (start + ttl < now))

-- The win is the holder's own, or comes after the lease.
abbrev pub Respects : String → ℕ → Attempt → Type 0
Respects holder start a = (a.holder ≡ holder) ⊎ (start + ttl < a.now)

Guards-later :
    (holder : String) (start : ℕ) (row : LeaseRow) (now later : ℕ)
    → now ≤ later
    → Guards holder start row now
    → Guards holder start row later
Guards-later holder start row now later h (s, inl stands) = (omega arith, inl stands)
Guards-later holder start row now later h (s, inr over) = (omega arith, inr (omega arith))

ltb_lem : (a b : ℕ) → ltb a b ≡ true → a < b
ltb_lem a b h = ground arith

-- What one claim keeps and, if it is won, respects.
abbrev Keeps : String → ℕ → Attempt → LeaseRow × Result String Bool → Type 0
Keeps holder start a (row, r) =
    (won r ≡ true → Respects holder start a) × Guards holder start row a.now

taken_Keeps :
    (holder : String) (start : ℕ) (row : LeaseRow) (a : Attempt)
    → Guards holder start row a.now
    → (row.holder_id ≡ a.holder) ⊎ (row.expires_at < a.now)
    → Keeps holder start a (record { holder_id = a.holder; expires_at = a.now + ttl }, ok true)
taken_Keeps holder start row a (s, inr over) t = (λ w. inr over, (s, inr over))
taken_Keeps holder start row a (s, inl (held, stands)) (inl renews) =
    let own : a.holder ≡ holder = sym renews ∙ held in (λ w. inl own, (s, inl (own, omega arith)))
taken_Keeps holder start row a (s, inl (held, stands)) (inr expired) =
    let over : start + ttl < a.now = omega arith in (λ w. inr over, (s, inr over))

claimed-Keeps :
    (holder : String) (start : ℕ) (row : LeaseRow) (a : Attempt) (o : Option String) (b : Bool)
    → Guards holder start row a.now
    → (b ≡ true → (row.holder_id ≡ a.holder) ⊎ (row.expires_at < a.now))
    → Keeps holder start a (
        claimed row o
          (if b then (record { holder_id = a.holder; expires_at = a.now + ttl }, 1) else (row, 0)))
claimed-Keeps holder start row a (some e) true g f = (λ w. absurd (cc), g)
claimed-Keeps holder start row a (some e) false g f = (λ w. absurd (cc), g)
claimed-Keeps holder start row a none true g f = taken_Keeps holder start row a g (f refl)
claimed-Keeps holder start row a none false g f = (λ w. absurd (cc), g)

-- The test of the UPDATE passes for the holder's own row, or an expired one.
test_passes :
    (row : LeaseRow) (a : Attempt)
    → ((row.holder_id == a.holder) || ltb row.expires_at a.now) ≡ true
    → (row.holder_id ≡ a.holder) ⊎ (row.expires_at < a.now)
test_passes row a h = elim (Bool-cases (row.holder_id == a.holder)) [
  | inl own ↦ inl ((eq_iff row.holder_id a.holder).0 own)
  | inr other ↦ inr (
      ltb_lem row.expires_at a.now
        (let q : (false || ltb row.expires_at a.now) ≡ true = rw other at h in q))
]

wins-Respects :
    (holder : String) (start : ℕ) (history : List Attempt) (row : LeaseRow) (now : ℕ)
    → Ordered now history
    → Guards holder start row now
    → All (Respects holder start) (wins row history)
unfolding wins claim claim_row
wins-Respects holder start [] row now o g = tt
wins-Respects holder start (a ∷ rest) row now o g =
    let (respects, guards) =
      claimed-Keeps holder start row a a.fault _ (Guards-later holder start row now a.now o.0 g)
        (test_passes row a) in
    let later =
      wins-Respects holder start rest (claim a.holder a.now a.fault row).0 a.now o.1 guards in
    elim (Bool-cases (won (claim a.holder a.now a.fault row).1)) [
      | inl leads ↦ rw leads (respects leads, later)
      | inr not_leading ↦ rw not_leading later
    ]

-- If a replica becomes leader by a claim, then in any history of claims from then on, by any
-- replicas, some of which fail, and at times that never go back, each claim that makes its
-- replica leader is that replica's own or comes more than 30 seconds after the first claim.
pub claim-Respects :
    (holder : String) (start : ℕ) (fault : Option String) (row : LeaseRow) (history : List Attempt)
    → won (claim holder start fault row).1 ≡ true
    → Ordered start history
    → All (Respects holder start) (wins (claim holder start fault row).0 history)
unfolding claim claim_row
claim-Respects holder start fault row history h o =
    wins-Respects holder start history _ start o
      (taken fault ((row.holder_id == holder) || ltb row.expires_at start) h)
  where
    taken :
        (f : Option String) (b : Bool)
        → won
            (claimed row f (
              if b
              then (record { holder_id = holder; expires_at = start + ttl }, 1)
              else (row, 0))).1
          ≡ true
        → Guards holder start
            (claimed row f (
              if b
              then (record { holder_id = holder; expires_at = start + ttl }, 1)
              else (row, 0))).0
            start
    taken (some e) true k = absurd (cc)
    taken (some e) false k = absurd (cc)
    taken none true k = (omega arith, inl (refl, omega arith))
    taken none false k = absurd (cc)
