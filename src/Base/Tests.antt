-- ===== src/Base/Tests.antt =====
-- Boolean tests on native numbers and the conditional, with the lemmas that read them.
use Prim.Native.Nat.{ℕ, ◌<◌, compare, Ordering}
use mathlib.Core.Path.{◌≡◌, refl, sym}
use mathlib.Core.Logic.{◌↔◌, ◌⊎◌, inl, inr}
use mathlib.Core.Bool.{Bool, true, false, not, ◌&&◌, ◌||◌}
use mathlib.Core.Option.{Option, none, some}
use native.Mathlib.Omega.{arith}

abbrev pub ltb : ℕ → ℕ → Bool
ltb a b = elim (compare a b) [ Ordering.lt ↦ true | _ ↦ false ]

abbrev pub leb : ℕ → ℕ → Bool
leb a b = elim (compare a b) [ Ordering.gt ↦ false | _ ↦ true ]

abbrev pub nat_eq : ℕ → ℕ → Bool
nat_eq a b = elim (compare a b) [ Ordering.eq ↦ true | _ ↦ false ]

infix 1 if◌then◌else◌
abbrev pub if◌then◌else◌ {ℓ} : {A : Type ℓ} → Bool → A → A → A
if true then x else y = x
if false then x else y = y

pub ltb→lt : (a b : ℕ) → ltb a b ≡ true → a < b
ltb→lt a b h = ground arith

pub lt→ltb : (a b : ℕ) → a < b → ltb a b ≡ true
lt→ltb a b h = ground arith

pub Bool-cases : (b : Bool) → (b ≡ true) ⊎ (b ≡ false)
Bool-cases true = inl refl
Bool-cases false = inr refl

pub and-eq-true_iff : (a b : Bool) → ((a && b) ≡ true) ↔ ((a ≡ true) × (b ≡ true))
and-eq-true_iff a b = ground arith

-- Two Boolean tests agree if each implies the other.
pub Bool-ext : (a b : Bool) → (a ≡ true → b ≡ true) → (b ≡ true → a ≡ true) → a ≡ b
Bool-ext true true f g = refl
Bool-ext true false f g = sym (f refl)
Bool-ext false true f g = g refl
Bool-ext false false f g = refl

abbrev pub is_some {ℓ} : {A : Type ℓ} → Option A → Bool
is_some none = false
is_some (some a) = true

-- A test that decides a statement fails exactly if the statement does not hold.
pub eq-false_iff {ℓ} : {P : Type ℓ} (b : Bool) → (b ≡ true) ↔ P → (b ≡ false) ↔ (¬ P)
eq-false_iff true h = (λ e. absurd (cc), λ k. absurd (k (h.0 refl)))
eq-false_iff false h = (λ e p. absurd (let q : false ≡ true = h.1 p in cc), λ k. refl)

pub iff_trans {ℓ κ μ} : {P : Type ℓ} {Q : Type κ} {R : Type μ} → P ↔ Q → Q ↔ R → P ↔ R
iff_trans f g = (λ p. g.0 (f.0 p), λ r. f.1 (g.1 r))

pub both_iff {ℓ κ μ ν} :
    {P : Type ℓ} {Q : Type κ} {R : Type μ} {S : Type ν} → P ↔ R → Q ↔ S → (P × Q) ↔ (R × S)
both_iff f g = (λ h. (f.0 h.0, g.0 h.1), λ h. (f.1 h.0, g.1 h.1))

pub Option-cases {ℓ} : {A : Type ℓ} (o : Option A) → (o ≡ none) ⊎ ((a : A) × (o ≡ some a))
Option-cases none = inl refl
Option-cases (some a) = inr (a, refl)

-- What a loop has after its first round, regrouped as what it had before and what it goes over.
pub or_regroup {ℓ} : {A B C D E F : Type ℓ} → A ↔ (B ⊎ C) → B ↔ (D ⊎ E) → F ↔ (E ⊎ C) → A ↔ (D ⊎ F)
or_regroup f g h = (
  λ a. elim (f.0 a) [
    | inl b ↦ elim (g.0 b) [ inl d ↦ inl d | inr e ↦ inr (h.1 (inl e)) ]
    | inr c ↦ inr (h.1 (inr c))
  ],
  λ s. f.1 (elim s [
    | inl d ↦ inl (g.1 (inl d))
    | inr x ↦ elim (h.0 x) [ inl e ↦ inl (g.1 (inr e)) | inr c ↦ inr c ]
  ]),
)

pub iff_refl {ℓ} : (P : Type ℓ) → P ↔ P
iff_refl P = (λ p. p, λ p. p)

pub or_iff {ℓ κ μ ν} :
    {P : Type ℓ} {Q : Type κ} {R : Type μ} {S : Type ν} → P ↔ R → Q ↔ S → (P ⊎ Q) ↔ (R ⊎ S)
or_iff f g = (
  λ h. elim h [ inl p ↦ inl (f.0 p) | inr q ↦ inr (g.0 q) ],
  λ h. elim h [ inl r ↦ inl (f.1 r) | inr s ↦ inr (g.1 s) ],
)

pub nat_eq_iff : (a b : ℕ) → (nat_eq a b ≡ true) ↔ (a ≡ b)
nat_eq_iff a b = ground arith

pub not-not_iff {ℓ} : {P : Type ℓ} (b : Bool) → (b ≡ true) ↔ P → (not b ≡ false) ↔ P
not-not_iff true f = (λ _. f.0 refl, λ _. refl)
not-not_iff false f = (λ h. absurd (cc), λ p. absurd (let q : false ≡ true = f.1 p in cc))

-- Not both tests fail.
pub nand-not_iff {ℓ κ} :
    {P : Type ℓ} {Q : Type κ} (a b : Bool)
    → (a ≡ true) ↔ P
    → (b ≡ true) ↔ Q
    → ((not a && not b) ≡ false) ↔ (P ⊎ Q)
nand-not_iff true b f g = (λ _. inl (f.0 refl), λ _. refl)
nand-not_iff false b f g = (
  λ h. inr ((not-not_iff b g).0 h),
  λ h. elim h [
    | inl p ↦ absurd (let q : false ≡ true = f.1 p in cc)
    | inr q ↦ (not-not_iff b g).1 q
  ],
)

pub or-true_iff {ℓ κ} :
    {P : Type ℓ} {Q : Type κ} (a b : Bool)
    → (a ≡ true) ↔ P
    → (b ≡ true) ↔ Q
    → ((a || b) ≡ true) ↔ (P ⊎ Q)
or-true_iff true b f g = (λ _. inl (f.0 refl), λ _. refl)
or-true_iff false b f g = (
  λ h. inr (g.0 h),
  λ h. elim h [ inl p ↦ absurd (let q : false ≡ true = f.1 p in cc) | inr q ↦ g.1 q ],
)

-- The first test passes only where the second fails.
pub nand_iff {ℓ κ} :
    {P : Type ℓ} {Q : Type κ} (a b : Bool)
    → (a ≡ true) ↔ P
    → (b ≡ true) ↔ Q
    → ((a && b) ≡ false) ↔ (P → ¬ Q)
nand_iff true b f g = let h = eq-false_iff b g in (λ e _. h.0 e, λ k. h.1 (k (f.0 refl)))
nand_iff false b f g = (λ _ p. absurd (let q : false ≡ true = f.1 p in cc), λ _. refl)

pub not-true_iff {ℓ} : {P : Type ℓ} (b : Bool) → (b ≡ true) ↔ P → (not b ≡ true) ↔ (¬ P)
not-true_iff true f = (λ h. absurd (cc), λ k. absurd (k (f.0 refl)))
not-true_iff false f = (λ _ p. absurd (let q : false ≡ true = f.1 p in cc), λ _. refl)

pub is_some-false {ℓ} : {A : Type ℓ} (o : Option A) → (is_some o ≡ false) ↔ (o ≡ none)
is_some-false none = (λ _. refl, λ _. refl)
is_some-false (some a) = (λ h. absurd (cc), λ h. absurd (cc))

-- What holds of both branches holds of the conditional.
pub if_cases {ℓ κ} :
    {A : Type ℓ} (P : A → Type κ) (b : Bool) (u v : A) → P u → P v → P (if b then u else v)
if_cases P true u v p q = p
if_cases P false u v p q = q
