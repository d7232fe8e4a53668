-- ===== src/Base/Results.antt =====
-- Go's results: a value with an error, and a lone error whose nil is `none`.
use mathlib.Core.Path.{◌≡◌, refl}
use mathlib.Core.Logic.{◌↔◌, ◌⊎◌, inl, inr}
use mathlib.Core.Option.{Option, none, some}
use mathlib.Core.List.{List, [], ◌∷◌}
use mathlib.Core.Bool.{Bool, true, false}
use run_cd.Base.Tests.{is_some, if◌then◌else◌, iff_trans, both_iff}
use run_cd.Base.Lists.{All, All-iff}

pub data Result {ℓ κ} (E : Type ℓ) (A : Type κ) : Type (ℓ ⊔ κ) where
  ok : A → Result E A
  err : E → Result E A

-- `if err := a; err != nil { return err }; return b`
infixr 5 ◌then_check◌
abbrev pub ◌then_check◌ {ℓ} : {E : Type ℓ} → Option E → Option E → Option E
none then_check b = b
some e then_check b = some e

-- `for _, x := range xs { if err := check(x); err != nil { return err } }`
abbrev pub first_error {ℓ κ} : {A : Type ℓ} {E : Type κ} → (A → Option E) → List A → Option E
first_error check [] = none
first_error check (x ∷ xs) = check x then_check first_error check xs

pub then_check_iff {ℓ} :
    {E : Type ℓ} (a b : Option E) → ((a then_check b) ≡ none) ↔ ((a ≡ none) × (b ≡ none))
then_check_iff none b = (λ h. (refl, h), λ h. h.1)
then_check_iff (some e) b = (λ h. absurd (cc), λ h. h.0)

pub first_error_iff {ℓ κ} :
    {A : Type ℓ} {E : Type κ} (check : A → Option E) (xs : List A)
    → (first_error check xs ≡ none) ↔ All (λ x. check x ≡ none) xs
first_error_iff check [] = (λ _. tt, λ _. refl)
first_error_iff check (x ∷ xs) =
    let both = then_check_iff (check x) (first_error check xs) in
    let rest = first_error_iff check xs in
    (λ h. ((both.0 h).0, rest.0 (both.0 h).1), λ h. both.1 (h.0, rest.1 h.1))

-- Such a loop finds no error exactly if the check's meaning holds of every entry.
pub first_error-All {ℓ κ μ} :
    {A : Type ℓ} {E : Type κ} (check : A → Option E) (P : A → Type μ) (xs : List A)
    → ((x : A) → (check x ≡ none) ↔ P x)
    → (first_error check xs ≡ none) ↔ All P xs
first_error-All check P xs f =
    iff_trans (first_error_iff check xs) (All-iff (λ x. check x ≡ none) P xs f)

pub test_error_iff {ℓ κ} :
    {E : Type ℓ} {P : Type κ} (b : Bool) (e : E)
    → (b ≡ true) ↔ P
    → ((if b then none else some e) ≡ none) ↔ P
test_error_iff true e h = (λ _. h.0 refl, λ _. refl)
test_error_iff false e h = (λ k. absurd (cc), λ p. absurd (let q : false ≡ true = h.1 p in cc))

pub is_some_error_iff {ℓ κ} :
    {E : Type ℓ} {A : Type κ} (o : Option A) (e : E)
    → ((if is_some o then some e else none) ≡ none) ↔ (o ≡ none)
is_some_error_iff none e = (λ _. refl, λ _. refl)
is_some_error_iff (some a) e = (λ h. absurd (cc), λ h. absurd (cc))

pub Result-cases {ℓ κ} :
    {E : Type ℓ} {A : Type κ} (r : Result E A) → ((a : A) × (r ≡ ok a)) ⊎ ((e : E) × (r ≡ err e))
Result-cases (ok a) = inl (a, refl)
Result-cases (err e) = inr (e, refl)

-- `if b { return e }`
abbrev pub reject {ℓ} : {E : Type ℓ} → Bool → E → Option E
reject true e = some e
reject false e = none

pub reject_iff {ℓ κ} :
    {E : Type ℓ} {P : Type κ} (b : Bool) (e : E) → (b ≡ false) ↔ P → (reject b e ≡ none) ↔ P
reject_iff true e h = (λ k. absurd (cc), λ p. absurd (let q : true ≡ false = h.1 p in cc))
reject_iff false e h = (λ _. h.0 refl, λ _. refl)

-- One check after another, with the meaning of each.
pub chain_iff {ℓ κ μ} :
    {E : Type ℓ} {P : Type κ} {Q : Type μ} (a b : Option E)
    → (a ≡ none) ↔ P
    → (b ≡ none) ↔ Q
    → ((a then_check b) ≡ none) ↔ (P × Q)
chain_iff a b f g = iff_trans (then_check_iff a b) (both_iff f g)
