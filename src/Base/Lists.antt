-- ===== src/Base/Lists.antt =====
-- Loops over lists: a search for one entry, the first error of a loop, membership.
use Prim.Native.Nat.{ℕ, suc}
use mathlib.Core.Path.{◌≡◌, refl}
use mathlib.Core.Logic.{◌↔◌, inl, inr}
use mathlib.Core.Bool.{Bool, true, false, ◌||◌}
use mathlib.Core.List.{List, [], ◌∷◌, ◌++◌, Memᴰ}
use native.Mathlib.Omega.{arith}
use run_cd.Base.Tests.{if◌then◌else◌, Bool-cases}

-- A predicate that holds of every entry.
abbrev pub All {ℓ κ} : {A : Type ℓ} → (A → Type κ) → List A → Type κ
All P [] = Unit
All P (x ∷ xs) = P x × All P xs

module _ {ℓ} {A : Type ℓ} where
  abbrev pub length : List A → ℕ
  length [] = 0
  length (x ∷ xs) = suc (length xs)

  -- A loop that returns true at the first entry that passes.
  abbrev pub any : (A → Bool) → List A → Bool
  any p [] = false
  any p (x ∷ xs) = p x || any p xs

  abbrev pub filter : (A → Bool) → List A → List A
  filter p [] = []
  filter p (x ∷ xs) = let rest = filter p xs in if p x then x ∷ rest else rest

  pub any-intro : (p : A → Bool) (xs : List A) (x : A) → Memᴰ x xs → p x ≡ true → any p xs ≡ true
  any-intro p [] x m h = elim m [ ]
  any-intro p (y ∷ ys) x (Memᴰ.head e) h = rw (← e) (ground arith)
  any-intro p (y ∷ ys) x (Memᴰ.tail m) h = ground (arith, any-intro p ys x m h)

  pub any-elim : (p : A → Bool) (xs : List A) → any p xs ≡ true → (x : A) × Memᴰ x xs × (p x ≡ true)
  any-elim p [] h = absurd (cc)
  any-elim p (x ∷ xs) h = elim (Bool-cases (p x)) [
    | inl passes ↦ (x, Memᴰ.head refl, passes)
    | inr fails ↦ let (y, m, e) = any-elim p xs (ground arith) in (y, Memᴰ.tail m, e)
  ]

  pub All-intro {κ} : (P : A → Type κ) (xs : List A) → ((x : A) → P x) → All P xs
  All-intro P [] f = tt
  All-intro P (x ∷ xs) f = (f x, All-intro P xs f)

  pub All-lookup {κ} : (P : A → Type κ) (xs : List A) (x : A) → All P xs → Memᴰ x xs → P x
  All-lookup P [] x h m = elim m [ ]
  All-lookup P (y ∷ ys) x h (Memᴰ.head e) = rw e h.0
  All-lookup P (y ∷ ys) x h (Memᴰ.tail m) = All-lookup P ys x h.1 m

pub All-append {ℓ κ} :
    {A : Type ℓ} (P : A → Type κ) (xs ys : List A) → All P (xs ++ ys) ↔ (All P xs × All P ys)
All-append P [] ys = (λ h. (tt, h), λ h. h.1)
All-append P (x ∷ xs) ys =
    let ih = All-append P xs ys in
    (λ h. let (a, b) = ih.0 h.1 in ((h.0, a), b), λ h. (h.0.0, ih.1 (h.0.1, h.1)))

pub All-iff {ℓ κ μ} :
    {A : Type ℓ} (P : A → Type κ) (Q : A → Type μ) (xs : List A)
    → ((x : A) → P x ↔ Q x)
    → All P xs ↔ All Q xs
All-iff P Q [] f = (λ _. tt, λ _. tt)
All-iff P Q (x ∷ xs) f =
    let ih = All-iff P Q xs f in (λ h. ((f x).0 h.0, ih.0 h.1), λ h. ((f x).1 h.0, ih.1 h.1))
