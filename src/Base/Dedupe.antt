-- ===== src/Base/Dedupe.antt =====
-- Loops that keep the first of repeated entries, `if !seen[k] { seen[k] = true; out = append(out, k) }`.
-- `seen` and `out` hold the same entries, so that one list stands for both.
use Prim.Native.String.{String}
use mathlib.Core.Path.{◌≡◌, sym, subst}
use mathlib.Core.Logic.{◌↔◌, ◌⊎◌, inl, inr}
use mathlib.Core.List.{List, [], ◌∷◌, ◌++◌, Memᴰ}
use run_cd.Base.Tests.{if◌then◌else◌, Bool-cases, or_regroup}
use run_cd.Base.Sets.{contains, contains_iff, not-contains_iff, Unique, mem-snoc, Unique-snoc}

unfoldable pub add_new : List String → String → List String
add_new ids id = if contains ids id then ids else ids ++ id ∷ []

unfoldable pub add_all : List String → List String → List String
unfolding add_new
add_all ids [] = ids
add_all ids (x ∷ xs) = add_all (add_new ids x) xs

pub Unique-add_new : (ids : List String) (id : String) → Unique ids → Unique (add_new ids id)
unfolding add_new
Unique-add_new ids id u = elim (Bool-cases (contains ids id)) [
  | inl old ↦ rw old u
  | inr new ↦ rw new (Unique-snoc ids id u ((not-contains_iff ids id).0 new))
]

pub mem-add_new :
    (ids : List String) (id k : String) → Memᴰ k (add_new ids id) ↔ (Memᴰ k ids ⊎ (k ≡ id))
unfolding add_new
mem-add_new ids id k = elim (Bool-cases (contains ids id)) [
  | inl old ↦ rw old (
    λ m. inl m,
    λ h. elim h [
      | inl m ↦ m
      | inr e ↦ subst (λ (j : String). Memᴰ j ids) (sym e) ((contains_iff ids id).0 old)
    ],
  )
  | inr new ↦ rw new (mem-snoc ids id k)
]

pub Unique-add_all : (ids xs : List String) → Unique ids → Unique (add_all ids xs)
unfolding add_all
Unique-add_all ids [] u = u
Unique-add_all ids (x ∷ xs) u = Unique-add_all (add_new ids x) xs (Unique-add_new ids x u)

pub mem-cons_iff {ℓ} :
    {A : Type ℓ} (k x : A) (xs : List A) → Memᴰ k (x ∷ xs) ↔ ((k ≡ x) ⊎ Memᴰ k xs)
mem-cons_iff k x xs = (mem_to, λ h. elim h [ inl e ↦ Memᴰ.head e | inr m ↦ Memᴰ.tail m ])
  where
    mem_to : Memᴰ k (x ∷ xs) → (k ≡ x) ⊎ Memᴰ k xs
    mem_to (Memᴰ.head e) = inl e
    mem_to (Memᴰ.tail m) = inr m

pub mem-add_all :
    (ids xs : List String) (k : String) → Memᴰ k (add_all ids xs) ↔ (Memᴰ k ids ⊎ Memᴰ k xs)
unfolding add_all
mem-add_all ids [] k = (λ m. inl m, λ h. elim h [ inl m ↦ m | inr m ↦ elim m [ ] ])
mem-add_all ids (x ∷ xs) k =
    or_regroup (mem-add_all (add_new ids x) xs k) (mem-add_new ids x k) (mem-cons_iff k x xs)
