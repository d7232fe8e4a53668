-- ===== src/Base/Sets.antt =====
-- Sets of texts as lists, the loops that look for a repeated entry, and those that drop repeats.
use Prim.Native.String.{String}
use mathlib.Core.Path.{◌≡◌, refl, sym, subst}
use mathlib.Core.Logic.{◌↔◌, ◌⊎◌, inl, inr}
use mathlib.Core.Bool.{Bool, true, false, ◌||◌}
use mathlib.Core.List.{List, [], ◌∷◌, ◌++◌, Memᴰ}
use native.Mathlib.Omega.{arith}
use text.Mathlib.TextEquality.{eq_iff}
use run_cd.Base.Tests.{if◌then◌else◌, Bool-cases, eq-false_iff}
use run_cd.Base.Texts.{◌==◌}
use run_cd.Base.Lists.{any, any-intro, any-elim}

unfoldable pub contains : List String → String → Bool
contains xs k = any (λ x. x == k) xs

pub contains_iff : (xs : List String) (k : String) → (contains xs k ≡ true) ↔ Memᴰ k xs
unfolding contains
contains_iff xs k = (
  λ h. let (x, m, e) = any-elim (λ x. x == k) xs h in subst (λ y. Memᴰ y xs) ((eq_iff x k).0 e) m,
  λ m. any-intro (λ x. x == k) xs k m ((eq_iff k k).1 refl),
)

pub not-contains_iff : (xs : List String) (k : String) → (contains xs k ≡ false) ↔ (¬ (Memᴰ k xs))
not-contains_iff xs k = eq-false_iff (contains xs k) (contains_iff xs k)

pub contains-cons :
    (x : String) (xs : List String) (k : String) → contains (x ∷ xs) k ≡ ((x == k) || contains xs k)
unfolding contains
contains-cons x xs k = refl

-- No entry occurs twice.
abbrev pub Unique : List String → Type 0
Unique [] = Unit
Unique (k ∷ ks) = (¬ (Memᴰ k ks)) × Unique ks

-- A loop that marks each entry as seen and stops at one that it has seen.
unfoldable pub fresh : List String → List String → Bool
fresh seen [] = true
fresh seen (k ∷ ks) = let rest = fresh (k ∷ seen) ks in if contains seen k then false else rest

-- The entries that such a loop has seen at its end.
unfoldable pub marked : List String → List String → List String
marked seen [] = seen
marked seen (k ∷ ks) = marked (k ∷ seen) ks

abbrev pub Apart : List String → List String → Type 0
Apart seen [] = Unit
Apart seen (k ∷ ks) = (contains seen k ≡ false) × Apart seen ks

not-mem-cons : (x k : String) (ks : List String) → ¬ (x ≡ k) → ¬ (Memᴰ x ks) → ¬ (Memᴰ x (k ∷ ks))
not-mem-cons x k ks d a (Memᴰ.head e) = d e
not-mem-cons x k ks d a (Memᴰ.tail m) = a m

contains-cons_false :
    (x : String) (xs : List String) (k : String)
    → (contains (x ∷ xs) k ≡ false) ↔ ((¬ (x ≡ k)) × (contains xs k ≡ false))
contains-cons_false x xs k =
    let differ = eq-false_iff (x == k) (eq_iff x k) in
    rw (contains-cons x xs k)
      (λ h. (differ.0 (ground arith), ground arith), λ h. rw (differ.1 h.0) h.1)

Apart-cons :
    (x : String) (seen ks : List String) → Apart (x ∷ seen) ks ↔ ((¬ (Memᴰ x ks)) × Apart seen ks)
Apart-cons x seen [] = (λ _. (λ m. elim m [ ], tt), λ _. tt)
Apart-cons x seen (k ∷ ks) =
    let ih = Apart-cons x seen ks in
    let first = contains-cons_false x seen k in
    (
      λ h.
          let (differ, old) = first.0 h.0 in
          let (absent, rest) = ih.0 h.1 in (not-mem-cons x k ks differ absent, (old, rest)),
      λ h. (first.1 ((λ e. h.0 (Memᴰ.head e)), h.1.0), ih.1 ((λ m. h.0 (Memᴰ.tail m)), h.1.1)),
    )

pub fresh_iff : (seen ks : List String) → (fresh seen ks ≡ true) ↔ (Unique ks × Apart seen ks)
unfolding fresh
fresh_iff seen [] = (λ _. (tt, tt), λ _. refl)
fresh_iff seen (k ∷ ks) =
    let ih = fresh_iff (k ∷ seen) ks in
    let apart = Apart-cons k seen ks in
    (
      λ h.
          let later : fresh (k ∷ seen) ks ≡ true = ground arith in
          let (unique, rest) = ih.0 later in
          let (absent, others) = apart.0 rest in ((absent, unique), (ground arith, others)),
      λ h. rw h.1.0 (ih.1 (h.0.1, apart.1 (h.0.0, h.1.1))),
    )

Apart-nil : (ks : List String) → Apart [] ks
unfolding contains
Apart-nil [] = tt
Apart-nil (k ∷ ks) = (refl, Apart-nil ks)

pub fresh-Unique : (ks : List String) → (fresh [] ks ≡ true) ↔ Unique ks
fresh-Unique ks = (λ h. ((fresh_iff [] ks).0 h).0, λ u. (fresh_iff [] ks).1 (u, Apart-nil ks))

pub fresh-append :
    (seen ks ls : List String)
    → (fresh seen (ks ++ ls) ≡ true) ↔ ((fresh seen ks ≡ true) × (fresh (marked seen ks) ls ≡ true))
unfolding fresh marked
fresh-append seen [] ls = (λ h. (refl, h), λ h. h.1)
fresh-append seen (k ∷ ks) ls =
    let ih = fresh-append (k ∷ seen) ks ls in
    elim (Bool-cases (contains seen k)) [
      | inl old ↦ rw old (λ h. absurd (cc), λ h. absurd (cc))
      | inr new ↦ rw new ih
    ]

pub marked-append : (seen ks ls : List String) → marked seen (ks ++ ls) ≡ marked (marked seen ks) ls
unfolding marked
marked-append seen [] ls = refl
marked-append seen (k ∷ ks) ls = marked-append (k ∷ seen) ks ls

mem_single : {x k : String} → Memᴰ k (x ∷ []) → Memᴰ k [] ⊎ (k ≡ x)
mem_single (Memᴰ.head e) = inr e
mem_single (Memᴰ.tail r) = elim r [ ]

mem-snoc_to :
    (y : String) (ys : List String) (x k : String)
    → (Memᴰ k (ys ++ x ∷ []) → Memᴰ k ys ⊎ (k ≡ x))
    → Memᴰ k (y ∷ (ys ++ x ∷ []))
    → Memᴰ k (y ∷ ys) ⊎ (k ≡ x)
mem-snoc_to y ys x k ih (Memᴰ.head e) = inl (Memᴰ.head e)
mem-snoc_to y ys x k ih (Memᴰ.tail m) = elim (ih m) [ inl r ↦ inl (Memᴰ.tail r) | inr e ↦ inr e ]

mem-snoc_from :
    (y : String) (ys : List String) (x k : String)
    → (Memᴰ k ys ⊎ (k ≡ x) → Memᴰ k (ys ++ x ∷ []))
    → Memᴰ k (y ∷ ys) ⊎ (k ≡ x)
    → Memᴰ k (y ∷ (ys ++ x ∷ []))
mem-snoc_from y ys x k ih (inl (Memᴰ.head e)) = Memᴰ.head e
mem-snoc_from y ys x k ih (inl (Memᴰ.tail m)) = Memᴰ.tail (ih (inl m))
mem-snoc_from y ys x k ih (inr e) = Memᴰ.tail (ih (inr e))

pub mem-snoc : (xs : List String) (x k : String) → Memᴰ k (xs ++ x ∷ []) ↔ (Memᴰ k xs ⊎ (k ≡ x))
mem-snoc [] x k = (λ m. mem_single m, λ h. elim h [ inl m ↦ elim m [ ] | inr e ↦ Memᴰ.head e ])
mem-snoc (y ∷ ys) x k =
    let ih = mem-snoc ys x k in
    (λ m. mem-snoc_to y ys x k ih.0 m, λ h. mem-snoc_from y ys x k ih.1 h)

pub Unique-snoc :
    (xs : List String) (x : String) → Unique xs → ¬ (Memᴰ x xs) → Unique (xs ++ x ∷ [])
Unique-snoc [] x u d = ((λ m. elim m [ ]), tt)
Unique-snoc (y ∷ ys) x u d = (
  λ m. elim ((mem-snoc ys x y).0 m) [ inl r ↦ u.0 r | inr e ↦ d (Memᴰ.head (sym e)) ],
  Unique-snoc ys x u.1 (λ m. d (Memᴰ.tail m)),
)
