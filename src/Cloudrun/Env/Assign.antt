-- ===== src/Cloudrun/Env/Assign.antt =====
-- Maps that are written entry by entry, and maps with the same entries.
use run_cd.Base.{
  String, ◌==◌, ◌≡◌, refl, sym, subst, ◌∙◌, ◌⊎◌, inl, inr, Option, none, some, List, [], ◌∷◌, arith,
  lookup, Memᴰ, eq_iff, eq-false_iff, Bool-cases, if◌then◌else◌, mem-cons_iff,
}
use run_cd.Cloudrun.Env.{assign}
use run_cd.Diff.Maps.{keys, IsMap, lookup-none, lookup-some_mem, mem_lookup}

-- A map without repeated keys that has the same entry at each key.
abbrev pub SameMap {ℓ} : {V : Type ℓ} → List (String × V) → List (String × V) → Type ℓ
SameMap a b = IsMap b × ((k : String) → lookup k a ≡ lookup k b)

module _ {ℓ} {V : Type ℓ} where
  lookup-cons_same : (k : String) (v : V) (m : List (String × V)) → lookup k ((k, v) ∷ m) ≡ some v
  unfolding lookup
  lookup-cons_same k v m = rw ((eq_iff k k).1 refl) refl

  abbrev or_else : Option V → Option V → Option V
  or_else none o = o
  or_else (some v) o = some v

  pub lookup-assign :
      (j : String) (v : V) (m : List (String × V)) (k : String)
      → lookup k (assign j v m) ≡ (if j == k then some v else lookup k m)
  unfolding lookup assign
  lookup-assign j v [] k = refl
  lookup-assign j v ((i, w) ∷ m) k = elim (Bool-cases (i == j)) [
    | inl same ↦ ground (arith, (eq_iff i j).0 same)
    | inr other ↦
        rw (other, lookup-assign j v m k)
          (elim (Bool-cases (j == k)) [
            | inl here ↦
                rw
                  (
                    here,
                    (eq-false_iff (i == k) (eq_iff i k)).1 (λ e.
                        (eq-false_iff (i == j) (eq_iff i j)).0 other
                          (e ∙ sym ((eq_iff j k).0 here))),
                  )
                  refl
            | inr there ↦ rw there refl
          ])
  ]

  mem-assign :
      (j : String) (v : V) (m : List (String × V)) (k : String)
      → Memᴰ k (keys (assign j v m))
      → (k ≡ j) ⊎ Memᴰ k (keys m)
  mem-assign j v m k h =
      let (w, e) = mem_lookup k (assign j v m) h in
      elim (Bool-cases (j == k)) [
        | inl same ↦ inl (sym ((eq_iff j k).0 same))
        | inr other ↦
            inr (lookup-some_mem k m w (let q = sym (lookup-assign j v m k) ∙ e in rw other at q))
      ]

  assign-IsMap : (j : String) (v : V) (m : List (String × V)) → IsMap m → IsMap (assign j v m)
  unfolding assign
  assign-IsMap j v [] u = ((λ h. elim h [ ]), tt)
  assign-IsMap j v ((i, w) ∷ m) u = elim (Bool-cases (i == j)) [
    | inl same ↦ rw same u
    | inr other ↦ rw other (
      (λ h. elim (mem-assign j v m i h) [
        | inl e ↦ (eq-false_iff (i == j) (eq_iff i j)).0 other e
        | inr r ↦ u.0 r
      ]),
      assign-IsMap j v m u.1,
    )
  ]

  -- The loop that writes each entry in turn.
  unfoldable pub assign_all : List (String × V) → List (String × V) → List (String × V)
  assign_all m [] = m
  assign_all m ((k, v) ∷ ps) = assign_all (assign k v m) ps

  pub assign_all-IsMap : (ps m : List (String × V)) → IsMap m → IsMap (assign_all m ps)
  unfolding assign_all
  assign_all-IsMap [] m u = u
  assign_all-IsMap ((k, v) ∷ ps) m u = assign_all-IsMap ps (assign k v m) (assign-IsMap k v m u)

  lookup-assign_all :
      (ps m : List (String × V)) (k : String)
      → IsMap ps
      → lookup k (assign_all m ps) ≡ or_else (lookup k ps) (lookup k m)
  unfolding assign_all lookup
  lookup-assign_all [] m k u = refl
  lookup-assign_all ((j, v) ∷ ps) m k u =
      rw (lookup-assign_all ps (assign j v m) k u.1, lookup-assign j v m k)
        (elim (Bool-cases (j == k)) [
          | inl same ↦
              let absent : lookup k ps ≡ none =
                lookup-none k ps
                  (subst (λ (y : String). ¬ (Memᴰ y (keys ps))) ((eq_iff j k).0 same) u.0) in
              rw (same, absent) refl
          | inr other ↦ rw other refl
        ])

  pub assign_all-SameMap : (ps : List (String × V)) → IsMap ps → SameMap ps (assign_all [] ps)
  unfolding lookup
  assign_all-SameMap ps u =
      (assign_all-IsMap ps [] tt, λ k. sym (lookup-assign_all ps [] k u ∙ or_none (lookup k ps)))
    where
      or_none : (o : Option V) → or_else o none ≡ o
      or_none none = refl
      or_none (some w) = refl

  pub SameMap-refl : (m : List (String × V)) → IsMap m → SameMap m m
  SameMap-refl m u = (u, λ k. refl)

  pub SameMap-trans : (a b c : List (String × V)) → SameMap a b → SameMap b c → SameMap a c
  SameMap-trans a b c f g = (g.0, λ k. f.1 k ∙ g.1 k)

  mem-SameMap :
      (a b : List (String × V)) → SameMap a b → (k : String) → Memᴰ k (keys b) → Memᴰ k (keys a)
  mem-SameMap a b f k h = let (v, e) = mem_lookup k b h in lookup-some_mem k a v (f.1 k ∙ e)

  pub SameMap-cons :
      (k : String) (v : V) (a b : List (String × V))
      → IsMap ((k, v) ∷ a)
      → SameMap a b
      → SameMap ((k, v) ∷ a) ((k, v) ∷ b)
  unfolding lookup
  SameMap-cons k v a b u f = (((λ h. u.0 (mem-SameMap a b f k h)), f.0), λ j. rw (f.1 j) refl)

  pub SameMap-swap :
      (i j : String) (v w : V) (m : List (String × V))
      → IsMap ((i, v) ∷ (j, w) ∷ m)
      → SameMap ((i, v) ∷ (j, w) ∷ m) ((j, w) ∷ (i, v) ∷ m)
  unfolding lookup
  SameMap-swap i j v w m u = (
    (
      (λ h. elim ((mem-cons_iff j i (keys m)).0 h) [
        | inl e ↦ u.0 (Memᴰ.head (sym e))
        | inr r ↦ u.1.0 r
      ]),
      ((λ h. u.0 (Memᴰ.tail h)), u.1.1),
    ),
    λ k. elim (Bool-cases (i == k)) [
      | inl here ↦
          rw
            (
              here,
              (eq-false_iff (j == k) (eq_iff j k)).1
                  (λ e. u.0 (Memᴰ.head ((eq_iff i k).0 here ∙ sym e))),
            )
            refl
      | inr there ↦ rw there refl
    ],
  )
