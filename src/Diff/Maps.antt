-- ===== src/Diff/Maps.antt =====
-- The equality test of maps, which compares lengths and one inclusion, against equality of lookups.
use run_cd.Base.{
  suc, ◌≤◌, ◌≡◌, ◌≢◌, ◌↔◌, inl, inr, refl, sym, subst, String, ◌==◌, Bool, true, false, Option,
  none, some, List, [], ◌∷◌, Memᴰ, Unique, arith, eq_iff, eq_refl, length, lookup, nat_eq, ◌∙◌, ap,
  mem-cons_iff, Bool-cases, Option-cases, eq-false_iff, and-eq-true_iff, if◌then◌else◌,
}
use run_cd.Diff.{entry_equal, map_equal, all_in}

-- The keys of a map.
abbrev pub keys {ℓ} : {V : Type ℓ} → List (String × V) → List String
keys [] = []
keys ((k, v) ∷ m) = k ∷ keys m

-- No key has two entries, as in every Go map.
abbrev pub IsMap {ℓ} : {V : Type ℓ} → List (String × V) → Type 0
IsMap m = Unique (keys m)

remove : String → List String → List String
remove k [] = []
remove k (x ∷ xs) = let rest = remove k xs in if x == k then xs else x ∷ rest

length-remove : (k : String) (xs : List String) → Memᴰ k xs → suc (length (remove k xs)) ≡ length xs
unfolding remove
length-remove k [] m = elim m [ ]
length-remove k (x ∷ xs) (Memᴰ.head e) = rw ((eq_iff x k).1 (sym e)) refl
length-remove k (x ∷ xs) (Memᴰ.tail m) = ground (arith, length-remove k xs m)

mem-remove : (k j : String) (xs : List String) → Memᴰ j xs → j ≢ k → Memᴰ j (remove k xs)
unfolding remove
mem-remove k j [] m d = elim m [ ]
mem-remove k j (x ∷ xs) (Memᴰ.head e) d =
    rw ((eq-false_iff (x == k) (eq_iff x k)).1 (λ q. d (subst (λ (y : String). j ≡ y) q e)))
      (Memᴰ.head e)
mem-remove k j (x ∷ xs) (Memᴰ.tail m) d = elim (Bool-cases (x == k)) [
  | inl same ↦ rw same m
  | inr other ↦ rw other (Memᴰ.tail (mem-remove k j xs m d))
]

-- A list without repeats is no longer than a list that holds its entries.
pigeonhole :
    (xs ys : List String)
    → Unique xs
    → ((k : String) → Memᴰ k xs → Memᴰ k ys)
    → length xs ≤ length ys
pigeonhole [] ys u f = omega arith
pigeonhole (x ∷ xs) ys u f =
    let shorter = pigeonhole xs (remove x ys) u.1 (λ k m.
      mem-remove x k ys (f k (Memᴰ.tail m)) (λ e. u.0 (subst (λ (y : String). Memᴰ y xs) e m))) in
    omega (arith, shorter, length-remove x ys (f x (Memᴰ.head refl)))

module _ {ℓ} {V : Type ℓ} where
  length-keys : (m : List (String × V)) → length (keys m) ≡ length m
  length-keys [] = refl
  length-keys ((k, v) ∷ m) = omega (arith, length-keys m)

  pub lookup-none : (k : String) (m : List (String × V)) → ¬ (Memᴰ k (keys m)) → lookup k m ≡ none
  unfolding lookup
  lookup-none k [] d = refl
  lookup-none k ((j, v) ∷ m) d =
      rw ((eq-false_iff (j == k) (eq_iff j k)).1 (λ e. d (Memᴰ.head (sym e))))
        (lookup-none k m (λ x. d (Memᴰ.tail x)))

  pub lookup-some_mem :
      (k : String) (m : List (String × V)) (v : V) → lookup k m ≡ some v → Memᴰ k (keys m)
  unfolding lookup
  lookup-some_mem k [] v e = absurd (cc)
  lookup-some_mem k ((j, w) ∷ m) v e = elim (Bool-cases (j == k)) [
    | inl same ↦ Memᴰ.head (sym ((eq_iff j k).0 same))
    | inr other ↦ Memᴰ.tail (lookup-some_mem k m v (rw other at e))
  ]

  pub mem_lookup :
      (k : String) (m : List (String × V)) → Memᴰ k (keys m) → (v : V) × (lookup k m ≡ some v)
  unfolding lookup
  mem_lookup k [] h = elim h [ ]
  mem_lookup k ((j, v) ∷ m) (Memᴰ.head e) = (v, rw ((eq_iff j k).1 (sym e)) refl)
  mem_lookup k ((j, v) ∷ m) (Memᴰ.tail h) = elim (Bool-cases (j == k)) [
    | inl same ↦ (v, rw same refl)
    | inr other ↦ let (w, e) = mem_lookup k m h in (w, rw other e)
  ]

  -- Every entry of one map is an entry of the other.
  abbrev Included : List (String × V) → List (String × V) → Type ℓ
  Included a b = (k : String) (v : V) → lookup k a ≡ some v → lookup k b ≡ some v

  Included-tail :
      (k : String) (v : V) (a b : List (String × V))
      → IsMap ((k, v) ∷ a)
      → Included ((k, v) ∷ a) b
      → Included a b
  unfolding lookup
  Included-tail k v a b u f j w e =
      let other : (k == j) ≡ false =
        (eq-false_iff (k == j) (eq_iff k j)).1
          (λ q. u.0 (subst (λ (y : String). Memᴰ y (keys a)) (sym q) (lookup-some_mem j a w e))) in
      f j w (rw other e)

  mem-Included :
      (a b : List (String × V)) → Included a b → (k : String) → Memᴰ k (keys a) → Memᴰ k (keys b)
  mem-Included a b f k m = let (v, e) = mem_lookup k a m in lookup-some_mem k b v (f k v e)

  length-Included : (a b : List (String × V)) → IsMap a → Included a b → length a ≤ length b
  length-Included a b u f =
      omega
        (arith, pigeonhole (keys a) (keys b) u (mem-Included a b f), length-keys a, length-keys b)

  -- Of two maps of one length, one inside the other, the second has no further key.
  no_further_key :
      (a b : List (String × V))
      → IsMap a
      → length a ≡ length b
      → Included a b
      → (k : String) → ¬ (Memᴰ k (keys a))
      → ¬ (Memᴰ k (keys b))
  no_further_key a b u e f k d m =
      let longer =
        pigeonhole (k ∷ keys a) (keys b) (d, u)
          (λ j h. elim ((mem-cons_iff j k (keys a)).0 h) [
            | inl q ↦ subst (λ (y : String). Memᴰ y (keys b)) (sym q) m
            | inr r ↦ mem-Included a b f j r
          ]) in
      omega (arith, longer, length-keys a, length-keys b)

module _ {ℓ} {V : Type ℓ} (same : V → V → Bool)
    (same_iff : (v w : V) → (same v w ≡ true) ↔ (v ≡ w)) where
  entry_equal-some : (v : V) (o : Option V) → entry_equal same v o ≡ true → o ≡ some v
  entry_equal-some v none h = absurd (cc)
  entry_equal-some v (some w) h = ap some ((same_iff w v).0 h)

  all_in-Included : (a b : List (String × V)) → all_in same a b ≡ true → Included a b
  unfolding all_in lookup
  all_in-Included [] b h k v e = absurd (cc)
  all_in-Included ((j, w) ∷ a) b h k v e =
      let tests = (and-eq-true_iff (entry_equal same w (lookup j b)) (all_in same a b)).0 h in
      elim (Bool-cases (j == k)) [
        | inl here ↦
            let value : w ≡ v = let q : some w ≡ some v = rw here at e in cc in
            subst (λ (y : String). lookup y b ≡ some v) ((eq_iff j k).0 here)
              (rw (← value) (entry_equal-some w (lookup j b) tests.0))
        | inr later ↦ all_in-Included a b tests.1 k v (rw later at e)
      ]

  Included-all_in : (a b : List (String × V)) → IsMap a → Included a b → all_in same a b ≡ true
  unfolding all_in
  Included-all_in [] b u f = refl
  Included-all_in ((j, w) ∷ a) b u f =
      let here : lookup j b ≡ some w = f j w (unfold lookup in rw (eq_refl j) refl) in
      rw (here, (same_iff w w).1 refl) (Included-all_in a b u.1 (Included-tail j w a b u f))

  -- On maps with no key twice, the test by lengths and one inclusion is equality of all lookups.
  pub map_equal_iff :
      (a b : List (String × V))
      → IsMap a
      → IsMap b
      → (map_equal same a b ≡ true) ↔ ((k : String) → lookup k a ≡ lookup k b)
  unfolding map_equal
  map_equal_iff a b u w = (
    λ h k.
        let tests = (and-eq-true_iff (nat_eq (length a) (length b)) (all_in same a b)).0 h in
        let inside = all_in-Included a b tests.1 in
        elim (Option-cases (lookup k a)) [
          | inr (v, e) ↦ e ∙ sym (inside k v e)
          | inl missing ↦
              missing
              ∙ sym (
                  lookup-none k b (
                    no_further_key a b u (ground (arith, tests.0)) inside k
                      (λ m. let (v, e) = mem_lookup k a m in cc)))
        ],
    λ f.
        let there : Included a b = λ k v e. sym (f k) ∙ e in
        let back : Included b a = λ k v e. f k ∙ e in
        let same_length : length a ≡ length b =
          omega (arith, length-Included a b u there, length-Included b a w back) in
        (and-eq-true_iff (nat_eq (length a) (length b)) (all_in same a b)).1
          (ground (arith, same_length), Included-all_in a b u there),
  )
