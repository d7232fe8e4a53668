-- ===== src/Registry/Highest.antt =====
-- bestMatch of internal/registry/resolve.go finds a tag with the highest version of those that match.
use run_cd.Base.{
  ℕ, String, ◌==◌, ◌≡◌, ◌≢◌, ◌⊎◌, inl, inr, refl, sym, ap, ◌∙◌, subst, true, false, Option, none,
  some, List, [], ◌∷◌, Memᴰ, Bool-cases, eq_iff, eq-false_iff,
}
use run_cd.Base.Int.{pos, ltb_ℤ}
use run_cd.Registry.{Tag, Semver, candidate, Best, better, best_from, best_match}
use run_cd.Registry.Matches.{Matches, candidate_iff, canonical_semver-ne}

-- semver.Compare gives a positive number.
abbrev pub IsHigher : Semver → String → String → Type 0
IsHigher sv a b = ltb_ℤ (pos 0) (sv.compare_versions a b) ≡ true

-- What semver.Compare promises: an order of the versions.
pub record IsPrecedence (sv : Semver) : Type 0 where
  pub irreflexive : (a : String) → ¬ (IsHigher sv a a)
  pub transitive : (a b c : String) → IsHigher sv a b → IsHigher sv b c → IsHigher sv a c

some-injective : {a b : String} → some a ≡ some b → a ≡ b
some-injective e = cc

module _ (sv : Semver) (prefix : String) (depth : ℕ) (constraint : String) where
  -- No tag of the list that matches has a higher version.
  abbrev pub IsBound : String → List Tag → Type 0
  IsBound version tags =
      (t : Tag) (w : String)
      → Memᴰ t tags
      → Matches sv prefix depth constraint t w
      → ¬ (IsHigher sv w version)

  -- A tag of the list matches, none that matches has a higher version, and its digest is this.
  abbrev pub Highest : List Tag → String → Type 0
  Highest tags digest =
      (t : Tag) × (version : String) × Memᴰ t tags
      × Matches sv prefix depth constraint t version
      × IsBound version tags
      × (t.digest ≡ digest)

  abbrev pub NoMatch : List Tag → Type 0
  NoMatch tags = (t : Tag) (w : String) → Memᴰ t tags → ¬ (Matches sv prefix depth constraint t w)

  -- The loop keeps the best so far, which no tag exceeds, or ends with a tag that exceeds it.
  abbrev Kept : Best → Best → List Tag → Type 0
  Kept b r tags =
      (r ≡ b)
      × ((t : Tag) (w : String)
          → Memᴰ t tags
          → Matches sv prefix depth constraint t w
          → (b.version ≢ "") × (¬ (IsHigher sv w b.version)))

  abbrev Moved : Best → Best → List Tag → Type 0
  Moved b r tags =
      (t : Tag) × Memᴰ t tags
      × Matches sv prefix depth constraint t r.version
      × (r.digest ≡ t.digest)
      × IsBound r.version tags
      × (b.version ≢ "" → IsHigher sv r.version b.version)

  Matches-ne : (t : Tag) (v : String) → Matches sv prefix depth constraint t v → v ≢ ""
  Matches-ne t v m e = canonical_semver-ne m.name (sym m.canonical ∙ e)

  -- What holds of the version of each tag that matches, with one more tag in front.
  each-cons :
      (P : String → Type 0) (t : Tag) (ts : List Tag)
      → ((w : String) → Matches sv prefix depth constraint t w → P w)
      → ((s : Tag) (w : String) → Memᴰ s ts → Matches sv prefix depth constraint s w → P w)
      → (s : Tag) (w : String) → Memᴰ s (t ∷ ts)
      → Matches sv prefix depth constraint s w
      → P w
  each-cons P t ts front rest s w (Memᴰ.head e) m =
      front w (subst (λ u. Matches sv prefix depth constraint u w) e m)
  each-cons P t ts front rest s w (Memᴰ.tail i) m = rest s w i m

  -- Where a tag matches, its version is the one that the loop considers.
  each-candidate :
      (P : String → Type 0) (t : Tag) (v : String)
      → candidate sv prefix depth constraint t ≡ some v
      → P v
      → (w : String) → Matches sv prefix depth constraint t w
      → P w
  each-candidate P t v e p w m =
      let f = (candidate_iff sv prefix depth constraint t w).1 m in
      subst P (some-injective (sym e ∙ f)) p

  -- A tag that the loop skips.
  after_skip :
      (b r : Best) (t : Tag) (ts : List Tag)
      → candidate sv prefix depth constraint t ≡ none
      → Kept b r ts ⊎ Moved b r ts
      → Kept b r (t ∷ ts) ⊎ Moved b r (t ∷ ts)
  after_skip b r t ts skipped h = elim h [
    | inl (same, bound) ↦ inl (same, each-cons _ t ts (λ w m. absurd (no_match w m)) bound)
    | inr (s, i, fits, digest, bound, over) ↦
        inr (
          s,
          Memᴰ.tail i,
          fits,
          digest,
          each-cons _ t ts (λ w m. absurd (no_match w m)) bound,
          over,
        )
  ]
    where
      no_match : (w : String) → ¬ (Matches sv prefix depth constraint t w)
      no_match w m = absurd (
          let q : ◌≡◌ {A = Option String} none (some w) =
            sym skipped ∙ (candidate_iff sv prefix depth constraint t w).1 m in
          cc)

  module _ (order : IsPrecedence sv) where
    -- A tag whose version is not higher than the best so far.
    after_lower :
        (b r : Best) (t : Tag) (ts : List Tag) (v : String)
        → candidate sv prefix depth constraint t ≡ some v
        → b.version ≢ ""
        → ¬ (IsHigher sv v b.version)
        → Kept b r ts ⊎ Moved b r ts
        → Kept b r (t ∷ ts) ⊎ Moved b r (t ∷ ts)
    after_lower b r t ts v e some_best lower h = elim h [
      | inl (same, bound) ↦
          inl (same, each-cons _ t ts (each-candidate _ t v e (some_best, lower)) bound)
      | inr (s, i, fits, digest, bound, over) ↦ inr (
        s,
        Memᴰ.tail i,
        fits,
        digest,
        each-cons _ t ts
            (each-candidate _ t v e
              (λ higher. lower (order.transitive v r.version b.version higher (over some_best))))
            bound,
        over,
      )
    ]

    -- A tag whose version takes the place of the best so far.
    after_higher :
        (b r : Best) (t : Tag) (ts : List Tag) (v : String)
        → candidate sv prefix depth constraint t ≡ some v
        → (b.version ≢ "" → IsHigher sv v b.version)
        → Kept (record { version = v; digest = t.digest }) r ts
          ⊎ Moved (record { version = v; digest = t.digest }) r ts
        → Moved b r (t ∷ ts)
    after_higher b r t ts v e over h =
        let fits = (candidate_iff sv prefix depth constraint t v).0 e in
        elim h [
          | inl (same, bound) ↦
              let version : v ≡ r.version = sym (ap (λ (k : Best). k.version) same) in
              (
                t,
                Memᴰ.head refl,
                subst (Matches sv prefix depth constraint t) version fits,
                ap (λ (k : Best). k.digest) same,
                subst (λ k. IsBound k (t ∷ ts)) version
                    (each-cons _ t ts (each-candidate _ t v e (order.irreflexive v))
                      (λ s w i m. (bound s w i m).1)),
                subst (λ k. b.version ≢ "" → IsHigher sv k b.version) version over,
              )
          | inr (s, i, found, digest, bound, above) ↦
              let beyond = above (Matches-ne t v fits) in
              (
                s,
                Memᴰ.tail i,
                found,
                digest,
                each-cons _ t ts
                    (each-candidate _ t v e (λ higher.
                      order.irreflexive v (order.transitive v r.version v higher beyond)))
                    bound,
                λ n. order.transitive r.version v b.version beyond (over n),
              )
        ]

    -- One round of the loop, by the version that it considers.
    after_round :
        (b : Best) (t : Tag) (ts : List Tag) (o : Option String)
        → candidate sv prefix depth constraint t ≡ o
        → ((c : Best)
            → Kept c (best_from sv prefix depth constraint c ts) ts
              ⊎ Moved c (best_from sv prefix depth constraint c ts) ts)
        → Kept b (best_from sv prefix depth constraint (better sv b t o) ts) (t ∷ ts)
          ⊎ Moved b (best_from sv prefix depth constraint (better sv b t o) ts) (t ∷ ts)
    after_round b t ts none e rest = after_skip b _ t ts e (rest b)
    after_round b t ts (some v) e rest = elim (Bool-cases (b.version == "")) [
      | inl empty ↦ rw empty (
          inr
            (after_higher b _ t ts v e (λ n. absurd (n ((eq_iff b.version "").0 empty))) (rest _)))
      | inr filled ↦ elim (Bool-cases (ltb_ℤ (pos 0) (sv.compare_versions v b.version))) [
        | inl higher ↦ rw (filled, higher) (inr (after_higher b _ t ts v e (λ _. higher) (rest _)))
        | inr lower ↦
            rw (filled, lower)
              (after_lower b _ t ts v e
                ((eq-false_iff (b.version == "") (eq_iff b.version "")).0 filled)
                (λ h. absurd (let q : false ≡ true = sym lower ∙ h in cc)) (rest b))
      ]
    ]

    best_from-cases :
        (b : Best) (tags : List Tag)
        → Kept b (best_from sv prefix depth constraint b tags) tags
          ⊎ Moved b (best_from sv prefix depth constraint b tags) tags
    unfolding best_from
    best_from-cases b [] = inl (refl, λ t w i. elim i [ ])
    best_from-cases b (t ∷ ts) =
        after_round b t ts (candidate sv prefix depth constraint t) refl (λ c. best_from-cases c ts)

    -- bestMatch gives a highest match's digest, or nothing if no tag matches.
    pub best_match-cases :
        (tags : List Tag)
        → (NoMatch tags × (best_match sv tags prefix depth constraint ≡ ""))
          ⊎ Highest tags (best_match sv tags prefix depth constraint)
    unfolding best_match
    best_match-cases tags = elim (best_from-cases (record { version = ""; digest = "" }) tags) [
      | inl (same, bound) ↦
          inl (λ t w i m. (bound t w i m).0 refl, ap (λ (k : Best). k.digest) same)
      | inr (t, i, fits, digest, bound, over) ↦ inr (t, _, i, fits, bound, sym digest)
    ]
