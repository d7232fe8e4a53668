-- ===== src/Reconcile/Orphans/Found.antt =====
-- Which orphans are reported.
use run_cd.Base.{
  ℕ, String, ◌&&◌, ◌≡◌, ◌↔◌, ◌⊎◌, inl, inr, refl, sym, ◌∙◌, ap, subst, Option, none, some, List, [],
  ◌∷◌, ◌++◌, Memᴰ, Bool-cases, mem-cons_iff, Result, ok, err, contains, contains_iff,
  not-contains_iff, length, ltb, nat_eq,
}
use run_cd.Expander.{SyncUnit}
use run_cd.Reconcile.Orphans.{
  OrphanScope, Orphan, Expected, expected_apps, apps_at, scopes, unmarked, Scan, with_result, scan,
  report, detect_orphans,
}
use run_cd.Reconcile.Orphans.Declared.{IsDeclared, IsCovered, mem-expected_apps, mem-scopes}

abbrev pub at : Orphan → OrphanScope
at o = record { project = o.project; region = o.region }

mem-append {ℓ} : {A : Type ℓ} (x : A) (xs ys : List A) → Memᴰ x (xs ++ ys) ↔ (Memᴰ x xs ⊎ Memᴰ x ys)
mem-append x [] ys = (λ h. inr h, λ h. elim h [ inl r ↦ elim r [ ] | inr r ↦ r ])
mem-append x (z ∷ zs) ys =
    let ih = mem-append x zs ys in
    (
      λ h. elim ((mem-cons_iff x z (zs ++ ys)).0 h) [
        | inl e ↦ inl (Memᴰ.head e)
        | inr r ↦ elim (ih.0 r) [ inl q ↦ inl (Memᴰ.tail q) | inr q ↦ inr q ]
      ],
      λ h. elim h [
        | inl q ↦ elim ((mem-cons_iff x z zs).0 q) [
          | inl e ↦ Memᴰ.head e
          | inr r ↦ Memᴰ.tail (ih.1 (inl r))
        ]
        | inr q ↦ Memᴰ.tail (ih.1 (inr q))
      ],
    )

-- The orphan is a name of the scope that is not marked.
abbrev IsUnmarked : OrphanScope → List String → List String → Orphan → Type 0
IsUnmarked key apps names o = (at o ≡ key) × Memᴰ o.app names × (¬ (Memᴰ o.app apps))

mem-unmarked :
    (key : OrphanScope) (apps names : List String) (o : Orphan)
    → Memᴰ o (unmarked key apps names) ↔ IsUnmarked key apps names o
unfolding unmarked
mem-unmarked key apps [] o = (λ h. elim h [ ], λ h. elim h.1 [ ])
mem-unmarked key apps (name ∷ names) o =
    let ih = mem-unmarked key apps names o in
    let found : Orphan = record { project = key.project; region = key.region; app = name } in
    elim (Bool-cases (contains apps name)) [
      | inl marked ↦ rw marked (
        λ h. let (k, m, d) = ih.0 h in (k, Memᴰ.tail m, d),
        λ h. elim ((mem-cons_iff o.app name names).0 h.1) [
          | inl e ↦ absurd (
              h.2 (subst (λ (y : String). Memᴰ y apps) (sym e) ((contains_iff apps name).0 marked)))
          | inr r ↦ ih.1 (h.0, r, h.2)
        ],
      )
      | inr new ↦ rw new (
        λ h. elim ((mem-cons_iff o found (unmarked key apps names)).0 h) [
          | inl e ↦ (
            ap at e,
            Memᴰ.head (ap (λ (x : Orphan). x.app) e),
            (λ m.
                (not-contains_iff apps name).0 new
                  (subst (λ (y : String). Memᴰ y apps) (ap (λ (x : Orphan). x.app) e) m)),
          )
          | inr r ↦ let (k, m, d) = ih.0 r in (k, Memᴰ.tail m, d)
        ],
        λ h. elim ((mem-cons_iff o.app name names).0 h.1) [
          | inl e ↦ Memᴰ.head (let key_e = h.0 in cc)
          | inr r ↦ Memᴰ.tail (ih.1 (h.0, r, h.2))
        ],
      )
    ]

module _ (list_names : OrphanScope → Result String (List String)) (m : Expected) where
  -- The orphan is in a scope of the list, whose listing succeeds and has it, unmarked.
  abbrev IsScanned : List OrphanScope → Orphan → Type 0
  IsScanned keys o =
      Memᴰ (at o) keys
      × ((names : List String) × (list_names (at o) ≡ ok names)
          × Memᴰ o.app names
          × (¬ (Memᴰ o.app (apps_at (at o) m))))

  mem-scan :
      (keys : List OrphanScope) (o : Orphan)
      → Memᴰ o (scan list_names m keys).orphans ↔ IsScanned keys o
  unfolding scan
  mem-scan [] o = (λ h. elim h [ ], λ h. elim h.0 [ ])
  mem-scan (key ∷ keys) o = of_result (list_names key) refl (mem-scan keys o)
    where
      of_result :
          (r : Result String (List String))
          → list_names key ≡ r
          → (Memᴰ o (scan list_names m keys).orphans ↔ IsScanned keys o)
          → Memᴰ o (with_result key (apps_at key m) r (scan list_names m keys)).orphans
            ↔ IsScanned (key ∷ keys) o
      of_result (ok names) e ih = (
        λ h.
            elim ((mem-append o (unmarked key (apps_at key m) names)
                (scan list_names m keys).orphans).0
              h) [
                | inl q ↦
                    let (k, there, d) = (mem-unmarked key (apps_at key m) names o).0 q in
                    (Memᴰ.head k, (names, rw k e, there, rw k d))
                | inr q ↦ let (k, rest) = ih.0 q in (Memᴰ.tail k, rest)
              ],
        λ h.
            let (k, (found, listed, there, d)) = h in
            (mem-append o (unmarked key (apps_at key m) names) (scan list_names m keys).orphans).1
              (elim ((mem-cons_iff (at o) key keys).0 k) [
                | inl q ↦
                    let both : ◌≡◌ {A = Result String (List String)} (ok names) (ok found) =
                      sym e ∙ (ap list_names (sym q) ∙ listed) in
                    let one : found ≡ names = cc in
                    inl (
                      (mem-unmarked key (apps_at key m) names o).1 (
                        q,
                        subst (λ (l : List String). Memᴰ o.app l) one there,
                        subst (λ (k : OrphanScope). ¬ (Memᴰ o.app (apps_at k m))) q d,
                      ))
                | inr q ↦ inr (ih.1 (q, (found, listed, there, d)))
              ]),
      )
      of_result (err f) e ih = (
        λ h. let (k, rest) = ih.0 h in (Memᴰ.tail k, rest),
        λ h. elim ((mem-cons_iff (at o) key keys).0 h.0) [
          | inl q ↦
              let (found, listed, there, d) = h.1 in
              let both : ◌≡◌ {A = Result String (List String)} (err f) (ok found) =
                sym e ∙ (ap list_names (sym q) ∙ listed) in
              absurd (cc)
          | inr q ↦ ih.1 (q, h.1)
        ],
      )

-- A live service of a scope that some unit is in, listed there, and declared there by no unit.
abbrev pub IsOrphan : (OrphanScope → Result String (List String)) → List SyncUnit → Orphan → Type 0
IsOrphan list_names units o =
    IsCovered units (at o)
    × ((names : List String) × (list_names (at o) ≡ ok names) × Memᴰ o.app names)
    × (¬ (IsDeclared units (at o) o.app))

report-some : (n : ℕ) (s : Scan) (os : List Orphan) → (report n s).0 ≡ some os → s.orphans ≡ os
report-some n s os h = elim (Bool-cases (ltb 0 n && nat_eq s.succeeded 0)) [
  | inl none_left ↦
      absurd (let e : ◌≡◌ {A = Option (List Orphan)} none (some os) = rw none_left at h in cc)
  | inr some_left ↦
      let e : ◌≡◌ {A = Option (List Orphan)} (some s.orphans) (some os) = rw some_left at h in cc
]

-- Where orphans are reported at all, a service is reported exactly if some unit is in its
-- project and region, the listing of that project and region succeeds and has its name, and no
-- unit there declares an app of that name.
pub detect_orphans_iff :
    (list_names : OrphanScope → Result String (List String)) (units : List SyncUnit)
    (os : List Orphan) (o : Orphan)
    → (detect_orphans list_names units).0 ≡ some os
    → Memᴰ o os ↔ IsOrphan list_names units o
unfolding detect_orphans
detect_orphans_iff list_names units os o h =
    let m = expected_apps units in
    let reported = report-some (length (scopes m)) (scan list_names m (scopes m)) os h in
    let scanned = mem-scan list_names m (scopes m) o in
    let covered = mem-scopes units (at o) in
    let declared = mem-expected_apps units (at o) o.app in
    rw (← reported) (
      λ there.
          let (k, (names, listed, live, d)) = scanned.0 there in
          (covered.0 k, (names, listed, live), λ q. d (declared.1 q)),
      λ orphan.
          let (k, (names, listed, live), d) = orphan in
          scanned.1 (covered.1 k, (names, listed, live, λ q. d (declared.0 q))),
    )
