-- ===== src/Reconcile/Orphans/Failed.antt =====
-- When no listing is to be trusted.
use run_cd.Base.{
  ℕ, suc, ◌+◌, ◌<◌, String, ◌&&◌, ◌≡◌, ◌≢◌, ◌↔◌, inl, inr, refl, sym, ◌∙◌, ap, subst, none, List,
  [], ◌∷◌, Memᴰ, arith, Bool-cases, mem-cons_iff, Result, ok, err, length, ltb, nat_eq,
}
use run_cd.Expander.{SyncUnit}
use run_cd.Reconcile.Orphans.{
  OrphanScope, scope_of, Expected, expected_apps, apps_at, scopes, Scan, with_result, scan, report,
  detect_orphans,
}
use run_cd.Reconcile.Orphans.Declared.{IsCovered, mem-scopes}

module _ (list_names : OrphanScope → Result String (List String)) (m : Expected) where
  -- Each scope has succeeded or has an error.
  scan-length :
      (keys : List OrphanScope)
      → length (scan list_names m keys).errors + (scan list_names m keys).succeeded ≡ length keys
  unfolding scan
  scan-length [] = refl
  scan-length (key ∷ keys) = of_result (list_names key) (scan-length keys)
    where
      of_result :
          (r : Result String (List String))
          → length (scan list_names m keys).errors + (scan list_names m keys).succeeded
            ≡ length keys
          → length (with_result key (apps_at key m) r (scan list_names m keys)).errors
              + (with_result key (apps_at key m) r (scan list_names m keys)).succeeded
            ≡ suc (length keys)
      of_result (ok names) ih = omega (arith, ih)
      of_result (err e) ih = omega (arith, ih)

  -- The scopes of the list cannot be listed.
  abbrev AllFail : List OrphanScope → Type 0
  AllFail keys = (k : OrphanScope) → Memᴰ k keys → (e : String) × (list_names k ≡ err e)

  scan-succeeded_iff :
      (keys : List OrphanScope) → ((scan list_names m keys).succeeded ≡ 0) ↔ AllFail keys
  unfolding scan
  scan-succeeded_iff [] = (λ h k there. elim there [ ], λ h. refl)
  scan-succeeded_iff (key ∷ keys) = of_result (list_names key) refl (scan-succeeded_iff keys)
    where
      of_result :
          (r : Result String (List String))
          → list_names key ≡ r
          → (((scan list_names m keys).succeeded ≡ 0) ↔ AllFail keys)
          → ((with_result key (apps_at key m) r (scan list_names m keys)).succeeded ≡ 0)
            ↔ AllFail (key ∷ keys)
      of_result (ok names) e ih = (
        λ h. absurd (omega (arith, h)),
        λ h.
            let (f, failed) = h key (Memᴰ.head refl) in
            let both : ◌≡◌ {A = Result String (List String)} (ok names) (err f) = sym e ∙ failed in
            absurd (cc),
      )
      of_result (err f) e ih = (
        λ h k there. elim ((mem-cons_iff k key keys).0 there) [
          | inl q ↦ (f, ap list_names q ∙ e)
          | inr q ↦ ih.0 h k q
        ],
        λ h. ih.1 (λ k there. h k (Memᴰ.tail there)),
      )

report-none : (n : ℕ) (s : Scan) → ((report n s).0 ≡ none) ↔ ((0 < n) × (s.succeeded ≡ 0))
report-none n s = elim (Bool-cases (ltb 0 n && nat_eq s.succeeded 0)) [
  | inl t ↦ rw t (λ _. (ground (arith, t), ground (arith, t)), λ _. refl)
  | inr f ↦ rw f (λ h. absurd (cc), λ h. absurd (ground (arith, f, h.0, h.1)))
]

report-none_errors :
    (n : ℕ) (s : Scan)
    → length s.errors + s.succeeded ≡ n
    → (report n s).0 ≡ none
    → (report n s).1 ≢ []
report-none_errors n s counted h e =
    let (filled, failed) = (report-none n s).0 h in
    elim (Bool-cases (ltb 0 n && nat_eq s.succeeded 0)) [
      | inl t ↦
          let empty : s.errors ≡ [] = rw t at e in
          let zero_length : length s.errors ≡ 0 = rw empty refl in
          omega (arith, counted, filled, failed, zero_length)
      | inr f ↦ absurd (ground (arith, f, filled, failed))
    ]

positive : {k : OrphanScope} (keys : List OrphanScope) → Memᴰ k keys → 0 < length keys
positive [] there = elim there [ ]
positive (k ∷ keys) there = omega arith

covers : (units : List SyncUnit) → (0 < length (scopes (expected_apps units))) ↔ (units ≢ [])
covers units =
    (λ h e. of_scopes (scopes (expected_apps units)) refl h e, λ d. of_units units refl d)
  where
    of_scopes :
        (keys : List OrphanScope)
        → scopes (expected_apps units) ≡ keys
        → 0 < length keys
        → ¬ (units ≡ [])
    of_scopes [] q h e = omega (arith, h)
    of_scopes (key ∷ keys) q h e =
        let (u, there, covered) =
          (mem-scopes units key).0
            (subst (λ (l : List OrphanScope). Memᴰ key l) (sym q) (Memᴰ.head refl)) in
        elim (subst (λ (l : List SyncUnit). Memᴰ u l) e there) [ ]

    of_units :
        (us : List SyncUnit) → units ≡ us → units ≢ [] → 0 < length (scopes (expected_apps units))
    of_units [] q d = absurd (d q)
    of_units (u ∷ us) q d =
        let there =
          (mem-scopes units (scope_of u)).1
            (u, subst (λ (l : List SyncUnit). Memᴰ u l) (sym q) (Memᴰ.head refl), refl) in
        positive (scopes (expected_apps units)) there

-- The list of orphans is nil exactly if there is a unit and the listing fails for every project
-- and region that a unit is in; and a nil list always comes with an error.
pub detect_orphans-none_iff :
    (list_names : OrphanScope → Result String (List String)) (units : List SyncUnit)
    → (((detect_orphans list_names units).0 ≡ none) ↔ (
        (units ≢ [])
        × ((key : OrphanScope) → IsCovered units key → (e : String) × (list_names key ≡ err e))))
      × ((detect_orphans list_names units).0 ≡ none → (detect_orphans list_names units).1 ≢ [])
unfolding detect_orphans
detect_orphans-none_iff list_names units =
    let m = expected_apps units in
    let s = scan list_names m (scopes m) in
    let reported = report-none (length (scopes m)) s in
    let failed = scan-succeeded_iff list_names m (scopes m) in
    (
      (
        λ h.
            let (filled, none_left) = reported.0 h in
            ((covers units).0 filled, λ key c. failed.0 none_left key ((mem-scopes units key).1 c)),
        λ h. reported.1 (
          (covers units).1 h.0,
          failed.1 (λ key there. h.1 key ((mem-scopes units key).0 there)),
        ),
      ),
      report-none_errors (length (scopes m)) s (scan-length list_names m (scopes m)),
    )
