-- ===== src/Api/Views/Scanned.antt =====
-- Which orphans a caller is shown.
use run_cd.Base.{
  String, ◌≡◌, ◌≢◌, ◌↔◌, ◌⊎◌, inl, inr, refl, sym, ap, ◌∙◌, subst, Bool, true, false, Option, none,
  some, List, [], ◌∷◌, Memᴰ, filter, contains, contains_iff, mem-cons_iff, Result, Bool-cases,
}
use run_cd.Expander.{SyncUnit}
use run_cd.Rbac.{get, has_any_grant}
use run_cd.Reconcile.Orphans.{OrphanScope, Orphan, detect_orphans}
use run_cd.Reconcile.Orphans.Declared.{IsCovered}
use run_cd.Reconcile.Orphans.Found.{at, IsOrphan, detect_orphans_iff}
use run_cd.Reconcile.Orphans.Failed.{detect_orphans-none_iff}
use run_cd.Api.{Handler, Request, Refusal, forbidden, unsupported}
use run_cd.Api.Views.{
  View, refused, whole, partial, scannable, projects_of, shown_orphans, view_of_scan, scan_listed,
  orphans_for, handle_orphans,
}

mem-filter {ℓ} :
    {A : Type ℓ} (p : A → Bool) (x : A) (xs : List A)
    → Memᴰ x (filter p xs) ↔ (Memᴰ x xs × (p x ≡ true))
mem-filter p x [] = (λ h. elim h [ ], λ h. elim h.0 [ ])
mem-filter p x (y ∷ ys) =
    let ih = mem-filter p x ys in
    elim (Bool-cases (p y)) [
      | inl passes ↦ rw passes (
        λ h. elim ((mem-cons_iff x y (filter p ys)).0 h) [
          | inl e ↦ (Memᴰ.head e, ap p e ∙ passes)
          | inr r ↦ let (m, q) = ih.0 r in (Memᴰ.tail m, q)
        ],
        λ h. elim ((mem-cons_iff x y ys).0 h.0) [
          | inl e ↦ Memᴰ.head e
          | inr r ↦ Memᴰ.tail (ih.1 (r, h.1))
        ],
      )
      | inr fails ↦ rw fails (
        λ h. let (m, q) = ih.0 h in (Memᴰ.tail m, q),
        λ h. elim ((mem-cons_iff x y ys).0 h.0) [
          | inl e ↦ absurd (let q : true ≡ false = sym h.1 ∙ (ap p e ∙ fails) in cc)
          | inr r ↦ ih.1 (r, h.1)
        ],
      )
    ]

mem-projects_of :
    (u : SyncUnit) (units : List SyncUnit) → Memᴰ u units → Memᴰ u.project (projects_of units)
mem-projects_of u [] m = elim m [ ]
mem-projects_of u (v ∷ vs) (Memᴰ.head e) = Memᴰ.head (ap (λ (x : SyncUnit). x.project) e)
mem-projects_of u (v ∷ vs) (Memᴰ.tail m) = Memᴰ.tail (mem-projects_of u vs m)

-- The project of an orphan is one of those of the units that were scanned for.
covered-project :
    (units : List SyncUnit) (o : Orphan)
    → IsCovered units (at o)
    → contains (projects_of units) o.project ≡ true
covered-project units o (u, m, e) = (contains_iff (projects_of units) o.project).1 (
    subst (λ (p : String). Memᴰ p (projects_of units)) (ap (λ (s : OrphanScope). s.project) e)
      (mem-projects_of u units m))

-- The view answers with these orphans, all of them or those of the listings that succeeded.
abbrev pub Shows : View (List Orphan) → List Orphan → Type 0
Shows v os = (v ≡ whole os) ⊎ (v ≡ partial os)

whole-eq : (a b : List Orphan) → ◌≡◌ {A = View (List Orphan)} (whole a) (whole b) → a ≡ b
whole-eq a b e = cc

partial-eq : (a b : List Orphan) → ◌≡◌ {A = View (List Orphan)} (partial a) (partial b) → a ≡ b
partial-eq a b e = cc

view_of_scan-Shows :
    (allowed : List String) (r : Option (List Orphan) × List (OrphanScope × String))
    (os : List Orphan)
    → (r.0 ≡ none → r.1 ≢ [])
    → Shows (view_of_scan allowed r) os
    → (orphans : List Orphan) × (r.0 ≡ some orphans) × (shown_orphans allowed orphans ≡ os)
view_of_scan-Shows allowed (none, []) os d h = absurd (d refl refl)
view_of_scan-Shows allowed (none, e ∷ es) os d h = absurd (elim h [ inl q ↦ cc | inr q ↦ cc ])
view_of_scan-Shows allowed (some orphans, []) os d (inl q) = (orphans, refl, whole-eq _ os q)
view_of_scan-Shows allowed (some orphans, []) os d (inr q) = absurd (cc)
view_of_scan-Shows allowed (some orphans, e ∷ es) os d (inl q) = absurd (cc)
view_of_scan-Shows allowed (some orphans, e ∷ es) os d (inr q) = (orphans, refl, partial-eq _ os q)

refused-Shows : {P : Type 0} (why : Refusal) (os : List Orphan) → Shows (refused why) os → P
refused-Shows why os (inl q) = absurd (cc)
refused-Shows why os (inr q) = absurd (cc)

-- If a verified caller is shown a list of orphans, whole or partial, the caller has some sync
-- grant; and a service is on the list exactly if some unit that the caller may sync is in its
-- project and region, the listing there succeeds and has its name, and no unit that the caller
-- may sync declares it there.
pub handle_orphans-Shows :
    (list_names : OrphanScope → Result String (List String)) (h : Handler) (r : Request)
    (email : String) (os : List Orphan) (o : Orphan)
    → r.caller ≡ some email
    → Shows (handle_orphans list_names h r) os
    → (has_any_grant (get h.rbac) email ≡ true)
      × (Memᴰ o os ↔ IsOrphan list_names (scannable h email) o)
unfolding handle_orphans
handle_orphans-Shows list_names h r email os o caller shown = of_grant (rw caller at shown)
  where
    scanned :
        Shows
          (view_of_scan
            (projects_of (scannable h email))
            (detect_orphans list_names (scannable h email)))
          os
        → Memᴰ o os ↔ IsOrphan list_names (scannable h email) o
    scanned s =
        let units = scannable h email in
        let (orphans, found, listed) =
          view_of_scan-Shows (projects_of units) (detect_orphans list_names units) os
            (detect_orphans-none_iff list_names units).1 s in
        let reported = detect_orphans_iff list_names units orphans o found in
        let kept = mem-filter (λ (p : Orphan). contains (projects_of units) p.project) o orphans in
        rw (← listed) (
          λ m. reported.0 (kept.0 m).0,
          λ orphan. kept.1 (reported.1 orphan, covered-project units o orphan.0),
        )

    of_list :
        (all : Option (List SyncUnit))
        → Shows (scan_listed list_names (scannable h email) all) os
        → Memᴰ o os ↔ IsOrphan list_names (scannable h email) o
    of_list none s = refused-Shows unsupported os s
    of_list (some all) s = scanned s

    of_grant :
        Shows (orphans_for list_names h (some email)) os
        → (has_any_grant (get h.rbac) email ≡ true)
          × (Memᴰ o os ↔ IsOrphan list_names (scannable h email) o)
    of_grant s = elim (Bool-cases (has_any_grant (get h.rbac) email)) [
      | inl granted ↦ (granted, of_list h.list (rw granted at s))
      | inr denied ↦ refused-Shows forbidden os (rw denied at s)
    ]
