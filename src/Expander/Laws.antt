-- ===== src/Expander/Laws.antt =====
-- The loops of Expand compute the expansion, exactly on the configurations that meet its demands.
use run_cd.Base.{
  String, ◌==◌, ◌≡◌, ◌≢◌, ◌↔◌, inl, inr, refl, subst, true, false, Option, none, some, List, [],
  ◌∷◌, ◌++◌, map, All, All-append, arith, contains, lookup, fresh, fresh-append, fresh-Unique,
  marked, marked-append, Result-cases, ok, err, Bool-cases, Option-cases, eq_iff, eq-false_iff,
}
use mathlib.Core.List.{append-nil, append_assoc, map-append}
use run_cd.Config.{Environment, App, Root}
use run_cd.Expander.{
  SyncUnit, Progress, unit_key, unit_of, expand_projects, expand_app, expand_apps, units_result,
  expand, check_app,
}
use run_cd.Expander.Expansion.{included, app_units, expansion, key_of, IsBound, IsExpandable}
use run_cd.Expander.Checks.{check_app_iff}

-- What the loops ask of the units that they are about to add.
abbrev HasRegions : List SyncUnit → Type 0
HasRegions us = All (λ u. u.region ≢ "") us

abbrev Accepts : List SyncUnit → Progress → Type 0
Accepts us s = HasRegions us × (fresh s.seen (map key_of us) ≡ true)

abbrev grown : List SyncUnit → Progress → Progress
grown us s = record { seen = marked s.seen (map key_of us); units = s.units ++ us }

module _ (root : Root) (app : App) (env : Environment) where
  units_at : List String → List SyncUnit
  units_at ps = map (unit_of root app env) (included app env ps)

  units_at-out :
      (p : String) (ps : List String)
      → contains app.exclude p ≡ true
      → units_at (p ∷ ps) ≡ units_at ps
  unfolding units_at included
  units_at-out p ps h = rw h

  units_at-in :
      (p : String) (ps : List String)
      → contains app.exclude p ≡ false
      → units_at (p ∷ ps) ≡ unit_of root app env p ∷ units_at ps
  unfolding units_at included
  units_at-in p ps h = rw h

  abbrev next : String → Progress → Progress
  next p s = record {
    seen = unit_key app.name p ∷ s.seen;
    units = s.units ++ unit_of root app env p ∷ [];
  }

  key_of-unit_of : (p : String) → key_of (unit_of root app env p) ≡ unit_key app.name p
  unfolding unit_of
  key_of-unit_of p = refl

  region_test :
      (p : String)
      → ((unit_of root app env p).region == "") ≡ false ↔ ((unit_of root app env p).region ≢ "")
  region_test p = eq-false_iff _ (eq_iff _ _)

  -- One unit is accepted together with those after it, or not at all.
  Accepts-cons :
      (p : String) (us : List SyncUnit) (s : Progress)
      → Accepts (unit_of root app env p ∷ us) s ↔ (
          (((unit_of root app env p).region == "") ≡ false)
          × ((contains s.seen (unit_key app.name p) ≡ false) × Accepts us (next p s)))
  unfolding fresh
  Accepts-cons p us s = rw (key_of-unit_of p) (
    λ h. ((region_test p).1 h.0.0, (ground arith, (h.0.1, ground arith))),
    λ h. (((region_test p).0 h.0, h.1.1.0), ground arith),
  )

  grown-next :
      (p : String) (us : List SyncUnit) (s : Progress)
      → grown us (next p s) ≡ grown (unit_of root app env p ∷ us) s
  unfolding marked
  grown-next p us s = rw (key_of-unit_of p, append_assoc) refl

  expand_projects-accepted :
      (ps : List String) (s : Progress)
      → Accepts (units_at ps) s
      → expand_projects root app env ps s ≡ ok (grown (units_at ps) s)
  unfolding expand_projects
  expand_projects-accepted [] s h = unfold units_at included marked in rw append-nil
  expand_projects-accepted (p ∷ ps) s h = elim (Bool-cases (contains app.exclude p)) [
    | inl out ↦
        rw (out, units_at-out p ps out)
          (expand_projects-accepted ps s (rw (units_at-out p ps out) at h))
    | inr inside ↦
        let split = (Accepts-cons p (units_at ps) s).0 (rw (units_at-in p ps inside) at h) in
        let rest = expand_projects-accepted ps (next p s) split.1.1 in
        rw (inside, units_at-in p ps inside, ← grown-next p (units_at ps) s)
          (rw (split.0, split.1.0) rest)
  ]

  expand_projects-ok :
      (ps : List String) (s t : Progress)
      → expand_projects root app env ps s ≡ ok t
      → Accepts (units_at ps) s
  unfolding expand_projects
  expand_projects-ok [] s t h = unfold units_at included fresh in (tt, refl)
  expand_projects-ok (p ∷ ps) s t h = elim (Bool-cases (contains app.exclude p)) [
    | inl out ↦ rw (units_at-out p ps out) (expand_projects-ok ps s t (ground arith))
    | inr inside ↦ rw (units_at-in p ps inside) (
        (Accepts-cons p (units_at ps) s).1
          (ground arith, (ground arith, expand_projects-ok ps (next p s) t (ground arith))))
  ]

module _ (root : Root) where
  abbrev env_of : App → Option Environment
  env_of app = lookup app.env root.environments

  Accepts-append :
      (us vs : List SyncUnit) (s : Progress)
      → Accepts (us ++ vs) s ↔ (Accepts us s × Accepts vs (grown us s))
  Accepts-append us vs s =
      let regions = All-append (λ u. u.region ≢ "") us vs in
      let seen = fresh-append s.seen (map key_of us) (map key_of vs) in
      rw map-append (
        λ h. (((regions.0 h.0).0, (seen.0 h.1).0), ((regions.0 h.0).1, (seen.0 h.1).1)),
        λ h. (regions.1 (h.0.0, h.1.0), seen.1 (h.0.1, h.1.1)),
      )

  grown-append : (us vs : List SyncUnit) (s : Progress) → grown vs (grown us s) ≡ grown (us ++ vs) s
  grown-append us vs s = rw (map-append, marked-append, append_assoc) refl

  expand_app-accepted :
      (app : App) (e : Option Environment) (s : Progress)
      → IsBound app e
      → Accepts (app_units root app e) s
      → expand_app root app e s ≡ ok (grown (app_units root app e) s)
  unfolding expand_app
  expand_app-accepted app none s b h = absurd b
  expand_app-accepted app (some env) s b h =
      rw ((check_app_iff app env).1 b)
        (unfold units_at in expand_projects-accepted root app env env.projects s h)

  expand_app-ok :
      (app : App) (e : Option Environment) (s t : Progress)
      → expand_app root app e s ≡ ok t
      → IsBound app e × Accepts (app_units root app e) s
  unfolding expand_app
  expand_app-ok app none s t h = absurd (cc)
  expand_app-ok app (some env) s t h = elim (Option-cases (check_app app env)) [
    | inl passed ↦ (
      (check_app_iff app env).0 passed,
      unfold units_at in expand_projects-ok root app env env.projects s t (rw passed at h),
    )
    | inr (e, failed) ↦ absurd (let q : err e ≡ ok t = rw failed at h in cc)
  ]

  abbrev AllBound : List App → Type 0
  AllBound apps = All (λ app. IsBound app (env_of app)) apps

  expand_apps-accepted :
      (apps : List App) (s : Progress)
      → AllBound apps
      → Accepts (expansion root apps) s
      → expand_apps root apps s ≡ ok (grown (expansion root apps) s)
  unfolding expand_apps expansion
  expand_apps-accepted [] s b h = unfold marked in rw append-nil
  expand_apps-accepted (app ∷ rest) s b h =
      let us = app_units root app (env_of app) in
      let split = (Accepts-append us (expansion root rest) s).0 h in
      rw
        (
          expand_app-accepted app (env_of app) s b.0 split.0,
          ← grown-append us (expansion root rest) s,
        )
        (expand_apps-accepted rest (grown us s) b.1 split.1)

  expand_apps-ok :
      (apps : List App) (s t : Progress)
      → expand_apps root apps s ≡ ok t
      → AllBound apps × Accepts (expansion root apps) s
  unfolding expand_apps expansion
  expand_apps-ok [] s t h = unfold fresh in (tt, (tt, refl))
  expand_apps-ok (app ∷ rest) s t h = elim (Result-cases (expand_app root app (env_of app) s)) [
    | inl (m, e) ↦
        let (bound, accepts) = expand_app-ok app (env_of app) s m e in
        let us = app_units root app (env_of app) in
        let same : m ≡ grown us s = cc (expand_app-accepted app (env_of app) s bound accepts) in
        let (later, last) = expand_apps-ok rest m t (rw e at h) in
        (
          (bound, later),
          (Accepts-append us (expansion root rest) s).1
              (accepts, subst (λ (k : Progress). Accepts (expansion root rest) k) same last),
        )
    | inr (x, e) ↦ absurd (let q : err x ≡ ok t = rw e at h in cc)
  ]

  demands_iff :
      IsExpandable root
      ↔ (AllBound root.apps × Accepts (expansion root root.apps) (record { seen = []; units = [] }))
  demands_iff =
      let unique = fresh-Unique (map key_of (expansion root root.apps)) in
      (
        λ d. (d.bound, (d.regions, unique.1 d.unique)),
        λ h. record { bound = h.0; regions = h.1.0; unique = unique.0 h.1.1 },
      )

-- Expand returns a list of units exactly if the configuration meets its demands and the list is
-- the comprehension over the apps and the projects of their environments, less the excluded
-- ones, in order. The demands: each app names an existing environment, its overrides and
-- exclusions name projects of it and share none, each unit has a region, and no two units share
-- a key.
pub expand_iff :
    (root : Root) (us : List SyncUnit)
    → (expand root ≡ ok us) ↔ (IsExpandable root × (us ≡ expansion root root.apps))
unfolding expand
expand_iff root us =
    let start : Progress = record { seen = []; units = [] } in
    (
      λ h. elim (Result-cases (expand_apps root root.apps start)) [
        | inl (t, e) ↦
            let demands = expand_apps-ok root root.apps start t e in
            let run = expand_apps-accepted root root.apps start demands.0 demands.1 in
            (
              (demands_iff root).1 demands,
              cc (let k : units_result (ok t) ≡ ok us = rw e at h in k, run, e),
            )
        | inr (x, e) ↦ absurd (let q : units_result (err x) ≡ ok us = rw e at h in cc)
      ],
      λ h.
          let demands = (demands_iff root).0 h.0 in
          rw (expand_apps-accepted root root.apps start demands.0 demands.1, h.1) refl,
    )
