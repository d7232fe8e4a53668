-- ===== src/Reconcile/Orphans/Declared.antt =====
-- What the map of expected apps holds.
use run_cd.Base.{
  String, ◌≡◌, ◌↔◌, ◌⊎◌, inl, inr, refl, sym, ◌∙◌, ap, true, false, List, [], ◌∷◌, Memᴰ, arith,
  eq_iff, Bool-cases, eq-false_iff, if◌then◌else◌, or_regroup, mem-cons_iff,
}
use run_cd.Expander.{SyncUnit}
use run_cd.Reconcile.Orphans.{
  OrphanScope, scope_eq, scope_of, Expected, mark, expected_from, expected_apps, apps_at, scopes,
}

pub scope_eq_iff : (a b : OrphanScope) → (scope_eq a b ≡ true) ↔ (a ≡ b)
scope_eq_iff a b = (
  λ h. ground (arith, eq_iff a.project b.project, eq_iff a.region b.region),
  λ e. ground (arith, eq_iff a.project b.project, eq_iff a.region b.region, e),
)

-- The app is declared in the scope by one of the units.
abbrev pub IsDeclared : List SyncUnit → OrphanScope → String → Type 0
IsDeclared units key app = (u : SyncUnit) × Memᴰ u units × (scope_of u ≡ key) × (u.app ≡ app)

apps_at-mark :
    (key k : OrphanScope) (app : String) (m : Expected)
    → apps_at k (mark key app m) ≡ (if scope_eq key k then app ∷ apps_at k m else apps_at k m)
unfolding mark apps_at
apps_at-mark key k app [] = refl
apps_at-mark key k app ((j, apps) ∷ m) = elim (Bool-cases (scope_eq j key)) [
  | inl same ↦ rw same (at_head ((scope_eq_iff j key).0 same))
  | inr other ↦
      rw (other, apps_at-mark key k app m)
        (elim (Bool-cases (scope_eq key k)) [
          | inl here ↦
              let apart : scope_eq j k ≡ false =
                (eq-false_iff (scope_eq j k) (scope_eq_iff j k)).1 (λ e.
                  (eq-false_iff (scope_eq j key) (scope_eq_iff j key)).0 other
                    (e ∙ sym ((scope_eq_iff key k).0 here))) in
              rw (here, apart) refl
          | inr there ↦ rw there refl
        ])
]
  where
    at_head :
        j ≡ key
        → (if scope_eq j k then app ∷ apps else apps_at k m) ≡ (
            if scope_eq key k
            then app ∷ (if scope_eq j k then apps else apps_at k m)
            else (if scope_eq j k then apps else apps_at k m))
    at_head e =
        rw e (elim (Bool-cases (scope_eq key k)) [
          | inl here ↦ rw here refl
          | inr there ↦ rw there refl
        ])

mem-mark :
    (key k : OrphanScope) (app a : String) (m : Expected)
    → Memᴰ a (apps_at k (mark key app m)) ↔ (Memᴰ a (apps_at k m) ⊎ ((key ≡ k) × (app ≡ a)))
mem-mark key k app a m = rw (apps_at-mark key k app m) (elim (Bool-cases (scope_eq key k)) [
  | inl same ↦
      let cons = mem-cons_iff a app (apps_at k m) in
      let key_same = (scope_eq_iff key k).0 same in
      rw same (
        λ h. elim (cons.0 h) [ inl e ↦ inr (key_same, sym e) | inr r ↦ inl r ],
        λ h. cons.1 (elim h [ inl r ↦ inr r | inr e ↦ inl (sym e.1) ]),
      )
  | inr other ↦
      let apart = (eq-false_iff (scope_eq key k) (scope_eq_iff key k)).0 other in
      rw other (λ h. inl h, λ h. elim h [ inl r ↦ r | inr e ↦ absurd (apart e.0) ])
])

mem-scopes-mark :
    (key k : OrphanScope) (app : String) (m : Expected)
    → Memᴰ k (scopes (mark key app m)) ↔ (Memᴰ k (scopes m) ⊎ (key ≡ k))
unfolding mark
mem-scopes-mark key k app [] = (
  λ h. elim ((mem-cons_iff k key []).0 h) [ inl e ↦ inr (sym e) | inr r ↦ inl r ],
  λ h. elim h [ inl r ↦ Memᴰ.tail r | inr e ↦ Memᴰ.head (sym e) ],
)
mem-scopes-mark key k app ((j, apps) ∷ m) = elim (Bool-cases (scope_eq j key)) [
  | inl same ↦
      let head_same = (scope_eq_iff j key).0 same in
      rw same (λ h. inl h, λ h. elim h [ inl r ↦ r | inr e ↦ Memᴰ.head (sym (head_same ∙ e)) ])
  | inr other ↦
      let ih = mem-scopes-mark key k app m in
      rw other (
        λ h. elim ((mem-cons_iff k j (scopes (mark key app m))).0 h) [
          | inl e ↦ inl (Memᴰ.head e)
          | inr r ↦ elim (ih.0 r) [ inl q ↦ inl (Memᴰ.tail q) | inr e ↦ inr e ]
        ],
        λ h. elim h [
          | inl q ↦ elim ((mem-cons_iff k j (scopes m)).0 q) [
            | inl e ↦ Memᴰ.head e
            | inr r ↦ Memᴰ.tail (ih.1 (inl r))
          ]
          | inr e ↦ Memᴰ.tail (ih.1 (inr e))
        ],
      )
]

-- What holds of a unit of a longer list.
IsDeclared-cons :
    (u : SyncUnit) (us : List SyncUnit) (key : OrphanScope) (app : String)
    → IsDeclared (u ∷ us) key app ↔ (((scope_of u ≡ key) × (u.app ≡ app)) ⊎ IsDeclared us key app)
IsDeclared-cons u us key app = (
  λ h.
      let (v, m, at, named) = h in
      elim ((mem-cons_iff v u us).0 m) [
        | inl e ↦ inl (ap scope_of (sym e) ∙ at, ap (λ (x : SyncUnit). x.app) (sym e) ∙ named)
        | inr r ↦ inr (v, r, at, named)
      ],
  λ h. elim h [ inl e ↦ (u, Memᴰ.head refl, e.0, e.1) | inr r ↦ (r.0, Memᴰ.tail r.1, r.2, r.3) ],
)

mem-expected_from :
    (units : List SyncUnit) (m : Expected) (key : OrphanScope) (app : String)
    → Memᴰ app (apps_at key (expected_from m units))
      ↔ (Memᴰ app (apps_at key m) ⊎ IsDeclared units key app)
unfolding expected_from
mem-expected_from [] m key app = (λ h. inl h, λ h. elim h [ inl r ↦ r | inr d ↦ elim d.1 [ ] ])
mem-expected_from (u ∷ us) m key app =
    or_regroup (mem-expected_from us (mark (scope_of u) u.app m) key app)
      (mem-mark (scope_of u) key u.app app m) (IsDeclared-cons u us key app)

-- Some unit is in the scope.
abbrev pub IsCovered : List SyncUnit → OrphanScope → Type 0
IsCovered units key = (u : SyncUnit) × Memᴰ u units × (scope_of u ≡ key)

IsCovered-cons :
    (u : SyncUnit) (us : List SyncUnit) (key : OrphanScope)
    → IsCovered (u ∷ us) key ↔ ((scope_of u ≡ key) ⊎ IsCovered us key)
IsCovered-cons u us key = (
  λ h.
      let (v, m, at) = h in
      elim ((mem-cons_iff v u us).0 m) [
        | inl e ↦ inl (ap scope_of (sym e) ∙ at)
        | inr r ↦ inr (v, r, at)
      ],
  λ h. elim h [ inl e ↦ (u, Memᴰ.head refl, e) | inr r ↦ (r.0, Memᴰ.tail r.1, r.2) ],
)

mem-scopes_from :
    (units : List SyncUnit) (m : Expected) (key : OrphanScope)
    → Memᴰ key (scopes (expected_from m units)) ↔ (Memᴰ key (scopes m) ⊎ IsCovered units key)
unfolding expected_from
mem-scopes_from [] m key = (λ h. inl h, λ h. elim h [ inl r ↦ r | inr d ↦ elim d.1 [ ] ])
mem-scopes_from (u ∷ us) m key =
    or_regroup (mem-scopes_from us (mark (scope_of u) u.app m) key)
      (mem-scopes-mark (scope_of u) key u.app m) (IsCovered-cons u us key)

pub mem-expected_apps :
    (units : List SyncUnit) (key : OrphanScope) (app : String)
    → Memᴰ app (apps_at key (expected_apps units)) ↔ IsDeclared units key app
unfolding expected_apps apps_at
mem-expected_apps units key app =
    let h = mem-expected_from units [] key app in
    (λ r. elim (h.0 r) [ inl q ↦ elim q [ ] | inr d ↦ d ], λ d. h.1 (inr d))

pub mem-scopes :
    (units : List SyncUnit) (key : OrphanScope)
    → Memᴰ key (scopes (expected_apps units)) ↔ IsCovered units key
unfolding expected_apps
mem-scopes units key =
    let h = mem-scopes_from units [] key in
    (λ r. elim (h.0 r) [ inl q ↦ elim q [ ] | inr d ↦ d ], λ d. h.1 (inr d))
