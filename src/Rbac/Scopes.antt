-- ===== src/Rbac/Scopes.antt =====
-- What a scope means: the grammar of scopes, read declaratively, against the code's prefix tests.
use Prim.Native.String
use text.Mathlib.TextLemmas.{nil-append, cons-append}
use run_cd.Base.{
  ◌==◌, ◌≡◌, ◌↔◌, inl, inr, refl, ap, ◌∙◌, subst, String, and-eq-true_iff, append_of_cut,
  cut_prefix-ne, eq_refl, Bool, true, none, some, Memᴰ, eq_iff, contains_iff, Lacks, cut_prefix,
  cut, cut_prefix-append, append_of_cut_prefix, cut-append, Bool-cases, Option-cases,
}
use run_cd.Expander.{SyncUnit}
use run_cd.Rbac.{
  Membership, members, names_unit, app_matches, env_matches, folder_matches, scope_matches,
}

-- A scope covers a unit if it is the wildcard, names a folder that holds the unit's project, names
-- the unit's environment, or names the unit's app and project.
pub data Covers (m : Membership) (unit : SyncUnit) (scope : String) : Type 0 where
  everything : scope ≡ "*" → Covers m unit scope
  folder :
      (id : String)
      → scope ≡ String.◌++◌ "folder:" id
      → Memᴰ unit.project (members m id)
      → Covers m unit scope
  environment : scope ≡ String.◌++◌ "env:" unit.env → Covers m unit scope
  app :
      Lacks b'@' unit.app
      → scope ≡ String.◌++◌ "app:" (String.◌++◌ unit.app (String.◌++◌ "@" unit.project))
      → Covers m unit scope

-- Only one of the three prefixes can stand at the head of a scope.
pub not_folder_of_env : (s x : String) → s ≡ String.◌++◌ "env:" x → cut_prefix "folder:" s ≡ none
not_folder_of_env s x e = rw e (cut_prefix-ne "f" "e" "older:" "nv:" x refl)

pub not_folder_of_app : (s x : String) → s ≡ String.◌++◌ "app:" x → cut_prefix "folder:" s ≡ none
not_folder_of_app s x e = rw e (cut_prefix-ne "f" "a" "older:" "pp:" x refl)

pub not_env_of_app : (s x : String) → s ≡ String.◌++◌ "app:" x → cut_prefix "env:" s ≡ none
not_env_of_app s x e = rw e (cut_prefix-ne "e" "a" "nv:" "pp:" x refl)

pub at_sign : (p : String) → String.◌++◌ "@" p ≡ String.◌∷◌ "@" p
at_sign p = rw (cons-append, nil-append) refl

module _ (m : Membership) (unit : SyncUnit) (scope : String) where
  names_unit-Covers :
      (text : String)
      → scope ≡ String.◌++◌ "app:" text
      → names_unit unit (cut b'@' text) ≡ true
      → Covers m unit scope
  names_unit-Covers text e h = elim (Option-cases (cut b'@' text)) [
    | inl missing ↦ absurd (let q : names_unit unit none ≡ true = rw missing at h in cc)
    | inr ((name, project), parts) ↦
        let both : names_unit unit (some (name, project)) ≡ true = rw parts at h in
        let tests = (and-eq-true_iff (name == unit.app) (project == unit.project)).0 both in
        let n = (eq_iff name unit.app).0 tests.0 in
        let p = (eq_iff project unit.project).0 tests.1 in
        let (whole, lacks) = append_of_cut "@" text name project parts in
        Covers.app (subst (Lacks b'@') n lacks) (rw (e, whole, n, p, ← at_sign unit.project) refl)
  ]

  scope_matches_sound : scope_matches scope unit m ≡ true → Covers m unit scope
  unfolding scope_matches
  scope_matches_sound h = elim (Bool-cases (scope == "*")) [
    | inl star ↦ everything ((eq_iff scope "*").0 star)
    | inr rest ↦ elim (Option-cases (cut_prefix "folder:" scope)) [
      | inr (id, f) ↦
          folder id (append_of_cut_prefix "folder:" scope id f)
            ((contains_iff (members m id) unit.project).0 (rw (rest, f) at h))
      | inl no_folder ↦ elim (Option-cases (cut_prefix "env:" scope)) [
        | inr (env, f) ↦ environment (
            append_of_cut_prefix "env:" scope env f
            ∙ ap (String.◌++◌ "env:") ((eq_iff env unit.env).0 (rw (rest, no_folder, f) at h)))
        | inl no_env ↦ elim (Option-cases (cut_prefix "app:" scope)) [
          | inr (text, f) ↦
              names_unit-Covers text (append_of_cut_prefix "app:" scope text f)
                (rw (rest, no_folder, no_env, f) at h)
          | inl no_app ↦ absurd (
              let q : app_matches unit none ≡ true = rw (rest, no_folder, no_env, no_app) at h in
              cc)
        ]
      ]
    ]
  ]

  -- Past the wildcard, the tests of the three prefixes.
  after_star : Bool
  after_star =
      folder_matches unit m (cut_prefix "folder:" scope)
        (env_matches unit (cut_prefix "env:" scope) (app_matches unit (cut_prefix "app:" scope)))

  scope_matches_of_after_star : after_star ≡ true → scope_matches scope unit m ≡ true
  unfolding scope_matches after_star
  scope_matches_of_after_star h =
      rw h (elim (Bool-cases (scope == "*")) [ inl star ↦ rw star | inr rest ↦ rw rest ])

  scope_matches_complete : Covers m unit scope → scope_matches scope unit m ≡ true
  unfolding scope_matches
  scope_matches_complete (everything e) = rw (e, eq_refl "*")
  scope_matches_complete (folder id e member) = scope_matches_of_after_star (
      unfold after_star in
      rw (e, cut_prefix-append "folder:" id) ((contains_iff (members m id) unit.project).1 member))
  scope_matches_complete (environment e) = scope_matches_of_after_star (
      unfold after_star in
      rw (not_folder_of_env scope unit.env e, e, cut_prefix-append "env:" unit.env)
        (eq_refl unit.env))
  scope_matches_complete (Covers.app lacks e) =
      let text = String.◌++◌ unit.app (String.◌++◌ "@" unit.project) in
      let found : cut b'@' text ≡ some (unit.app, unit.project) =
        rw (at_sign unit.project) (cut-append "@" unit.app unit.project lacks) in
      scope_matches_of_after_star (
        unfold after_star in
        rw
          (
            not_folder_of_app scope text e,
            not_env_of_app scope text e,
            e,
            cut_prefix-append "app:" text,
            found,
          )
          (rw (eq_refl unit.app) (eq_refl unit.project)))

-- The code's tests on a scope pass exactly if the scope covers the unit. An app whose name holds
-- an '@' is covered by no "app:" scope.
pub scope_matches-Covers :
    (m : Membership) (unit : SyncUnit) (scope : String)
    → (scope_matches scope unit m ≡ true) ↔ Covers m unit scope
scope_matches-Covers m unit scope =
    (scope_matches_sound m unit scope, scope_matches_complete m unit scope)
