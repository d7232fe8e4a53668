-- ===== src/Expander/Checks.antt =====
-- The checks that one app passes: its overrides and exclusions name projects of its environment.
use run_cd.Base.{
  String, ◌≡◌, ◌↔◌, refl, Bool, true, false, Option, none, some, Memᴰ, contains, contains_iff,
  lookup, is_some, if◌then◌else◌, then_check_iff, first_error-All, iff_trans, both_iff,
  is_some_error_iff, test_error_iff,
}
use run_cd.Config.{Environment, Override, App}
use run_cd.Expander.{check_app, check_overrides, check_excludes}
use run_cd.Expander.Expansion.{IsBound}

exclude_error_iff {ℓ κ} :
    {E : Type ℓ} {P : Type κ} (A : Type 0) (b : Bool) (o : Option A) (e f : E)
    → (b ≡ true) ↔ P
    → ((if b then (if is_some o then some f else none) else some e) ≡ none) ↔ (P × (o ≡ none))
exclude_error_iff A true o e f h =
    let inner = is_some_error_iff o f in (λ k. (h.0 refl, inner.0 k), λ k. inner.1 k.1)
exclude_error_iff A false o e f h =
    (λ k. absurd (cc), λ k. absurd (let q : false ≡ true = h.1 k.0 in cc))

-- An app passes the checks exactly if it is bound to the environment.
pub check_app_iff :
    (app : App) (env : Environment) → (check_app app env ≡ none) ↔ IsBound app (some env)
unfolding check_app check_overrides check_excludes
check_app_iff app env =
    let member = λ (k : String). contains_iff env.projects k in
    iff_trans (then_check_iff (check_overrides app env) (check_excludes app env)) (
      both_iff
        (first_error-All _ (λ o. Memᴰ o.0 env.projects) app.overrides
          (λ o. test_error_iff (contains env.projects o.0) _ (member o.0)))
        (first_error-All _ (λ p. Memᴰ p env.projects × (lookup p app.overrides ≡ none)) app.exclude
          (λ p.
            exclude_error_iff Override (contains env.projects p) (lookup p app.overrides) _ _
              (member p))))
