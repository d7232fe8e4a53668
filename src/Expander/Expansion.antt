-- ===== src/Expander/Expansion.antt =====
-- The expansion of a configuration as a comprehension, with no error and no state, and the
-- conditions under which the program's loops return it.
use run_cd.Base.{
  String, ◌≡◌, ◌≢◌, not, Option, none, some, List, [], ◌∷◌, ◌++◌, map, Memᴰ, All, Unique, contains,
  lookup, filter,
}
use run_cd.Config.{Environment, App, Root}
use run_cd.Expander.{SyncUnit, unit_key, unit_of}

-- The projects of an environment that an app does not exclude.
unfoldable pub included : App → Environment → List String → List String
included app env projects = filter (λ p. not (contains app.exclude p)) projects

abbrev pub app_units : Root → App → Option Environment → List SyncUnit
app_units root app none = []
app_units root app (some env) = map (unit_of root app env) (included app env env.projects)

unfoldable pub expansion : Root → List App → List SyncUnit
expansion root [] = []
expansion root (app ∷ rest) =
    app_units root app (lookup app.env root.environments) ++ expansion root rest

abbrev pub key_of : SyncUnit → String
key_of u = unit_key u.app u.project

-- The app's environment exists, and its overrides and exclusions name projects of it, none both.
abbrev pub IsBound : App → Option Environment → Type 0
IsBound app none = ⊥
IsBound app (some env) =
    All (λ o. Memᴰ o.0 env.projects) app.overrides
    × All (λ p. Memᴰ p env.projects × (lookup p app.overrides ≡ none)) app.exclude

-- What the program demands of a configuration.
pub record IsExpandable (root : Root) : Type 0 where
  pub bound : All (λ app. IsBound app (lookup app.env root.environments)) root.apps
  pub regions : All (λ u. u.region ≢ "") (expansion root root.apps)
  pub unique : Unique (map key_of (expansion root root.apps))
