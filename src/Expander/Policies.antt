-- ===== src/Expander/Policies.antt =====
-- The sync policy that a unit of Expand ends with.
use run_cd.Base.{
  String, ◌≡◌, refl, sym, subst, Option, none, some, List, [], ◌∷◌, map, All, All-append, ok,
  lookup,
}
use run_cd.Config.{Environment, App, Root}
use run_cd.Config.Policy.{Inherits, merge-Inherits}
use run_cd.Expander.{SyncUnit, unit_of, expand}
use run_cd.Expander.Expansion.{included, app_units, expansion}
use run_cd.Expander.Laws.{expand_iff}

module _ (root : Root) where
  -- The unit's environment is there, and its policy overrides the defaults.
  abbrev pub HasPolicy : SyncUnit → Type 0
  HasPolicy u =
      (env : Environment) × (lookup u.env root.environments ≡ some env)
      × Inherits root.defaults.sync env.sync u.sync

  unit_of-HasPolicy :
      (app : App) (env : Environment) (projects : List String)
      → lookup app.env root.environments ≡ some env
      → All HasPolicy (map (unit_of root app env) projects)
  unfolding unit_of
  unit_of-HasPolicy app env [] found = tt
  unit_of-HasPolicy app env (p ∷ ps) found =
      ((env, found, merge-Inherits root.defaults.sync env.sync), unit_of-HasPolicy app env ps found)

  app_units-HasPolicy :
      (app : App) (o : Option Environment)
      → lookup app.env root.environments ≡ o
      → All HasPolicy (app_units root app o)
  app_units-HasPolicy app none found = tt
  app_units-HasPolicy app (some env) found =
      unit_of-HasPolicy app env (included app env env.projects) found

  expansion-HasPolicy : (apps : List App) → All HasPolicy (expansion root apps)
  unfolding expansion
  expansion-HasPolicy [] = tt
  expansion-HasPolicy (app ∷ rest) =
      (All-append HasPolicy (app_units root app (lookup app.env root.environments))
          (expansion root rest)).1
        (app_units-HasPolicy app _ refl, expansion-HasPolicy rest)

-- Where Expand returns units, each unit's environment is in the configuration, and each setting
-- of the unit's sync policy by itself, that is auto, retry, selfHeal, syncWindows and observe,
-- is the environment's where the environment sets it, and otherwise that of the defaults.
pub expand-HasPolicy :
    (root : Root) (us : List SyncUnit) → expand root ≡ ok us → All (HasPolicy root) us
expand-HasPolicy root us h =
    subst (All (HasPolicy root)) (sym ((expand_iff root us).0 h).1)
      (expansion-HasPolicy root root.apps)
