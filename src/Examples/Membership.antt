-- ===== src/Examples/Membership.antt =====
-- An environment whose folders are resolved, one of them without success.
use run_cd.Base.{
  String, ◌==◌, ◌≡◌, ◌↔◌, ◌⊎◌, refl, List, [], ◌∷◌, Memᴰ, Unique, Result, ok, err, if◌then◌else◌,
}
use run_cd.Config.{Environment}
use run_cd.Examples.{prod}
use run_cd.Folders.{Resolver, resolve_environment}
use run_cd.Folders.Merged.{InFolders, resolve_environment_lem}

abbrev resolver : Resolver
resolver folder = if folder == "42" then ok ("p2" ∷ "p3" ∷ []) else err "permission denied"

abbrev with_folders : Environment
with_folders = record prod { folders = "7" ∷ "42" ∷ [] }

resolve_environment_run :
    (resolve_environment resolver with_folders).projects ≡ "p1" ∷ "p2" ∷ "p3" ∷ []
unfolding resolve_environment run_cd.Base.add_all run_cd.Base.contains
resolve_environment_run = refl

resolve_environment_lem_example :
    Unique (resolve_environment resolver with_folders).projects
    × ((k : String)
        → Memᴰ k (resolve_environment resolver with_folders).projects
          ↔ (Memᴰ k prod.projects ⊎ InFolders resolver ("7" ∷ "42" ∷ []) k))
resolve_environment_lem_example = resolve_environment_lem resolver with_folders (λ e. cc)
