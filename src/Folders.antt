-- ===== src/Folders.antt =====
-- internal/folders/resolve.go: the projects of Cloud folders, merged into environments and collected
-- for access control. What the Resource Manager answers for a folder is a parameter.
pub mod Merged
use run_cd.Base.{String, List, [], ◌∷◌, ◌++◌, map, add_all, Result, ok, err}
use run_cd.Config.{Environment, Root}

-- Resolver: ProjectsInFolder, the same for each call of one resolution.
abbrev pub Resolver : Type 0
Resolver = String → Result String (List String)

abbrev pub merge_result : List String → Result String (List String) → List String
merge_result ids (err e) = ids
merge_result ids (ok projects) = add_all ids projects

-- the loop over byEnv[name], with `merged`
unfoldable pub merge_folders : Resolver → List String → List String → List String
merge_folders resolver ids [] = ids
merge_folders resolver ids (folder ∷ rest) =
    merge_folders resolver (merge_result ids (resolver folder)) rest

abbrev add_error : Result String (List String) → List String → List String
add_error (err e) errors = e ∷ errors
add_error (ok projects) errors = errors

unfoldable pub folder_errors : Resolver → List String → List String
folder_errors resolver [] = []
folder_errors resolver (folder ∷ rest) = add_error (resolver folder) (folder_errors resolver rest)

abbrev pub merged_projects : Resolver → List String → List String → List String
merged_projects resolver projects [] = projects
merged_projects resolver projects (folder ∷ rest) =
    merge_folders resolver (add_all [] projects) (folder ∷ rest)

-- An environment without folders is left as it is.
unfoldable pub resolve_environment : Resolver → Environment → Environment
unfolding merge_folders
resolve_environment resolver env = record env {
  projects = merged_projects resolver env.projects env.folders;
}

abbrev environment_errors : Resolver → List (String × Environment) → List String
environment_errors resolver [] = []
environment_errors resolver ((name, env) ∷ rest) =
    folder_errors resolver env.folders ++ environment_errors resolver rest

-- ResolveConfig: the copy of the configuration, and the errors that are joined.
unfoldable pub resolve_config : Resolver → Root → Root × List String
unfolding resolve_environment folder_errors
resolve_config resolver root = (
  record root {
    environments = map (λ e. (e.0, resolve_environment resolver e.1)) root.environments;
  },
  environment_errors resolver root.environments,
)

abbrev with_folder :
    String → Result String (List String) → List (String × List String) → List (String × List String)
with_folder folder (err e) m = m
with_folder folder (ok projects) m = (folder, projects) ∷ m

unfoldable pub membership_of : Resolver → List String → List (String × List String)
membership_of resolver [] = []
membership_of resolver (folder ∷ rest) =
    with_folder folder (resolver folder) (membership_of resolver rest)

-- ResolveMembership, likewise
unfoldable pub resolve_membership :
    Resolver → List String → List (String × List String) × List String
unfolding membership_of folder_errors
resolve_membership resolver folder_ids =
    let unique = add_all [] folder_ids in
    (membership_of resolver unique, folder_errors resolver unique)
