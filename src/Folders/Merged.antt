-- ===== src/Folders/Merged.antt =====
-- Which projects an environment has after its folders are resolved.
use run_cd.Base.{
  String, ◌≡◌, ◌≢◌, ◌↔◌, ◌⊎◌, inl, inr, refl, List, [], ◌∷◌, Memᴰ, Unique, Unique-add_all,
  mem-add_all, add_all, or_regroup, Result, ok, err,
}
use run_cd.Config.{Environment}
use run_cd.Folders.{Resolver, merged_projects, merge_result, merge_folders, resolve_environment}

-- The project is a member of a folder of the list that resolves.
abbrev pub InFolders : Resolver → List String → String → Type 0
InFolders resolver folders k =
    (folder : String) × Memᴰ folder folders
    × ((projects : List String) × (resolver folder ≡ ok projects) × Memᴰ k projects)

-- The answer has the project.
abbrev InAnswer : Result String (List String) → String → Type 0
InAnswer r k = (projects : List String) × (r ≡ ok projects) × Memᴰ k projects

InFolders-cons :
    (resolver : Resolver) (folder : String) (rest : List String) (k : String)
    → InFolders resolver (folder ∷ rest) k
      ↔ (InAnswer (resolver folder) k ⊎ InFolders resolver rest k)
InFolders-cons resolver folder rest k = (
  to_parts,
  λ h. elim h [
    | inl answer ↦ (folder, Memᴰ.head refl, answer)
    | inr (f, m, answer) ↦ (f, Memᴰ.tail m, answer)
  ],
)
  where
    to_parts :
        InFolders resolver (folder ∷ rest) k
        → InAnswer (resolver folder) k ⊎ InFolders resolver rest k
    to_parts (f, Memᴰ.head e, answer) = inl (rw (← e) answer)
    to_parts (f, Memᴰ.tail m, answer) = inr (f, m, answer)

merge_result_lem :
    (ids : List String) (r : Result String (List String))
    → Unique ids
    → Unique (merge_result ids r)
      × ((k : String) → Memᴰ k (merge_result ids r) ↔ (Memᴰ k ids ⊎ InAnswer r k))
merge_result_lem ids (err e) u =
    (u, λ k. (λ m. inl m, λ h. elim h [ inl m ↦ m | inr (ps, q, m) ↦ absurd (cc) ]))
merge_result_lem ids (ok projects) u = (
  Unique-add_all ids projects u,
  λ k.
      let both = mem-add_all ids projects k in
      (
        λ m. elim (both.0 m) [ inl old ↦ inl old | inr new ↦ inr (projects, refl, new) ],
        λ h. elim h [
          | inl old ↦ both.1 (inl old)
          | inr (ps, q, m) ↦ let same : projects ≡ ps = cc in both.1 (inr (rw same m))
        ],
      ),
)

merge_folders_lem :
    (resolver : Resolver) (folders ids : List String)
    → Unique ids
    → Unique (merge_folders resolver ids folders)
      × ((k : String)
          → Memᴰ k (merge_folders resolver ids folders)
            ↔ (Memᴰ k ids ⊎ InFolders resolver folders k))
unfolding merge_folders
merge_folders_lem resolver [] ids u =
    (u, λ k. (λ m. inl m, λ h. elim h [ inl m ↦ m | inr (f, m, answer) ↦ elim m [ ] ]))
merge_folders_lem resolver (folder ∷ rest) ids u =
    let (unique, member) = merge_result_lem ids (resolver folder) u in
    let (all, reached) =
      merge_folders_lem resolver rest (merge_result ids (resolver folder)) unique in
    (all, λ k. or_regroup (reached k) (member k) (InFolders-cons resolver folder rest k))

-- An environment with folders has, after they are resolved, each of its declared projects and
-- each member of a folder that resolves, once, and no other. A folder that fails to resolve adds
-- nothing and takes nothing away: the members of the environment's other folders are still
-- there.
pub resolve_environment_lem :
    (resolver : Resolver) (env : Environment)
    → env.folders ≢ []
    → Unique (resolve_environment resolver env).projects
      × ((k : String)
          → Memᴰ k (resolve_environment resolver env).projects
            ↔ (Memᴰ k env.projects ⊎ InFolders resolver env.folders k))
unfolding resolve_environment
resolve_environment_lem resolver env some_folder = split env.folders some_folder
  where
    split :
        (folders : List String)
        → folders ≢ []
        → Unique (merged_projects resolver env.projects folders)
          × ((k : String)
              → Memᴰ k (merged_projects resolver env.projects folders)
                ↔ (Memᴰ k env.projects ⊎ InFolders resolver folders k))
    split [] h = absurd (h refl)
    split (folder ∷ rest) h =
        let (unique, member) =
          merge_folders_lem resolver (folder ∷ rest) (add_all [] env.projects)
            (Unique-add_all [] env.projects tt) in
        (
          unique,
          λ k.
              let declared = mem-add_all [] env.projects k in
              (
                λ m. elim ((member k).0 m) [
                  | inl d ↦ elim (declared.0 d) [ inl none_yet ↦ elim none_yet [ ] | inr p ↦ inl p ]
                  | inr f ↦ inr f
                ],
                λ h. elim h [
                  | inl p ↦ (member k).1 (inl (declared.1 (inr p)))
                  | inr f ↦ (member k).1 (inr f)
                ],
              ),
        )
