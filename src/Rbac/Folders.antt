-- ===== src/Rbac/Folders.antt =====
-- FolderScopes collects the folders that some rule's scope names, each once.
use Prim.Native.String
use run_cd.Base.{
  String, ◌≡◌, ◌↔◌, ◌⊎◌, inl, inr, refl, sym, ap, ◌∙◌, subst, Option, none, some, List, [], ◌∷◌,
  Memᴰ, Unique, Unique-add_new, mem-add_new, cut_prefix, cut_prefix-append, append_of_cut_prefix,
  Option-cases, or_regroup, mem-cons_iff,
}
use run_cd.Rbac.{Rule, Config, add_folder, folders_of_scopes, folders_of_rules, folder_scopes}

abbrev folder_scope : String → String
folder_scope id = String.◌++◌ "folder:" id

-- Some rule of the configuration has the scope "folder:" and the id.
abbrev pub Mentions : Option Config → String → Type 0
Mentions none id = ⊥
Mentions (some cfg) id =
    (rule : Rule) × Memᴰ rule cfg.roles × Memᴰ (String.◌++◌ "folder:" id) rule.scope

Unique-add_folder : (ids : List String) (o : Option String) → Unique ids → Unique (add_folder ids o)
Unique-add_folder ids none u = u
Unique-add_folder ids (some id) u = Unique-add_new ids id u

mem-add_folder :
    (ids : List String) (scope k : String)
    → Memᴰ k (add_folder ids (cut_prefix "folder:" scope)) ↔ (Memᴰ k ids ⊎ (folder_scope k ≡ scope))
mem-add_folder ids scope k = elim (Option-cases (cut_prefix "folder:" scope)) [
  | inl missing ↦ rw missing (
    λ m. inl m,
    λ h. elim h [
      | inl m ↦ m
      | inr e ↦ absurd (
          let q : cut_prefix "folder:" scope ≡ some k = rw (← e) (cut_prefix-append "folder:" k) in
          cc)
    ],
  )
  | inr (id, found) ↦
      let whole = append_of_cut_prefix "folder:" scope id found in
      rw found (
        λ m. elim ((mem-add_new ids id k).0 m) [
          | inl r ↦ inl r
          | inr e ↦ inr (ap folder_scope e ∙ sym whole)
        ],
        λ h. (mem-add_new ids id k).1 (elim h [
          | inl r ↦ inl r
          | inr e ↦
              let q : cut_prefix "folder:" scope ≡ some k =
                rw (← e) (cut_prefix-append "folder:" k) in
              inr (cc)
        ]),
      )
]

folders_of_scopes_lem :
    (ids scopes : List String)
    → Unique ids
    → Unique (folders_of_scopes ids scopes)
      × ((k : String)
          → Memᴰ k (folders_of_scopes ids scopes) ↔ (Memᴰ k ids ⊎ Memᴰ (folder_scope k) scopes))
unfolding folders_of_scopes
folders_of_scopes_lem ids [] u =
    (u, λ k. (λ m. inl m, λ h. elim h [ inl m ↦ m | inr m ↦ elim m [ ] ]))
folders_of_scopes_lem ids (scope ∷ rest) u =
    let o = cut_prefix "folder:" scope in
    let (unique, member) =
      folders_of_scopes_lem (add_folder ids o) rest (Unique-add_folder ids o u) in
    (
      unique,
      λ k.
          or_regroup (member k) (mem-add_folder ids scope k)
            (mem-cons_iff (folder_scope k) scope rest),
    )

abbrev InRules : List Rule → String → Type 0
InRules rules k = (rule : Rule) × Memᴰ rule rules × Memᴰ (folder_scope k) rule.scope

InRules-cons :
    (rule : Rule) (rest : List Rule) (k : String)
    → InRules (rule ∷ rest) k ↔ (Memᴰ (folder_scope k) rule.scope ⊎ InRules rest k)
InRules-cons rule rest k = (
  λ (r, listed, m). split r listed m,
  λ h. elim h [ inl m ↦ (rule, Memᴰ.head refl, m) | inr (r, listed, m) ↦ (r, Memᴰ.tail listed, m) ],
)
  where
    split :
        (r : Rule)
        → Memᴰ r (rule ∷ rest)
        → Memᴰ (folder_scope k) r.scope
        → Memᴰ (folder_scope k) rule.scope ⊎ InRules rest k
    split r (Memᴰ.head e) m = inl (subst (λ (q : Rule). Memᴰ (folder_scope k) q.scope) e m)
    split r (Memᴰ.tail l) m = inr (r, l, m)

folders_of_rules_lem :
    (ids : List String) (rules : List Rule)
    → Unique ids
    → Unique (folders_of_rules ids rules)
      × ((k : String) → Memᴰ k (folders_of_rules ids rules) ↔ (Memᴰ k ids ⊎ InRules rules k))
unfolding folders_of_rules
folders_of_rules_lem ids [] u =
    (u, λ k. (λ m. inl m, λ h. elim h [ inl m ↦ m | inr (r, l, m) ↦ elim l [ ] ]))
folders_of_rules_lem ids (rule ∷ rest) u =
    let (unique, member) = folders_of_scopes_lem ids rule.scope u in
    let (all, reached) = folders_of_rules_lem (folders_of_scopes ids rule.scope) rest unique in
    (all, λ k. or_regroup (reached k) (member k) (InRules-cons rule rest k))

-- FolderScopes returns each folder that some rule's scope names, once, and no other.
pub folder_scopes_lem :
    (cfg : Option Config)
    → Unique (folder_scopes cfg) × ((id : String) → Memᴰ id (folder_scopes cfg) ↔ Mentions cfg id)
unfolding folder_scopes
folder_scopes_lem none = (tt, λ id. (λ m. elim m [ ], λ h. absurd h))
folder_scopes_lem (some cfg) =
    let (unique, member) = folders_of_rules_lem [] cfg.roles tt in
    (
      unique,
      λ id. (
        λ m. elim ((member id).0 m) [ inl l ↦ elim l [ ] | inr r ↦ r ],
        λ h. (member id).1 (inr h),
      ),
    )
