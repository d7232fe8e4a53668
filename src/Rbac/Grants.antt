-- ===== src/Rbac/Grants.antt =====
-- Who may sync: the loops over rules and scopes against the rules that grant, and the gate for
-- subjects with no grant at all.
use Prim.Native.String
use run_cd.Base.{
  String, ◌==◌, ◌≡◌, ◌≢◌, ◌↔◌, inl, inr, refl, subst, Bool, true, false, not, Option, none, some,
  List, [], Memᴰ, arith, eq_iff, eq_refl, any, any-intro, any-elim, cut, cut_prefix,
  cut_prefix-append, cut-append, Bool-cases, if◌then◌else◌, eq-false_iff,
}
use run_cd.Expander.{SyncUnit}
use run_cd.Rbac.{
  Rule, Config, Membership, members, can_sync_folders, has_any_grant, is_recognized_scope,
  part_recognized, app_recognized,
}
use run_cd.Rbac.Scopes.{
  Covers, everything, folder, environment, scope_matches-Covers, not_folder_of_env,
  not_folder_of_app, not_env_of_app, at_sign,
}

-- A rule for the subject has a scope with the property.
pub record HasScope (cfg : Option Config) (subject : String) (P : String → Type 0) : Type 0 where
  pub config : Config
  pub loaded : cfg ≡ some config
  pub rule : Rule
  pub listed : Memᴰ rule config.roles
  pub named : rule.subject ≡ subject
  pub scope : String
  pub in_scope : Memᴰ scope rule.scope
  pub holds : P scope

-- The two nested loops that can_sync_folders and has_any_grant share.
scan : (String → Bool) → String → Config → Bool
scan test subject cfg =
    any (λ rule. if rule.subject == subject then any test rule.scope else false) cfg.roles

module _ (test : String → Bool) (P : String → Type 0) (subject : String)
    (meaning : (s : String) → (test s ≡ true) ↔ P s) where
  scan-HasScope : (cfg : Config) → scan test subject cfg ≡ true → HasScope (some cfg) subject P
  unfolding scan
  scan-HasScope cfg h =
      let (rule, listed, e) =
        any-elim (λ (r : Rule). if r.subject == subject then any test r.scope else false) cfg.roles
          h in
      let named : (rule.subject == subject) ≡ true = ground arith in
      let (scope, m, passes) = any-elim test rule.scope (rw named at e) in
      record {
        config = cfg;
        loaded = refl;
        rule = rule;
        listed = listed;
        named = (eq_iff rule.subject subject).0 named;
        scope = scope;
        in_scope = m;
        holds = (meaning scope).0 passes;
      }

  HasScope-scan : (cfg : Config) → HasScope (some cfg) subject P → scan test subject cfg ≡ true
  unfolding scan
  HasScope-scan cfg g =
      let same : cfg ≡ g.config = ground (arith, g.loaded) in
      rw same (
        any-intro (λ (r : Rule). if r.subject == subject then any test r.scope else false)
          g.config.roles g.rule g.listed
          (rw ((eq_iff g.rule.subject subject).1 g.named)
            (any-intro test g.rule.scope g.scope g.in_scope ((meaning g.scope).1 g.holds))))

-- A subject may sync a unit exactly if a configuration is loaded and one of its rules for the
-- subject has a scope that covers the unit.
pub can_sync_folders_iff :
    (cfg : Option Config) (m : Membership) (subject : String) (unit : SyncUnit)
    → (can_sync_folders cfg m subject unit ≡ true) ↔ HasScope cfg subject (Covers m unit)
unfolding can_sync_folders scan
can_sync_folders_iff none m subject unit = (λ h. absurd (cc), λ g. absurd (cc g.loaded))
can_sync_folders_iff (some cfg) m subject unit =
    let meaning = scope_matches-Covers m unit in
    (
      scan-HasScope _ (Covers m unit) subject meaning cfg,
      HasScope-scan _ (Covers m unit) subject meaning cfg,
    )

-- A unit as configuration loading produces it: it names an app, a project and an environment.
pub record IsNamed (unit : SyncUnit) : Type 0 where
  pub app_named : unit.app ≢ ""
  pub project_named : unit.project ≢ ""
  pub env_named : unit.env ≢ ""

not_empty : (s : String) → s ≢ "" → not (s == "") ≡ true
not_empty s h = rw ((eq-false_iff (s == "") (eq_iff s "")).1 h)

recognized_of_prefixes :
    (scope : String)
    → part_recognized
        (cut_prefix "folder:" scope)
        (part_recognized (cut_prefix "env:" scope) (app_recognized (cut_prefix "app:" scope)))
      ≡ true
    → is_recognized_scope scope ≡ true
unfolding is_recognized_scope
recognized_of_prefixes scope h =
    rw h (elim (Bool-cases (scope == "*")) [ inl star ↦ rw star | inr rest ↦ rw rest ])

-- A scope that covers a named unit is one that the gate recognizes.
module _ (m : Membership) (unit : SyncUnit) (scope : String) (n : IsNamed unit)
    (e : members m "" ≡ []) where
  folder_not_empty : (id : String) → Memᴰ unit.project (members m id) → id ≢ ""
  folder_not_empty id p q =
      let none_there : Memᴰ unit.project [] =
        subst (λ (l : List String). Memᴰ unit.project l) e
          (subst (λ (k : String). Memᴰ unit.project (members m k)) q p) in
      elim none_there [ ]

  Covers-recognized : Covers m unit scope → is_recognized_scope scope ≡ true
  Covers-recognized (everything s) = unfold is_recognized_scope in rw (s, eq_refl "*")
  Covers-recognized (folder id s p) =
      recognized_of_prefixes scope
        (rw (s, cut_prefix-append "folder:" id) (not_empty id (folder_not_empty id p)))
  Covers-recognized (environment s) = recognized_of_prefixes scope (
      rw (not_folder_of_env scope unit.env s, s, cut_prefix-append "env:" unit.env)
        (not_empty unit.env n.env_named))
  Covers-recognized (Covers.app lacks s) =
      let text = String.◌++◌ unit.app (String.◌++◌ "@" unit.project) in
      let found : cut b'@' text ≡ some (unit.app, unit.project) =
        rw (at_sign unit.project) (cut-append "@" unit.app unit.project lacks) in
      recognized_of_prefixes scope (
        rw
          (
            not_folder_of_app scope text s,
            not_env_of_app scope text s,
            s,
            cut_prefix-append "app:" text,
            found,
          )
          (rw (not_empty unit.app n.app_named, not_empty unit.project n.project_named) refl))

-- Whoever may sync some unit with an app, a project and an environment passes the gate for
-- subjects with any grant, if the membership map has no projects under the empty folder.
pub can_sync-has_any_grant :
    (cfg : Option Config) (m : Membership) (subject : String) (unit : SyncUnit)
    → IsNamed unit
    → members m "" ≡ []
    → can_sync_folders cfg m subject unit ≡ true
    → has_any_grant cfg subject ≡ true
unfolding has_any_grant scan
can_sync-has_any_grant none m subject unit n e h =
    absurd (let g = (can_sync_folders_iff none m subject unit).0 h in cc g.loaded)
can_sync-has_any_grant (some cfg) m subject unit n e h =
    let g = (can_sync_folders_iff (some cfg) m subject unit).0 h in
    HasScope-scan is_recognized_scope (λ s. is_recognized_scope s ≡ true) subject
      (λ s. (λ k. k, λ k. k)) cfg
      (record {
        config = g.config;
        loaded = g.loaded;
        rule = g.rule;
        listed = g.listed;
        named = g.named;
        scope = g.scope;
        in_scope = g.in_scope;
        holds = Covers-recognized m unit g.scope n e g.holds;
      })
