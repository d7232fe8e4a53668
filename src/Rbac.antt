-- ===== src/Rbac.antt =====
-- internal/rbac/rbac.go: who may sync which unit. A nil *Config is `none`.
pub mod Scopes
pub mod Grants
pub mod Folders
use run_cd.Base.{
  String, ◌==◌, ◌≡◌, Bool, true, false, not, ◌&&◌, ◌||◌, Option, none, some, List, [], ◌∷◌, ◌++◌,
  any, contains, add_new, lookup, cut_prefix, cut, Result, ok, err, first_error, if◌then◌else◌,
}
use run_cd.Expander.{SyncUnit}

pub record Rule : Type 0 where
  pub subject : String
  pub role : String
  pub scope : List String

pub record Config : Type 0 where
  pub roles : List Rule

pub data ParseError : Type 0 where
  yaml_error : ParseError
  unknown_role : (subject role : String) → ParseError

abbrev checked : Config → Option ParseError → Result ParseError Config
checked cfg none = ok cfg
checked cfg (some e) = err e

abbrev check_decoded : (Config → Option ParseError) → Option Config → Result ParseError Config
check_decoded check none = err yaml_error
check_decoded check (some cfg) = checked cfg (check cfg)

unfoldable pub check_roles : Config → Option ParseError
check_roles cfg =
    first_error
      (λ rule.
        if not (rule.role == "admin") && not (rule.role == "syncer")
        then some (unknown_role rule.subject rule.role)
        else none)
      cfg.roles

-- Parse, over the YAML decoder `unmarshal`, whose failure is `none`.
unfoldable pub parse : (String → Option Config) → String → Result ParseError Config
unfolding check_roles
parse unmarshal bytes = check_decoded check_roles (unmarshal bytes)

-- map[string][]string; a missing key reads as the nil slice.
abbrev pub Membership : Type 0
Membership = List (String × List String)

abbrev entries {ℓ} : {A : Type ℓ} → Option (List A) → List A
entries none = []
entries (some xs) = xs

abbrev pub members : Membership → String → List String
members m folder = entries (lookup folder m)

abbrev pub names_unit : SyncUnit → Option (String × String) → Bool
names_unit unit none = false
names_unit unit (some (name, project)) = (name == unit.app) && (project == unit.project)

-- the last two tests of scopeMatches
abbrev pub app_matches : SyncUnit → Option String → Bool
app_matches unit none = false
app_matches unit (some app) = names_unit unit (cut b'@' app)

abbrev pub env_matches : SyncUnit → Option String → Bool → Bool
env_matches unit none next = next
env_matches unit (some env) next = env == unit.env

abbrev pub folder_matches : SyncUnit → Membership → Option String → Bool → Bool
folder_matches unit m none next = next
folder_matches unit m (some folder) next = contains (members m folder) unit.project

unfoldable pub scope_matches : String → SyncUnit → Membership → Bool
scope_matches scope unit m =
    if scope == "*"
    then true
    else folder_matches unit m (cut_prefix "folder:" scope)
        (env_matches unit (cut_prefix "env:" scope) (app_matches unit (cut_prefix "app:" scope)))

unfoldable pub can_sync_folders : Option Config → Membership → String → SyncUnit → Bool
can_sync_folders none m subject unit = false
can_sync_folders (some cfg) m subject unit =
    any
      (λ rule.
        if rule.subject == subject
        then any (λ scope. scope_matches scope unit m) rule.scope
        else false)
      cfg.roles

unfoldable pub can_sync : Option Config → String → SyncUnit → Bool
unfolding can_sync_folders
can_sync cfg subject unit = can_sync_folders cfg [] subject unit

abbrev pub named_parts : Option (String × String) → Bool
named_parts none = false
named_parts (some (name, project)) = not (name == "") && not (project == "")

abbrev pub app_recognized : Option String → Bool
app_recognized none = false
app_recognized (some app) = named_parts (cut b'@' app)

abbrev pub part_recognized : Option String → Bool → Bool
part_recognized none next = next
part_recognized (some part) next = not (part == "")

unfoldable pub is_recognized_scope : String → Bool
is_recognized_scope scope =
    if scope == "*"
    then true
    else part_recognized (cut_prefix "folder:" scope)
        (part_recognized (cut_prefix "env:" scope) (app_recognized (cut_prefix "app:" scope)))

unfoldable pub has_any_grant : Option Config → String → Bool
has_any_grant none subject = false
has_any_grant (some cfg) subject =
    any (λ rule. if rule.subject == subject then any is_recognized_scope rule.scope else false)
      cfg.roles

-- `seen` and `ids` hold the same entries, so one list stands for both.
abbrev pub add_folder : List String → Option String → List String
add_folder ids none = ids
add_folder ids (some id) = add_new ids id

unfoldable pub folders_of_scopes : List String → List String → List String
unfolding add_new
folders_of_scopes ids [] = ids
folders_of_scopes ids (scope ∷ rest) =
    folders_of_scopes (add_folder ids (cut_prefix "folder:" scope)) rest

unfoldable pub folders_of_rules : List String → List Rule → List String
folders_of_rules ids [] = ids
folders_of_rules ids (rule ∷ rest) = folders_of_rules (folders_of_scopes ids rule.scope) rest

unfoldable pub folder_scopes : Option Config → List String
unfolding folders_of_rules folders_of_scopes
folder_scopes none = []
folder_scopes (some cfg) = folders_of_rules [] cfg.roles

-- Store: two values, each swapped on its own.
pub record Store : Type 0 where
  pub v : Option Config
  pub folder : Option Membership

unfoldable pub set : Option Config → Store → Store
set cfg s = record s { v = cfg }

unfoldable pub get : Store → Option Config
get s = s.v

unfoldable pub set_folder_membership : Membership → Store → Store
set_folder_membership m s = record s { folder = some m }

unfoldable pub folder_membership : Store → Membership
folder_membership s = entries s.folder

unfoldable pub new_store : Option Config → Store
unfolding set set_folder_membership
new_store cfg = set_folder_membership [] (set cfg (record { v = none; folder = none }))
