-- ===== src/Config/Parse.antt =====
-- Parse of internal/config/config.go, over the YAML decoder, whose failure is `none`, and the URL
-- parser of net/url. A loop over a map goes in the order of the association list.
use Prim.Native.Char.{code}
use Prim.Native.String
use run_cd.Base.{
  ℕ, zero, suc, String, ◌==◌, Bool, true, false, not, ◌&&◌, ◌||◌, Option, none, some, List, [], ◌∷◌,
  length, filter, leb, nat_eq, is_some, contains, lookup, cut, Result, ok, err, ◌then_check◌,
  first_error, reject, if◌then◌else◌,
}
use run_cd.Base.Int.{ℤ, pos, leb_ℤ}
use run_cd.Config.{SyncPolicy, Environment, Override, App, NotifyRule, Notify, Root}
use run_cd.Config.Window.{WindowError, validate}

pub data ParseError : Type 0 where
  yaml_error missing_slack_default empty_url invalid_url retry_unsupported self_heal_unsupported :
      ParseError
  unknown_environment unknown_field track_and_version not_type_and_name not_checked_type rule_name :
      String → ParseError
  repeated_entry unknown_rule unknown_slack unknown_rule_id ambiguous_rule_id threshold_missing :
      String → ParseError
  threshold_not_positive : String → ParseError
  declared_twice : String → String → ParseError
  bad_window : WindowError → ParseError

abbrev valid_managed_fields : List String
valid_managed_fields = "image" ∷ "traffic" ∷ "env" ∷ []

abbrev valid_precondition_types : List String
valid_precondition_types = "pubsubTopic" ∷ "pubsubSubscription" ∷ []

abbrev check_entry : String → Option (String × String) → Option ParseError
check_entry entry none = some (not_type_and_name entry)
check_entry entry (some (type, name)) =
    reject (name == "") (not_type_and_name entry)
    then_check reject (not (contains valid_precondition_types type)) (not_checked_type entry)

unfoldable pub validate_ignore_precondition : String → Option ParseError
validate_ignore_precondition entry = check_entry entry (cut b':' entry)

unfoldable pub validate_sync_not_implemented : SyncPolicy → Option ParseError
validate_sync_not_implemented sync =
    reject (is_some sync.retry) retry_unsupported
    then_check reject (is_some sync.self_heal) self_heal_unsupported

-- The library's parse of a URL: its scheme and host.
pub record Url : Type 0 where
  pub scheme : String
  pub host : String

abbrev check_url : Option Url → Option ParseError
check_url none = some invalid_url
check_url (some u) =
    reject ((not (u.scheme == "http") && not (u.scheme == "https")) || (u.host == "")) invalid_url

unfoldable pub validate_webhook_url : (String → Option Url) → String → Option ParseError
validate_webhook_url parse_url raw =
    reject (raw == "") empty_url then_check check_url (parse_url raw)

abbrev projects_of : Option Environment → List String
projects_of none = []
projects_of (some env) = env.projects

unfoldable pub project_key : String → String → String
project_key app project = String.◌++◌ app (String.◌++◌ "/" project)

-- the inner loop over the projects, with `seenAppProject`
unfoldable pub collide_projects : App → List String → List String → Result ParseError (List String)
collide_projects app [] seen = ok seen
collide_projects app (p ∷ rest) seen =
    let skipped = collide_projects app rest seen in
    let added = collide_projects app rest (project_key app.name p ∷ seen) in
    if contains app.exclude p
    then skipped
    else if contains seen (project_key app.name p)
    then err (declared_twice app.name p)
    else added

abbrev pub with_seen :
    (List String → Option ParseError) → Result ParseError (List String) → Option ParseError
with_seen rest (ok seen) = rest seen
with_seen rest (err e) = some e

unfoldable pub collide : Root → List App → List String → Option ParseError
unfolding collide_projects
collide root [] seen = none
collide root (app ∷ rest) seen =
    with_seen (collide root rest)
      (collide_projects app (projects_of (lookup app.env root.environments)) seen)

-- a loop with `seen` that rejects an entry that is listed twice
unfoldable pub repeated : List String → List String → Option ParseError
repeated seen [] = none
repeated seen (p ∷ rest) =
    let later = repeated (p ∷ seen) rest in
    reject (contains seen p) (repeated_entry p) then_check later

abbrev check_field : String → Option ParseError
check_field f = reject (not (contains valid_managed_fields f)) (unknown_field f)

unfoldable pub check_override : String × Override → Option ParseError
check_override (project, o) =
    reject (not (o.track == "") && not (o.version == "")) (track_and_version project)

unfoldable pub check_ignores : App → Option ParseError
check_ignores app =
    first_error check_field app.ignore_fields
    then_check first_error validate_ignore_precondition app.ignore_preconditions

abbrev wrapped : Option WindowError → Option ParseError
wrapped none = none
wrapped (some e) = some (bad_window e)

abbrev entries {ℓ} : {A : Type ℓ} → Option (List A) → List A
entries none = []
entries (some xs) = xs

unfoldable pub check_windows : SyncPolicy → Option ParseError
unfolding validate
check_windows sync = first_error (λ w. wrapped (validate w)) (entries sync.sync_windows)

abbrev is_name_char : ℕ → Bool
is_name_char c =
    (leb b'A' c && leb c b'Z')
    || ((leb b'a' c && leb c b'z')
        || ((leb b'0' c && leb c b'9') || (nat_eq c b'_' || nat_eq c b'-')))

abbrev are_name_chars : String → Bool
are_name_chars String.[] = true
are_name_chars (String.◌∷◌ c s) = is_name_char (code c) && are_name_chars s

-- ^[A-Za-z0-9_-]+$
unfoldable pub valid_rule_name : String → Bool
valid_rule_name s = not (s == "") && are_name_chars s

abbrev check_threshold : String → Option ℤ → Option ParseError
check_threshold on none = some (threshold_missing on)
check_threshold on (some n) = reject (leb_ℤ n (pos 0)) (threshold_not_positive on)

unfoldable pub check_rule : NotifyRule → Option ParseError
unfolding valid_rule_name
check_rule rule =
    reject (not (rule.name == "") && not (valid_rule_name rule.name)) (rule_name rule.name)
    then_check (if (rule.on == "syncFailed") || (rule.on == "healthRecovered")
        then none
        else if rule.on == "healthDegraded"
        then check_threshold rule.on rule.for_minutes
        else if rule.on == "outOfSyncGated"
        then check_threshold rule.on rule.for_hours
        else some (unknown_rule rule.on))

unfoldable pub rule_id : NotifyRule → String
rule_id rule = if rule.name == "" then rule.on else rule.name

-- ruleIDs[id]
unfoldable pub rule_count : List NotifyRule → String → ℕ
unfolding rule_id
rule_count rules id = length (filter (λ r. rule_id r == id) rules)

abbrev check_count : String → ℕ → Option ParseError
check_count r zero = some (unknown_rule_id r)
check_count r (suc zero) = none
check_count r (suc (suc n)) = some (ambiguous_rule_id r)

unfoldable pub check_environment_notify : Notify → Environment → Option ParseError
unfolding rule_count
check_environment_notify notify env =
    reject (not (env.notify.slack == "") && not (is_some (lookup env.notify.slack notify.slack)))
      (unknown_slack env.notify.slack)
    then_check first_error (λ r. check_count r (rule_count notify.rules r))
        (entries env.notify.rules)

-- the loop over the environments that rejects what is listed twice
unfoldable pub check_lists : String × Environment → Option ParseError
unfolding repeated
check_lists (name, env) = repeated [] env.projects then_check repeated [] env.folders

unfoldable pub check_slack : (String → Option Url) → Notify → Option ParseError
unfolding validate_webhook_url
check_slack parse_url notify =
    reject (some_rules notify.rules && (lookup_text "default" notify.slack == ""))
      missing_slack_default
    then_check first_error (λ entry. validate_webhook_url parse_url entry.1) notify.slack
  where
    some_rules : List NotifyRule → Bool
    some_rules [] = false
    some_rules (_ ∷ _) = true

    lookup_text : String → List (String × String) → String
    lookup_text k m = elim (lookup k m) [ none ↦ "" | some v ↦ v ]

-- the checks of Parse, in the order of the code
unfoldable pub check_root : (String → Option Url) → Root → Option ParseError
unfolding collide check_lists check_override check_ignores check_windows check_rule check_slack
    validate_sync_not_implemented check_environment_notify
check_root parse_url root =
    first_error
      (λ app.
        reject (not (is_some (lookup app.env root.environments))) (unknown_environment app.env))
      root.apps
    then_check collide root root.apps []
    then_check first_error check_lists root.environments
    then_check first_error check_field root.defaults.managed_fields
    then_check first_error (λ app. first_error check_override app.overrides) root.apps
    then_check first_error check_ignores root.apps
    then_check check_windows root.defaults.sync
    then_check first_error (λ e. check_windows e.1.sync) root.environments
    then_check validate_sync_not_implemented root.defaults.sync
    then_check first_error (λ e. validate_sync_not_implemented e.1.sync) root.environments
    then_check first_error check_rule root.notify.rules
    then_check check_slack parse_url root.notify
    then_check first_error (λ e. check_environment_notify root.notify e.1) root.environments

abbrev accepted : Root → Option ParseError → Result ParseError Root
accepted root none = ok root
accepted root (some e) = err e

abbrev pub parse_decoded : (String → Option Url) → Option Root → Result ParseError Root
parse_decoded parse_url none = err yaml_error
parse_decoded parse_url (some root) = accepted root (check_root parse_url root)

unfoldable pub parse :
    (String → Option Root) → (String → Option Url) → String → Result ParseError Root
parse unmarshal parse_url bytes = parse_decoded parse_url (unmarshal bytes)
