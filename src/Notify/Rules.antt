-- ===== src/Notify/Rules.antt =====
-- internal/notify/notify.go: the rules, the evaluator of the rules on the result of a pass, and what
-- the dashboard shows of them. A wall-clock time and a time of a result are in seconds.
use run_cd.Base.{
  ℕ, suc, ◌+◌, ◌*◌, String, ◌==◌, Bool, true, false, not, ◌&&◌, ◌||◌, Option, none, some, List, [],
  ◌∷◌, ◌++◌, map, ltb, is_some, contains, lookup, Result, ok, err, if◌then◌else◌,
}
use run_cd.Base.Int.{ℤ, pos, negsuc}
use run_cd.Config.{NotifyRule, Environment}
use run_cd.Reconcile
use run_cd.Reconcile.{SyncResult, Health, Status}
use run_cd.Notify.{
  Key, Message, sync_failed, degraded_since, gated_since, recovered, World, Outside, NotifyError,
  recovery_claim_failed, recovery_confirm_failed, Outcome, sent, debounced, failed, or_default,
  execute, maybe_notify, release_row, claim_recovery_row, clear_row,
}
use Prim.Native.String

-- The evaluator's fields, and fmt's decimal notation of a number.
pub record Evaluator : Type 0 where
  pub decimal : ℤ → String
  pub sink : String
  pub sinks : List (String × String)
  pub rules : List NotifyRule
  pub environments : List (String × Environment)
  pub debounce_interval : ℤ
  pub claim_ttl : ℤ

unfoldable pub rule_id : NotifyRule → String
rule_id rule = if not (rule.name == "") then rule.name else rule.on

-- the kind with its threshold. A nil threshold panics; every caller has tested it before.
abbrev with_threshold : (ℤ → String) → String → Option ℤ → String
with_threshold decimal kind none = kind
with_threshold decimal kind (some n) = String.◌++◌ kind (decimal n)

unfoldable pub rule_key : (ℤ → String) → NotifyRule → String
rule_key decimal rule =
    if not (rule.name == "")
    then rule.name
    else if rule.on == "healthDegraded"
    then with_threshold decimal "healthDegraded:" rule.for_minutes
    else if rule.on == "outOfSyncGated"
    then with_threshold decimal "outOfSyncGated:" rule.for_hours
    else rule.on

-- a nil list means every rule
abbrev pub applies : Option (List String) → NotifyRule → Bool
applies none rule = true
applies (some ids) rule = contains ids (rule_id rule)

abbrev pub ids_of : Option (List String) → List NotifyRule → List String
ids_of allowed [] = []
ids_of allowed (rule ∷ rules) =
    let rest = ids_of allowed rules in if applies allowed rule then rule_id rule ∷ rest else rest

pub record EnvRules : Type 0 where
  pub sink : String
  pub rules : List String

unfoldable pub env_rules : List NotifyRule → String → Environment → EnvRules
env_rules rules default_sink_name env = record {
  sink = if not (env.notify.slack == "") then env.notify.slack else default_sink_name;
  rules = ids_of env.notify.rules rules;
}

unfoldable pub resolved_rules : Evaluator → String → List (String × EnvRules)
unfolding env_rules
resolved_rules e default_sink_name =
    map (λ (x : String × Environment). (x.0, env_rules e.rules default_sink_name x.1))
      e.environments

abbrev pub named_sink : Option String → String → String
named_sink none default = default
named_sink (some s) default = s

abbrev pub sink_of : Evaluator → Option Environment → String
sink_of e none = e.sink
sink_of e (some env) =
    if not (env.notify.slack == "")
    then named_sink (lookup env.notify.slack e.sinks) e.sink
    else e.sink

abbrev pub allowed_of : Option Environment → Option (List String)
allowed_of none = none
allowed_of (some env) = env.notify.rules

-- One call of Evaluate: what it is given, what it has chosen, and time.Now.
pub record Call : Type 0 where
  pub evaluator : Evaluator
  pub outside : Outside
  pub result : SyncResult
  pub chosen_sink : String
  pub allowed : Option (List String)
  pub clock : ℕ

abbrev pub key_of : Call → NotifyRule → Key
key_of c rule = record {
  application = c.result.unit.app;
  project = c.result.unit.project;
  rule = rule_key c.evaluator.decimal rule;
}

abbrev ttl_of : Call → ℕ
ttl_of c = or_default c.evaluator.claim_ttl 30

abbrev pub notify : Call → NotifyRule → Message → World → World × Outcome
notify c rule message w =
    maybe_notify c.outside (or_default c.evaluator.debounce_interval 3600) (ttl_of c) c.chosen_sink
      message (key_of c rule) w

abbrev pub error_of : World × Outcome → World × List NotifyError
error_of (w, sent) = (w, [])
error_of (w, debounced) = (w, [])
error_of (w, failed e) = (w, e ∷ [])

unfoldable pub eval_sync_failed : Call → NotifyRule → World → World × List NotifyError
eval_sync_failed c rule w =
    if not c.result.deploy_failed
    then (w, [])
    else error_of (
        notify c rule (sync_failed c.result.unit.app c.result.unit.project c.result.failure_message)
          w)

-- time.Since(since) < n units
abbrev pub is_shorter : ℕ → ℕ → ℤ → ℕ → Bool
is_shorter clock since (pos n) seconds = ltb clock (since + n * seconds)
is_shorter clock since (negsuc n) seconds = ltb (clock + suc n * seconds) since

-- The message with its time, if the threshold and the time are set and the time is long enough ago.
abbrev pub when_due :
    Call → NotifyRule → (ℕ → Message) → ℕ → Option ℤ → Option ℕ → World → World × List NotifyError
when_due c rule message seconds none since w = (w, [])
when_due c rule message seconds (some n) none w = (w, [])
when_due c rule message seconds (some n) (some since) w =
    if is_shorter c.clock since n seconds
    then (w, [])
    else error_of (notify c rule (message since) w)

abbrev pub is_degraded : Health → Bool
is_degraded Reconcile.Health.unset = false
is_degraded Reconcile.Health.invalid = false
is_degraded Reconcile.Health.missing = false
is_degraded Reconcile.Health.healthy = false
is_degraded Reconcile.Health.progressing = false
is_degraded Reconcile.Health.degraded = true

abbrev is_out_of_sync : Status → Bool
is_out_of_sync Reconcile.Status.unset = false
is_out_of_sync Reconcile.Status.invalid = false
is_out_of_sync Reconcile.Status.missing = false
is_out_of_sync Reconcile.Status.synced = false
is_out_of_sync Reconcile.Status.out_of_sync = true

unfoldable pub eval_health_degraded : Call → NotifyRule → World → World × List NotifyError
eval_health_degraded c rule w =
    if not (is_degraded c.result.health)
    then (w, [])
    else when_due c rule (degraded_since c.result.unit.app c.result.unit.project) 60
        rule.for_minutes c.result.health_since w

abbrev auto_sync_enabled : Option Bool → Bool
auto_sync_enabled none = false
auto_sync_enabled (some b) = b

unfoldable pub eval_out_of_sync_gated : Call → NotifyRule → World → World × List NotifyError
eval_out_of_sync_gated c rule w =
    if not (is_out_of_sync c.result.status) || auto_sync_enabled c.result.unit.sync.auto
    then (w, [])
    else when_due c rule (gated_since c.result.unit.app c.result.unit.project) 3600 rule.for_hours
        c.result.status_since w

abbrev pub after_clear : Key → World × Result String Bool → World × List NotifyError
after_clear key (w, ok _) = (w, [])
after_clear key (w, err e) = (w, recovery_confirm_failed key e ∷ [])

-- after the message: the marker is cleared if it was sent, else the claim is released
abbrev pub after_recovered : Call → Key → World × Outcome → World × List NotifyError
after_recovered c key (w, sent) = after_clear key (execute c.outside key (λ now. clear_row) w)
after_recovered c key (w, debounced) = ((execute c.outside key (λ now. release_row) w).0, [])
after_recovered c key (w, failed e) = ((execute c.outside key (λ now. release_row) w).0, e ∷ [])

abbrev pub after_recovery_claim :
    Call → NotifyRule → Key → World × Result String Bool → World × List NotifyError
after_recovery_claim c rule key (w, err e) = (w, recovery_claim_failed key e ∷ [])
after_recovery_claim c rule key (w, ok false) = (w, [])
after_recovery_claim c rule key (w, ok true) =
    after_recovered c key (notify c rule (recovered c.result.unit.app c.result.unit.project) w)

-- One healthDegraded rule in the loop of evalHealthRecovered.
unfoldable pub recover_one : Call → NotifyRule → NotifyRule → World → World × List NotifyError
recover_one c rule sibling w =
    let key = key_of c sibling in
    if not (sibling.on == "healthDegraded")
      || ((sibling.name == "" && not (is_some sibling.for_minutes))
          || not (applies c.allowed sibling))
    then (w, [])
    else after_recovery_claim c rule key (execute c.outside key (claim_recovery_row (ttl_of c)) w)

-- A loop over rules that joins the errors.
unfoldable pub for_rules :
    (NotifyRule → World → World × List NotifyError)
    → List NotifyRule
    → World
    → World × List NotifyError
for_rules body [] w = (w, [])
for_rules body (rule ∷ rules) w =
    let (w1, errors) = body rule w in
    let (w2, later) = for_rules body rules w1 in (w2, errors ++ later)

unfoldable pub eval_health_recovered : Call → NotifyRule → World → World × List NotifyError
unfolding recover_one for_rules
eval_health_recovered c rule w =
    if is_degraded c.result.health
    then (w, [])
    else for_rules (recover_one c rule) c.evaluator.rules w

unfoldable pub eval_rule : Call → NotifyRule → World → World × List NotifyError
unfolding eval_sync_failed eval_health_degraded eval_out_of_sync_gated eval_health_recovered
eval_rule c rule w =
    if not (applies c.allowed rule)
    then (w, [])
    else if rule.on == "syncFailed"
    then eval_sync_failed c rule w
    else if rule.on == "healthDegraded"
    then eval_health_degraded c rule w
    else if rule.on == "outOfSyncGated"
    then eval_out_of_sync_gated c rule w
    else if rule.on == "healthRecovered"
    then eval_health_recovered c rule w
    else (w, [])

abbrev pub call_of : Evaluator → Outside → SyncResult → ℕ → Call
call_of e x res clock =
    let env = lookup res.unit.env e.environments in
    record {
      evaluator = e;
      outside = x;
      result = res;
      chosen_sink = sink_of e env;
      allowed = allowed_of env;
      clock = clock;
    }

unfoldable pub evaluate : Evaluator → Outside → SyncResult → ℕ → World → World × List NotifyError
unfolding eval_rule for_rules
evaluate e x res clock w = for_rules (eval_rule (call_of e x res clock)) e.rules w
