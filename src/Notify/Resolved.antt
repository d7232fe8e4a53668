-- ===== src/Notify/Resolved.antt =====
-- internal/notify/notify.go: the messages of Evaluate are those of the sink and the rules that
-- ResolvedRules shows.
use run_cd.Base.{
  ℕ, String, ◌==◌, ◌≡◌, ◌≢◌, inl, inr, refl, subst, ap, true, not, Option, some, List, [], ◌∷◌, map,
  Memᴰ, Bool-cases, lookup, if◌then◌else◌, if_cases, eq_iff, eq-false_iff,
}
use run_cd.Config.{NotifyRule, Environment}
use run_cd.Reconcile.{SyncResult}
use run_cd.Notify.{Key, Sent, World, Outside}
use run_cd.Notify.Rules.{
  Evaluator, EnvRules, rule_id, rule_key, applies, ids_of, env_rules, resolved_rules, sink_of,
  named_sink, call_of, evaluate,
}
use run_cd.Notify.Sends.{Adds, Adds-map}
use run_cd.Notify.Calls.{IsRuled, evaluate-IsRuled}

lookup-map {ℓ κ} :
    {A : Type ℓ} {B : Type κ} (f : A → B) (k : String) (m : List (String × A)) (b : B)
    → lookup k (map (λ (x : String × A). (x.0, f x.1)) m) ≡ some b
    → (a : A) × (lookup k m ≡ some a) × (f a ≡ b)
unfolding lookup
lookup-map f k [] b h = absurd (cc)
lookup-map f k ((j, a) ∷ m) b h = elim (Bool-cases (j == k)) [
  | inl same ↦ let e : some (f a) ≡ some b = rw same at h in (a, rw same refl, (cc))
  | inr other ↦ let (a', found, e) = lookup-map f k m b (rw other at h) in (a', rw other found, e)
]

mem-ids_of :
    (allowed : Option (List String)) (rule : NotifyRule) (rules : List NotifyRule)
    → applies allowed rule ≡ true
    → Memᴰ rule rules
    → Memᴰ (rule_id rule) (ids_of allowed rules)
mem-ids_of allowed rule [] h m = elim m [ ]
mem-ids_of allowed rule (r ∷ rules) h (Memᴰ.head e) =
    let active : applies allowed r ≡ true = rw e at h in rw active (Memᴰ.head (ap rule_id e))
mem-ids_of allowed rule (r ∷ rules) h (Memᴰ.tail m) =
    if_cases (λ ids. Memᴰ (rule_id rule) ids) (applies allowed r) _ _
      (Memᴰ.tail (mem-ids_of allowed rule rules h m)) (mem-ids_of allowed rule rules h m)

-- The default sink has the name, and each sink that an environment names is there.
pub record HasSinks (e : Evaluator) (default_sink_name : String) : Type 0 where
  pub default_is : lookup default_sink_name e.sinks ≡ some e.sink
  pub named :
      (name : String) (env : Environment)
      → lookup name e.environments ≡ some env
      → env.notify.slack ≢ ""
      → (hook : String) × (lookup env.notify.slack e.sinks ≡ some hook)

sink_of-env_rules :
    (e : Evaluator) (default_sink_name name : String) (env : Environment)
    → HasSinks e default_sink_name
    → lookup name e.environments ≡ some env
    → lookup (env_rules e.rules default_sink_name env).sink e.sinks ≡ some (sink_of e (some env))
unfolding env_rules
sink_of-env_rules e default_sink_name name env h there =
    of_slack env.notify.slack (λ d. h.named name env there d)
  where
    of_slack :
        (slack : String)
        → (slack ≢ "" → (hook : String) × (lookup slack e.sinks ≡ some hook))
        → lookup (if not (slack == "") then slack else default_sink_name) e.sinks
          ≡ some (if not (slack == "") then named_sink (lookup slack e.sinks) e.sink else e.sink)
    of_slack slack f = elim (Bool-cases (slack == "")) [
      | inl unnamed ↦ rw unnamed h.default_is
      | inr given ↦
          let (hook, found) = f ((eq-false_iff (slack == "") (eq_iff slack "")).0 given) in
          rw (given, found) refl
    ]

-- A call of Send that is shown: to the named sink, for the unit, under the key of a listed rule.
abbrev pub IsShown : Evaluator → EnvRules → SyncResult → Sent → Type 0
IsShown e shown res s =
    (lookup shown.sink e.sinks ≡ some s.sink)
    × (s.key.application ≡ res.unit.app)
    × (s.key.project ≡ res.unit.project)
    × ((rule : NotifyRule) × Memᴰ rule e.rules
        × Memᴰ (rule_id rule) shown.rules
        × (s.key.rule ≡ rule_key e.decimal rule))

-- The rules and the sink of a call for a unit of the environment are those shown for it.
IsRuled-IsShown :
    (e : Evaluator) (x : Outside) (res : SyncResult) (clock : ℕ) (default_sink_name : String)
    (env : Environment) (s : Sent)
    → HasSinks e default_sink_name
    → lookup res.unit.env e.environments ≡ some env
    → IsRuled (call_of e x res clock) s
    → IsShown e (env_rules e.rules default_sink_name env) res s
unfolding env_rules
IsRuled-IsShown e x res clock default_sink_name env s h found (sink, (rule, active, there, key)) =
    let chosen : s.sink ≡ sink_of e (some env) = rw found at sink in
    let listed : applies env.notify.rules rule ≡ true = rw found at active in
    (
      rw chosen (sink_of-env_rules e default_sink_name res.unit.env env h found),
      ap (λ (k : Key). k.application) key,
      ap (λ (k : Key). k.project) key,
      (
        rule,
        there,
        mem-ids_of env.notify.rules rule e.rules listed there,
        ap (λ (k : Key). k.rule) key,
      ),
    )

-- If the default sink has its name and each sink that an environment names is there, then
-- Evaluate only adds calls of Send, and each goes to the sink that ResolvedRules shows for the
-- unit's environment, for that unit, under the debounce key of a rule whose id ResolvedRules
-- lists there.
pub evaluate-IsShown :
    (e : Evaluator) (x : Outside) (res : SyncResult) (clock : ℕ) (w : World)
    (default_sink_name : String) (shown : EnvRules)
    → HasSinks e default_sink_name
    → lookup res.unit.env (resolved_rules e default_sink_name) ≡ some shown
    → Adds (IsShown e shown res) w (evaluate e x res clock w).0
unfolding resolved_rules
evaluate-IsShown e x res clock w default_sink_name shown h there =
    let (env, found, e_shown) =
      lookup-map (env_rules e.rules default_sink_name) res.unit.env e.environments shown there in
    Adds-map (IsRuled (call_of e x res clock)) (IsShown e shown res) w _
      (λ s ruled.
        subst (λ (r : EnvRules). IsShown e r res s) e_shown
          (IsRuled-IsShown e x res clock default_sink_name env s h found ruled))
      (evaluate-IsRuled e x res clock w)
