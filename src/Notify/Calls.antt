-- ===== src/Notify/Calls.antt =====
-- internal/notify/notify.go: the calls of Send that Evaluate makes.
use run_cd.Base.{
  ℕ, String, ◌==◌, ◌≡◌, inl, inr, refl, Bool, true, false, not, Option, none, some, List, [], ◌∷◌,
  Memᴰ, Bool-cases, Result, ok, err, if◌then◌else◌, if_cases,
}
use run_cd.Config.{NotifyRule}
use run_cd.Reconcile.{SyncResult}
use run_cd.Base.Int.{ℤ}
use run_cd.Notify.{
  Key, Message, Sent, World, Outside, Outcome, sent, debounced, failed, NotifyError,
}
use run_cd.Notify.Rules.{
  Evaluator, Call, applies, key_of, notify, error_of, eval_sync_failed, is_shorter, when_due,
  is_degraded, eval_health_degraded, eval_out_of_sync_gated, after_clear, after_recovered,
  after_recovery_claim, recover_one, for_rules, eval_health_recovered, eval_rule, call_of, evaluate,
}
use run_cd.Notify.Sends.{
  Adds, Adds-refl, Adds-trans, Adds-map, Calls, execute-Adds, maybe_notify-Adds,
}

-- What a call of Evaluate sends: to its sink, under the key of one of its rules.
abbrev pub IsRuled : Call → Sent → Type 0
IsRuled c s =
    (s.sink ≡ c.chosen_sink)
    × ((rule : NotifyRule) × (applies c.allowed rule ≡ true)
        × Memᴰ rule c.evaluator.rules
        × (s.key ≡ key_of c rule))

-- A rule of the call that applies.
abbrev IsActive : Call → NotifyRule → Type 0
IsActive c rule = (applies c.allowed rule ≡ true) × Memᴰ rule c.evaluator.rules

module _ (c : Call) where
  abbrev Rules : World → World × List NotifyError → Type 0
  Rules w r = Adds (IsRuled c) w r.0

  notify-IsRuled :
      (rule : NotifyRule) (message : Message) (w : World)
      → IsActive c rule
      → Adds (IsRuled c) w (notify c rule message w).0
  notify-IsRuled rule message w a =
      Adds-map (Calls c.chosen_sink message (key_of c rule)) (IsRuled c) w _
        (λ s calls. (calls.0, (rule, a.0, a.1, calls.2)))
        (maybe_notify-Adds c.outside _ _ c.chosen_sink message (key_of c rule) w)

  error_of-Rules : (w : World) (r : World × Outcome) → Adds (IsRuled c) w r.0 → Rules w (error_of r)
  error_of-Rules w (next, sent) h = h
  error_of-Rules w (next, debounced) h = h
  error_of-Rules w (next, failed e) h = h

  said :
      (rule : NotifyRule) (message : Message) (w : World)
      → IsActive c rule
      → Rules w (error_of (notify c rule message w))
  said rule message w a = error_of-Rules w _ (notify-IsRuled rule message w a)

  when_due-Rules :
      (rule : NotifyRule) (message : ℕ → Message) (seconds : ℕ) (n : Option ℤ) (since : Option ℕ)
      (w : World)
      → IsActive c rule
      → Rules w (when_due c rule message seconds n since w)
  when_due-Rules rule message seconds none since w a = Adds-refl _ w
  when_due-Rules rule message seconds (some n) none w a = Adds-refl _ w
  when_due-Rules rule message seconds (some n) (some since) w a =
      if_cases (Rules w) (is_shorter c.clock since n seconds) _ _ (Adds-refl _ w)
        (said rule (message since) w a)

  after_clear-Rules :
      (key : Key) (w : World) (r : World × Result String Bool)
      → Adds (IsRuled c) w r.0
      → Rules w (after_clear key r)
  after_clear-Rules key w (next, ok b) h = h
  after_clear-Rules key w (next, err e) h = h

  after_recovered-Rules :
      (key : Key) (w : World) (r : World × Outcome)
      → Adds (IsRuled c) w r.0
      → Rules w (after_recovered c key r)
  after_recovered-Rules key w (next, sent) h =
      after_clear-Rules key w _ (Adds-trans _ w next _ h (execute-Adds _ c.outside key _ next))
  after_recovered-Rules key w (next, debounced) h =
      Adds-trans _ w next _ h (execute-Adds _ c.outside key _ next)
  after_recovered-Rules key w (next, failed e) h =
      Adds-trans _ w next _ h (execute-Adds _ c.outside key _ next)

  after_recovery_claim-Rules :
      (rule : NotifyRule) (key : Key) (w : World) (r : World × Result String Bool)
      → IsActive c rule
      → Adds (IsRuled c) w r.0
      → Rules w (after_recovery_claim c rule key r)
  after_recovery_claim-Rules rule key w (next, err e) a h = h
  after_recovery_claim-Rules rule key w (next, ok false) a h = h
  after_recovery_claim-Rules rule key w (next, ok true) a h =
      after_recovered-Rules key w _ (Adds-trans _ w next _ h (notify-IsRuled rule _ next a))

  recover_one-Rules :
      (rule sibling : NotifyRule) (w : World)
      → IsActive c rule
      → Rules w (recover_one c rule sibling w)
  unfolding recover_one
  recover_one-Rules rule sibling w a =
      if_cases (Rules w) _ _ _ (Adds-refl _ w)
        (after_recovery_claim-Rules rule (key_of c sibling) w _ a (execute-Adds _ c.outside _ _ w))

  for_rules-Rules :
      (body : NotifyRule → World → World × List NotifyError) (rules : List NotifyRule)
      → ((rule : NotifyRule) (w : World) → Memᴰ rule rules → Rules w (body rule w))
      → (w : World) → Rules w (for_rules body rules w)
  unfolding for_rules
  for_rules-Rules body [] f w = Adds-refl _ w
  for_rules-Rules body (rule ∷ rules) f w =
      Adds-trans _ w (body rule w).0 _ (f rule w (Memᴰ.head refl))
        (for_rules-Rules body rules (λ r v m. f r v (Memᴰ.tail m)) (body rule w).0)

  active_rule-Rules :
      (rule : NotifyRule) (w : World)
      → IsActive c rule
      → Rules w (
          if rule.on == "syncFailed"
          then eval_sync_failed c rule w
          else if rule.on == "healthDegraded"
          then eval_health_degraded c rule w
          else if rule.on == "outOfSyncGated"
          then eval_out_of_sync_gated c rule w
          else if rule.on == "healthRecovered"
          then eval_health_recovered c rule w
          else (w, []))
  unfolding eval_sync_failed eval_health_degraded eval_out_of_sync_gated eval_health_recovered
  active_rule-Rules rule w a =
      let stays = Adds-refl (IsRuled c) w in
      let cases = if_cases (Rules w) in
      cases (rule.on == "syncFailed") _ _
        (cases (not c.result.deploy_failed) _ _ stays (said rule _ w a))
        (cases (rule.on == "healthDegraded") _ _
          (cases (not (is_degraded c.result.health)) _ _ stays (when_due-Rules rule _ _ _ _ w a))
          (cases (rule.on == "outOfSyncGated") _ _
            (cases _ _ _ stays (when_due-Rules rule _ _ _ _ w a))
            (cases (rule.on == "healthRecovered") _ _
              (cases (is_degraded c.result.health) _ _ stays (
                for_rules-Rules (recover_one c rule) c.evaluator.rules
                  (λ sibling v m. recover_one-Rules rule sibling v a) w))
              stays)))

  eval_rule-Rules :
      (rule : NotifyRule) (w : World) → Memᴰ rule c.evaluator.rules → Rules w (eval_rule c rule w)
  unfolding eval_rule
  eval_rule-Rules rule w m = elim (Bool-cases (applies c.allowed rule)) [
    | inl active ↦ rw active (active_rule-Rules rule w (active, m))
    | inr inactive ↦ rw inactive (Adds-refl (IsRuled c) w)
  ]

pub evaluate-IsRuled :
    (e : Evaluator) (x : Outside) (res : SyncResult) (clock : ℕ) (w : World)
    → Adds (IsRuled (call_of e x res clock)) w (evaluate e x res clock w).0
unfolding evaluate
evaluate-IsRuled e x res clock w =
    let c = call_of e x res clock in
    for_rules-Rules c (eval_rule c) e.rules (λ rule v m. eval_rule-Rules c rule v m) w
