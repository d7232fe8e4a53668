-- ===== src/Examples/Notifications.antt =====
-- A unit that two rules have reported as degraded and that recovers, and the statements on one row.
use run_cd.Base.{
  ℕ, String, ◌==◌, ◌≡◌, ◌<◌, refl, true, Option, none, some, List, [], ◌∷◌, All, arith, lookup,
  if◌then◌else◌, Bool-cases, inl, inr,
}
use run_cd.Base.Int.{ℤ, pos, eq_ℤ}
use run_cd.Config.{NotifyRule, Environment}
use run_cd.Reconcile.{SyncResult, Health}
use run_cd.Reconcile.Unit.{blank}
use run_cd.Notify.{
  DebounceRow, Key, Sent, recovered, World, Outside, Outcome, sent, set_row, claim_row, confirm_row,
  maybe_notify,
}
use run_cd.Notify.Rules.{Evaluator, EnvRules, evaluate, resolved_rules, env_rules, ids_of, rule_id}
use run_cd.Notify.Debounce.{Event, claim, release, claim_recovery, grants, statement_of}
use run_cd.Notify.Debounce.Spaced.{confirm_row-Spaced}
use run_cd.Notify.Debounce.Expiring.{Succeeds}
use run_cd.Notify.Debounce.Exclusive.{claim-Exclusive}
use run_cd.Notify.Markers.{IsRecorded, maybe_notify-IsRecorded}
use run_cd.Notify.Sends.{Adds}
use run_cd.Notify.Resolved.{HasSinks, IsShown, evaluate-IsShown}
use run_cd.Examples.{api_unit, plain}

abbrev degraded_for : ℤ → NotifyRule
degraded_for n = record { on = "healthDegraded"; name = ""; for_minutes = some n; for_hours = none }

abbrev on_recovery : NotifyRule
on_recovery = record { on = "healthRecovered"; name = ""; for_minutes = none; for_hours = none }

abbrev production : Environment
production = record {
  projects = "p1" ∷ [];
  folders = [];
  region = "us-east1";
  sync = plain;
  notify = record { slack = "team"; rules = none };
}

abbrev decimal : ℤ → String
decimal n = if eq_ℤ n (pos 5) then "5" else "30"

abbrev evaluator : Evaluator
evaluator = record {
  decimal = λ n. decimal n;
  sink = "https://hooks/default";
  sinks = ("default", "https://hooks/default") ∷ ("team", "https://hooks/team") ∷ [];
  rules = degraded_for (pos 5) ∷ degraded_for (pos 30) ∷ on_recovery ∷ [];
  environments = ("prod", production) ∷ [];
  debounce_interval = pos 0;
  claim_ttl = pos 0;
}

evaluator-HasSinks : HasSinks evaluator "default"
unfolding lookup
evaluator-HasSinks = record {
  default_is = refl;
  named = λ name env there d. elim (Bool-cases ("prod" == name)) [
    | inl same ↦
        let e : some production ≡ some env = rw same at there in
        let one : production ≡ env = cc in rw (← one) ("https://hooks/team", refl)
    | inr other ↦ absurd (let e : none ≡ some env = rw other at there in cc)
  ];
}

abbrev healthy : SyncResult
healthy = record (blank api_unit) { health = Health.healthy }

abbrev key : String → Key
key rule = record { application = "api"; project = "p1"; rule = rule }

abbrev told : Option DebounceRow
told = some (record { last_notified_at = 9000; claim_expires_at = none })

-- Both rules have told of the degradation.
abbrev both_told : World
both_told = record {
  table =
      set_row (key "healthDegraded:5") told (set_row (key "healthDegraded:30") told (λ k. none));
  statements = 0;
  sent = [];
}

abbrev reachable_at : ℕ → Outside
reachable_at now = record { fault = λ n. none; time = λ n. now; send_fault = λ n. none }

abbrev first_pass : World
first_pass = (evaluate evaluator (reachable_at 10000) healthy 10000 both_told).0

evaluate-IsShown_example :
    Adds
      (IsShown evaluator (env_rules evaluator.rules "default" production) healthy)
      both_told
      first_pass
unfolding lookup resolved_rules
evaluate-IsShown_example =
    evaluate-IsShown evaluator (reachable_at 10000) healthy 10000 both_told "default"
      (env_rules evaluator.rules "default" production) evaluator-HasSinks refl

abbrev recovery : Sent
recovery = record {
  sink = "https://hooks/team";
  message = recovered "api" "p1";
  key = key "healthRecovered";
  delivered = true;
}

-- One recovery is told twice: its message is debounced for the second of the two rules, whose marker
-- stays, and goes out again in a pass an hour later.
recovery_told_twice :
    (evaluate evaluator (reachable_at 13700) healthy 13700 first_pass).0.sent
    ≡ recovery ∷ recovery ∷ []
unfolding evaluate lookup run_cd.Notify.execute run_cd.Notify.claim_recovery_row
    run_cd.Notify.Rules.rule_key maybe_notify claim_row confirm_row run_cd.Notify.clear_row
    run_cd.Notify.release_row
recovery_told_twice = refl

maybe_notify-IsRecorded_example :
    IsRecorded
      (reachable_at 10000)
      "https://hooks/team"
      (recovered "api" "p1")
      (key "healthRecovered")
      both_told
      (maybe_notify
        (reachable_at 10000)
        3600
        30
        "https://hooks/team"
        (recovered "api" "p1")
        (key "healthRecovered")
        both_told)
maybe_notify-IsRecorded_example =
    maybe_notify-IsRecorded (reachable_at 10000) 3600 30 "https://hooks/team" (recovered "api" "p1")
      (key "healthRecovered") both_told

abbrev row : DebounceRow
row = record { last_notified_at = 9000; claim_expires_at = some 9050 }

-- Two claims too early, one of them for a recovery, and one that succeeds.
abbrev later_claims : List Event
later_claims =
    record { act = claim; now = 12000 }
    ∷ record { act = claim_recovery; now = 12001 }
    ∷ record { act = release; now = 12002 }
    ∷ record { act = claim; now = 12601 }
    ∷ []

confirm_row-Spaced_example :
    All
      (λ e. e.act ≡ claim → 12600 < e.now)
      (grants 3600 30 (confirm_row 9000 (some row)).0 later_claims)
confirm_row-Spaced_example =
    confirm_row-Spaced 3600 30 9000 row later_claims
      (omega arith, (omega arith, (omega arith, (omega arith, tt))))
      ((λ q. cc), ((λ q. cc), ((λ q. cc), ((λ q. cc), tt))))

abbrev rival_claims : List Event
rival_claims = record { act = claim; now = 9120 } ∷ record { act = claim; now = 9131 } ∷ []

claim-Exclusive_example :
    All (λ e. 9130 < e.now) (grants 3600 30 (statement_of 3600 30 claim 9100 none).0 rival_claims)
    × Succeeds 3600 30 9130 claim (statement_of 3600 30 claim 9100 none).0 rival_claims
unfolding statement_of
claim-Exclusive_example =
    claim-Exclusive 3600 30 9100 claim none rival_claims (omega arith) (inl refl) refl
      (omega arith, (omega arith, tt)) (inl refl, (inl refl, tt))
