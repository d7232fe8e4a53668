-- ===== src/Health.antt =====
-- internal/health/health.go: health from live state.
pub mod Table
use run_cd.Base.{Bool, true, false, not, ◌&&◌, Option, none, some, is_some, if◌then◌else◌}
use run_cd.Base.Int.{ℤ, eq_ℤ}
use run_cd.Cloudrun.{
  ServiceState, LiveService, LiveJob, ExecutionStatus, running, succeeded, failed, unrecognized,
}

pub data Status : Type 0 where
  healthy progressing degraded missing : Status

-- the same function stands in internal/diff/diff.go
unfoldable pub traffic_equal : Option ℤ → Option ℤ → Bool
traffic_equal none none = true
traffic_equal none (some b) = false
traffic_equal (some a) none = false
traffic_equal (some a) (some b) = eq_ℤ a b

unfoldable pub assess_service : ServiceState → LiveService → Bool → Status
unfolding traffic_equal
assess_service desired live traffic_managed =
    if not live.has_revision_for_desired_digest
    then missing
    else if live.latest_revision_creating
    then progressing
    else if not live.latest_revision_ready
    then degraded
    else if traffic_managed
        && (is_some desired.traffic_latest_revision_percent
            && not (
                traffic_equal desired.traffic_latest_revision_percent
                  live.state.traffic_latest_revision_percent))
    then progressing
    else healthy

-- cloudrun.ServiceState{}
abbrev pub zero_state : ServiceState
zero_state = record {
  image_digest = "";
  traffic_latest_revision_percent = none;
  env_vars = none;
  secret_refs = none;
}

unfoldable pub assess_worker_pool : LiveService → Status
unfolding assess_service
assess_worker_pool live = assess_service zero_state live false

abbrev execution_health : ExecutionStatus → Status
execution_health succeeded = healthy
execution_health running = progressing
execution_health failed = degraded
execution_health (unrecognized s) = degraded

unfoldable pub assess_job : LiveJob → Status
assess_job live =
    if not live.has_execution_for_desired_digest
    then missing
    else execution_health live.latest_execution_status
