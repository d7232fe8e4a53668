-- ===== src/Examples/Leadership.antt =====
-- Two replicas that claim the lease, and what one of them reports.
use run_cd.Base.{◌≡◌, refl, true, false, none, some, List, [], ◌∷◌, All, ok, err, arith}
use run_cd.Leader.{LeaseRow, Attempt, Event, tick, claim, wins, run}
use run_cd.Leader.Exclusion.{Respects, claim-Respects}
use run_cd.Leader.Reports.{Reports, run-Reports}

abbrev expired : LeaseRow
expired = record { holder_id = ""; expires_at = 0 }

-- b is refused while a renews, and leads once a's lease has run out.
abbrev history : List Attempt
history =
    record { holder = "b"; now = 105; fault = none }
    ∷ record { holder = "a"; now = 110; fault = some "connection reset" }
    ∷ record { holder = "b"; now = 131; fault = none }
    ∷ []

wins_run :
    wins (claim "a" 100 none expired).0 history
    ≡ record { holder = "b"; now = 131; fault = none } ∷ []
unfolding wins claim
wins_run = refl

claim-Respects_example : All (Respects "a" 100) (wins (claim "a" 100 none expired).0 history)
unfolding claim
claim-Respects_example =
    claim-Respects "a" 100 none expired history refl (omega arith, (omega arith, (omega arith, tt)))

abbrev events : List Event
events = tick (ok true) ∷ tick (ok true) ∷ tick (err "connection reset") ∷ []

run-Reports_example : Reports false (run false events)
run-Reports_example = run-Reports false events
