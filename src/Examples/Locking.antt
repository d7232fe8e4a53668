-- ===== src/Examples/Locking.antt =====
-- Two attempts on one unit: the second is refused while the first holds the lock, then takes over.
use run_cd.Base.{
  String, ◌≡◌, ◌≢◌, ◌<◌, eq_iff, eq-false_iff, ◌+◌, refl, none, List, [], ◌∷◌, All, arith,
}
use run_cd.Reconcile.{Db}
use run_cd.Reconcile.Store.{lock_ttl, claim_lock, delete_lock}
use run_cd.Reconcile.Store.Locks.{LockEvent, acquire, release, taken, IsSame, claim_lock-Exclusive}
use run_cd.Examples.{api_unit}

abbrev unlocked : Db
unlocked = record {
  locks = λ app project. none;
  applications = λ app project. none;
  events = [];
  next_id = 1;
}

-- The second attempt releases a lock that it does not hold, and claims again once it has expired.
abbrev attempts : List LockEvent
attempts =
    record { act = acquire; unit = api_unit; token = "t2"; now = 130 }
    ∷ record { act = release; unit = api_unit; token = "t2"; now = 140 }
    ∷ record { act = acquire; unit = api_unit; token = "t2"; now = 221 }
    ∷ []

taken_run :
    taken (claim_lock api_unit "t1" unlocked 100).0 attempts
    ≡ record { act = acquire; unit = api_unit; token = "t2"; now = 221 } ∷ []
unfolding taken claim_lock delete_lock
taken_run = refl

apart : ◌≢◌ {A = String} "t2" "t1"
apart = (eq-false_iff _ (eq_iff "t2" "t1")).0 refl

claim_lock-Exclusive_example :
    All
      (λ e. IsSame e.unit api_unit → 100 + lock_ttl < e.now)
      (taken (claim_lock api_unit "t1" unlocked 100).0 attempts)
unfolding claim_lock
claim_lock-Exclusive_example =
    claim_lock-Exclusive api_unit "t1" 100 unlocked attempts refl
      (omega arith, (omega arith, (omega arith, tt)))
      ((λ _ _. apart), ((λ _ _. apart), ((λ _ _. apart), tt)))
