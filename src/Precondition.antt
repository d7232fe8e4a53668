-- ===== src/Precondition.antt =====
-- internal/precondition/precondition.go: the requires entries, checked in order.
pub mod Cache
pub mod Laws
use run_cd.Base.{
  String, ◌==◌, Bool, true, false, Option, none, some, List, [], ◌∷◌, Result, ok, err, first_error,
  if◌then◌else◌,
}
use run_cd.Manifest.{Precondition}

-- Checker: what Pub/Sub answers. An error is its text.
pub record Checker : Type 0 where
  pub topic_exists : String → String → Result String Bool
  pub subscription_exists : String → String → Result String Bool

pub data CheckError : Type 0 where
  unknown_type : String → CheckError
  check_failed : (type name error : String) → CheckError
  does_not_exist : (type name project : String) → CheckError

abbrev pub verdict : Precondition → String → Result String Bool → Option CheckError
verdict req project (err e) = some (check_failed req.type req.name e)
verdict req project (ok true) = none
verdict req project (ok false) = some (does_not_exist req.type req.name project)

unfoldable pub check_one : Checker → String → Precondition → Option CheckError
check_one checker project req =
    if req.type == "pubsubTopic"
    then verdict req project (checker.topic_exists project req.name)
    else if req.type == "pubsubSubscription"
    then verdict req project (checker.subscription_exists project req.name)
    else some (unknown_type req.type)

unfoldable pub check : Checker → String → List Precondition → Option CheckError
unfolding check_one
check checker project requires = first_error (check_one checker project) requires
