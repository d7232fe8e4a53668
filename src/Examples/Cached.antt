-- ===== src/Examples/Cached.antt =====
-- A topic that is asked for three times: the second answer is the cache's, the third a new one.
use run_cd.Base.{
  ℕ, ◌+◌, ◌*◌, String, ◌≡◌, refl, Bool, true, false, Lacks, List, [], ◌∷◌, All, Result, ok, err,
  ltb, arith,
}
use run_cd.Base.Int.{pos}
use run_cd.Precondition.Cache.{PubSub, topic, Query, ttl_of, new_gcp_checker, answers}
use run_cd.Precondition.Cache.Fresh.{IsFresh, answers-IsFresh}

abbrev seconds : ℕ → ℕ
seconds n = n * 1000000000

-- The topic is there from 30 seconds on; there are no subscriptions.
abbrev pub_sub : PubSub
pub_sub = record {
  new_client = λ now project. ok tt;
  topic_exists = λ at project name. ok (ltb (seconds 30) at);
  subscription_exists = λ at project name. err "unavailable";
}

abbrev asked : ℕ → Query
asked n = record {
  kind = topic;
  project = "p1";
  name = "orders";
  now = seconds n;
  fetched = seconds n + 1;
}

abbrev questions : List Query
questions = asked 10 ∷ asked 69 ∷ asked 71 ∷ []

abbrev told : Query → Bool → Query × Result String Bool
told q b = (q, ok b)

answers_run :
    answers pub_sub (pos 0) new_gcp_checker questions
    ≡ told (asked 10) false ∷ told (asked 69) false ∷ told (asked 71) true ∷ []
unfolding answers run_cd.Precondition.Cache.check_exists run_cd.Precondition.Cache.cached_exists
    run_cd.Precondition.Cache.client run_cd.Base.lookup run_cd.Base.contains
answers_run = refl

answers-IsFresh_example :
    All
      (λ a. IsFresh pub_sub (ttl_of (pos 0)) a.0 a.1)
      (answers pub_sub (pos 0) new_gcp_checker questions)
answers-IsFresh_example =
    answers-IsFresh pub_sub (pos 0) 0 questions
      (omega arith, omega arith, (omega arith, omega arith, (omega arith, omega arith, tt)))
      (lacks, (lacks, (lacks, tt)))
  where
    lacks : Lacks 47 "p1"
    lacks = (omega arith, (omega arith, tt))
