-- ===== src/Precondition/Laws.antt =====
-- When the preconditions of a unit hold.
use run_cd.Base.{
  String, ◌==◌, ◌≡◌, ◌↔◌, ◌⊎◌, inl, inr, refl, Bool, true, false, none, List, All, eq_iff, Result,
  ok, err, first_error-All, Bool-cases, eq-false_iff, text_ne,
}
use run_cd.Manifest.{Precondition}
use run_cd.Precondition.{Checker, check_one, check, verdict}

-- The entry is a topic or a subscription, and the checker confirms that it exists.
abbrev pub Exists : Checker → String → Precondition → Type 0
Exists checker project req =
    ((req.type ≡ "pubsubTopic") × (checker.topic_exists project req.name ≡ ok true))
    ⊎ ((req.type ≡ "pubsubSubscription") × (checker.subscription_exists project req.name ≡ ok true))

verdict_iff :
    (req : Precondition) (project : String) (r : Result String Bool)
    → (verdict req project r ≡ none) ↔ (r ≡ ok true)
verdict_iff req project (err e) = (λ h. absurd (cc), λ h. absurd (cc))
verdict_iff req project (ok true) = (λ h. refl, λ h. refl)
verdict_iff req project (ok false) = (λ h. absurd (cc), λ h. absurd (cc))

check_one_iff :
    (checker : Checker) (project : String) (req : Precondition)
    → (check_one checker project req ≡ none) ↔ Exists checker project req
unfolding check_one
check_one_iff checker project req = elim (Bool-cases (req.type == "pubsubTopic")) [
  | inl t ↦
      let e = (eq_iff req.type "pubsubTopic").0 t in
      let v = verdict_iff req project (checker.topic_exists project req.name) in
      rw t (
        λ h. inl (e, v.0 h),
        λ h. elim h [
          | inl p ↦ v.1 p.1
          | inr p ↦ text_ne req.type "pubsubTopic" "pubsubSubscription" refl e p.0
        ],
      )
  | inr nt ↦ elim (Bool-cases (req.type == "pubsubSubscription")) [
    | inl s ↦
        let e = (eq_iff req.type "pubsubSubscription").0 s in
        let v = verdict_iff req project (checker.subscription_exists project req.name) in
        rw (nt, s)
          (
            λ h. inr (e, v.0 h),
            λ h. elim h [
              | inl p ↦ text_ne req.type "pubsubSubscription" "pubsubTopic" refl e p.0
              | inr p ↦ v.1 p.1
            ],
          )
    | inr ns ↦
        let no_topic =
          (eq-false_iff (req.type == "pubsubTopic") (eq_iff req.type "pubsubTopic")).0 nt in
        let no_subscription =
          (eq-false_iff (req.type == "pubsubSubscription") (eq_iff req.type "pubsubSubscription")).0
            ns in
        rw (nt, ns)
          (
            λ h. absurd (cc),
            λ h. elim h [ inl p ↦ absurd (no_topic p.0) | inr p ↦ absurd (no_subscription p.0) ],
          )
  ]
]

-- The check passes exactly if each entry is a topic or a subscription that the checker confirms
-- to exist: a missing resource, an entry of another type and a failed lookup each make it fail.
pub check_iff :
    (checker : Checker) (project : String) (requires : List Precondition)
    → (check checker project requires ≡ none) ↔ All (Exists checker project) requires
unfolding check
check_iff checker project requires =
    first_error-All (check_one checker project) (Exists checker project) requires
      (check_one_iff checker project)
