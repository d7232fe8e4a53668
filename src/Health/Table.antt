-- ===== src/Health/Table.antt =====
-- The health table, read per outcome.
use run_cd.Base.{
  ◌≡◌, ◌≢◌, ◌↔◌, ◌⊎◌, refl, Bool, true, false, Option, none, some, arith, not, ◌&&◌, is_some,
  eq-false_iff, iff_trans, iff_refl, both_iff, or_iff, if◌then◌else◌,
}
use run_cd.Base.Int.{ℤ, pos, negsuc}
use run_cd.Cloudrun.{ServiceState, LiveService}
use run_cd.Health.{Status, healthy, progressing, degraded, missing, assess_service, traffic_equal}

pub traffic_equal_iff : (a b : Option ℤ) → (traffic_equal a b ≡ true) ↔ (a ≡ b)
unfolding traffic_equal
traffic_equal_iff none none = ground arith
traffic_equal_iff none (some b) = ground arith
traffic_equal_iff (some a) none = ground arith
traffic_equal_iff (some (pos a)) (some (pos b)) = ground arith
traffic_equal_iff (some (pos a)) (some (negsuc b)) = ground arith
traffic_equal_iff (some (negsuc a)) (some (pos b)) = ground arith
traffic_equal_iff (some (negsuc a)) (some (negsuc b)) = ground arith

-- Traffic is managed, a percentage is asked for, and the live one is another.
abbrev pub TrafficDiffers : Option ℤ → Option ℤ → Bool → Type 0
TrafficDiffers asked live managed = (managed ≡ true) × ((asked ≢ none) × (asked ≢ live))

abbrev differs : Option ℤ → Option ℤ → Bool → Bool
differs asked live managed = managed && (is_some asked && not (traffic_equal asked live))

differs_iff :
    (asked live : Option ℤ) (managed : Bool)
    → (differs asked live managed ≡ true) ↔ TrafficDiffers asked live managed
differs_iff none live managed = (λ h. absurd (ground arith), λ h. absurd (h.1.0 refl))
differs_iff (some p) live false = (λ h. absurd (cc), λ h. absurd (let q : false ≡ true = h.0 in cc))
differs_iff (some p) live true =
    let same = eq-false_iff (traffic_equal (some p) live) (traffic_equal_iff (some p) live) in
    (λ h. (refl, ((λ e. cc), same.0 (ground arith))), λ h. rw (same.1 h.1.1))

-- The ladder of tests, over the answers alone.
abbrev ladder : Bool → Bool → Bool → Bool → Status
ladder has creating ready d =
    if not has
    then missing
    else if creating
    then progressing
    else if not ready
    then degraded
    else if d
    then progressing
    else healthy

ladder_table :
    (has creating ready d : Bool)
    → let result = ladder has creating ready d in
      ((result ≡ missing) ↔ (has ≡ false))
      × ((result ≡ progressing)
          ↔ ((has ≡ true) × ((creating ≡ true) ⊎ ((ready ≡ true) × (d ≡ true)))))
      × ((result ≡ degraded) ↔ ((has ≡ true) × ((creating ≡ false) × (ready ≡ false))))
      × ((result ≡ healthy)
          ↔ ((has ≡ true) × ((creating ≡ false) × ((ready ≡ true) × (d ≡ false)))))
ladder_table false creating ready d = ground arith
ladder_table true true ready d = ground arith
ladder_table true false false d = ground arith
ladder_table true false true d = ground arith

module _ (desired : ServiceState) (live : LiveService) (managed : Bool) where
  abbrev pub Differs : Type 0
  Differs =
      TrafficDiffers desired.traffic_latest_revision_percent
        live.state.traffic_latest_revision_percent managed

  -- A service's health, per outcome: it is Missing exactly if no revision has the desired
  -- digest; else Progressing exactly if the latest revision is being created, or is ready while
  -- managed traffic differs; Degraded if it is neither being created nor ready; Healthy if it is
  -- ready, not being created, and managed traffic does not differ.
  pub assess_service_table :
      let result = assess_service desired live managed in
      let has = live.has_revision_for_desired_digest in
      let creating = live.latest_revision_creating in
      let ready = live.latest_revision_ready in
      ((result ≡ missing) ↔ (has ≡ false))
      × ((result ≡ progressing) ↔ ((has ≡ true) × ((creating ≡ true) ⊎ ((ready ≡ true) × Differs))))
      × ((result ≡ degraded) ↔ ((has ≡ true) × ((creating ≡ false) × (ready ≡ false))))
      × ((result ≡ healthy)
          ↔ ((has ≡ true) × ((creating ≡ false) × ((ready ≡ true) × (¬ Differs)))))
  unfolding assess_service
  assess_service_table =
      let has = live.has_revision_for_desired_digest in
      let creating = live.latest_revision_creating in
      let ready = live.latest_revision_ready in
      let meaning =
        differs_iff desired.traffic_latest_revision_percent
          live.state.traffic_latest_revision_percent managed in
      let d =
        differs desired.traffic_latest_revision_percent live.state.traffic_latest_revision_percent
          managed in
      let opposite = eq-false_iff d meaning in
      let (absent, busy, bad, good) = ladder_table has creating ready d in
      (
        absent,
        iff_trans busy
            (both_iff (iff_refl _) (or_iff (iff_refl _) (both_iff (iff_refl _) meaning))),
        bad,
        iff_trans good
            (both_iff (iff_refl _) (both_iff (iff_refl _) (both_iff (iff_refl _) opposite))),
      )
