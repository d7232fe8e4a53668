-- ===== src/Diff/Laws.antt =====
-- When a unit is Synced.
use run_cd.Base.{
  ◌≡◌, ◌≢◌, ◌↔◌, ◌⊎◌, inl, inr, refl, String, ◌==◌, Bool, true, false, not, ◌&&◌, ◌||◌, Option,
  none, some, List, [], ◌∷◌, All, arith, eq_iff, is_some, lookup, Bool-cases, eq-false_iff,
  and-eq-true_iff, iff_trans, both_iff, text_ne, not-not_iff, All-iff,
}
use run_cd.Cloudrun.{SecretRef, ServiceState}
use run_cd.Health.Table.{traffic_equal_iff}
use run_cd.Diff.{
  synced, entries_of, secret_same, text_same, string_map_equal, secret_map_equal, traffic_matches,
  env_matches, field_matches, compute,
}
use run_cd.Diff.Maps.{IsMap, map_equal_iff}

-- The maps of a state have no key twice.
pub record HasMaps (s : ServiceState) : Type 0 where
  pub env_map : IsMap (entries_of s.env_vars)
  pub secret_map : IsMap (entries_of s.secret_refs)

abbrev SameEntries {ℓ} :
    {V : Type ℓ} → Option (List (String × V)) → Option (List (String × V)) → Type ℓ
SameEntries a b = (k : String) → lookup k (entries_of a) ≡ lookup k (entries_of b)

-- What the field asks of the live state, for the resource type.
abbrev pub Agrees : ServiceState → ServiceState → String → String → Type 0
Agrees desired live resource_type field =
    ((field ≡ "image") → desired.image_digest ≡ live.image_digest)
    × ((field ≡ "traffic")
        → resource_type ≡ "service"
        → desired.traffic_latest_revision_percent ≢ none
        → desired.traffic_latest_revision_percent ≡ live.traffic_latest_revision_percent)
    × ((field ≡ "env")
        → resource_type ≢ "job"
        → (desired.env_vars ≢ none) ⊎ (desired.secret_refs ≢ none)
        → SameEntries desired.env_vars live.env_vars
          × SameEntries desired.secret_refs live.secret_refs)

secret_same_iff : (a b : SecretRef) → (secret_same a b ≡ true) ↔ (a ≡ b)
secret_same_iff a b = (
  λ h. ground (arith, eq_iff a.secret b.secret, eq_iff a.version b.version),
  λ e. ground (arith, eq_iff a.secret b.secret, eq_iff a.version b.version, e),
)

compute_iff :
    (desired live : ServiceState) (fields : List String) (resource_type : String)
    → (compute desired live fields resource_type ≡ synced)
      ↔ All (λ f. field_matches desired live resource_type f ≡ true) fields
unfolding compute
compute_iff desired live [] rt = (λ _. tt, λ _. refl)
compute_iff desired live (f ∷ rest) rt =
    let ih = compute_iff desired live rest rt in
    elim (Bool-cases (field_matches desired live rt f)) [
      | inl same ↦ rw same (λ h. (refl, ih.0 h), λ h. ih.1 h.1)
      | inr other ↦ rw other (λ h. absurd (cc), λ h. absurd (cc h.0))
    ]

implies_iff {ℓ κ} :
    {P : Type ℓ} {Q : Type κ} (b c : Bool)
    → (b ≡ false) ↔ P
    → (c ≡ true) ↔ Q
    → ((b || c) ≡ true) ↔ (P → Q)
implies_iff true c f g = (λ _ p. absurd (let q : true ≡ false = f.1 p in cc), λ _. refl)
implies_iff false c f g = (λ h p. g.0 h, λ k. g.1 (k (f.0 refl)))

is_some-ne {ℓ} : {A : Type ℓ} (o : Option A) → (not (is_some o) ≡ false) ↔ (o ≢ none)
is_some-ne none = (λ h. absurd (cc), λ d. absurd (d refl))
is_some-ne (some a) = (λ _ e. cc, λ _. refl)

either_set {ℓ κ} :
    {A : Type ℓ} {B : Type κ} (o : Option A) (p : Option B)
    → ((not (is_some o) && not (is_some p)) ≡ false) ↔ ((o ≢ none) ⊎ (p ≢ none))
either_set none none =
    (λ h. absurd (cc), λ d. elim d [ inl x ↦ absurd (x refl) | inr x ↦ absurd (x refl) ])
either_set none (some b) = (λ _. inr (λ e. cc), λ _. refl)
either_set (some a) p = (λ _. inl (λ e. cc), λ _. refl)

module _ (desired live : ServiceState) (rt : String) (md : HasMaps desired)
    (ml : HasMaps live) where
  traffic_matches_iff : (traffic_matches desired live rt ≡ true) ↔ (
      rt ≡ "service"
      → desired.traffic_latest_revision_percent ≢ none
      → desired.traffic_latest_revision_percent ≡ live.traffic_latest_revision_percent)
  traffic_matches_iff =
      implies_iff (not (rt == "service")) _ (not-not_iff (rt == "service") (eq_iff rt "service")) (
        implies_iff (not (is_some desired.traffic_latest_revision_percent)) _
          (is_some-ne desired.traffic_latest_revision_percent)
          (traffic_equal_iff desired.traffic_latest_revision_percent
            live.traffic_latest_revision_percent))

  env_matches_iff : (env_matches desired live rt ≡ true) ↔ (
      rt ≢ "job"
      → (desired.env_vars ≢ none) ⊎ (desired.secret_refs ≢ none)
      → SameEntries desired.env_vars live.env_vars
        × SameEntries desired.secret_refs live.secret_refs)
  unfolding string_map_equal secret_map_equal
  env_matches_iff = implies_iff (rt == "job") _ (eq-false_iff (rt == "job") (eq_iff rt "job")) (
      implies_iff _ _ (either_set desired.env_vars desired.secret_refs) (
        iff_trans
          (and-eq-true_iff (string_map_equal desired.env_vars live.env_vars)
            (secret_map_equal desired.secret_refs live.secret_refs))
          (both_iff
            (map_equal_iff text_same eq_iff (entries_of desired.env_vars) (entries_of live.env_vars)
              md.env_map ml.env_map)
            (map_equal_iff secret_same secret_same_iff (entries_of desired.secret_refs)
              (entries_of live.secret_refs) md.secret_map ml.secret_map))))

  field_matches_iff :
      (f : String) → (field_matches desired live rt f ≡ true) ↔ Agrees desired live rt f
  unfolding field_matches
  field_matches_iff f = elim (Bool-cases (f == "image")) [
    | inl i ↦
        let e = (eq_iff f "image").0 i in
        rw i (
          λ h. (
            λ _. (eq_iff desired.image_digest live.image_digest).0 h,
            λ q. text_ne f "image" "traffic" refl e q,
            λ q. text_ne f "image" "env" refl e q,
          ),
          λ a. (eq_iff desired.image_digest live.image_digest).1 (a.0 e),
        )
    | inr ni ↦ elim (Bool-cases (f == "traffic")) [
      | inl t ↦
          let e = (eq_iff f "traffic").0 t in
          rw (ni, t)
            (
              λ h. (
                λ q. text_ne f "traffic" "image" refl e q,
                λ _. traffic_matches_iff.0 h,
                λ q. text_ne f "traffic" "env" refl e q,
              ),
              λ a. traffic_matches_iff.1 (a.1 e),
            )
      | inr nt ↦ elim (Bool-cases (f == "env")) [
        | inl v ↦
            let e = (eq_iff f "env").0 v in
            rw (ni, nt, v)
              (
                λ h. (
                  λ q. text_ne f "env" "image" refl e q,
                  λ q. text_ne f "env" "traffic" refl e q,
                  λ _. env_matches_iff.0 h,
                ),
                λ a. env_matches_iff.1 (a.2 e),
              )
        | inr nv ↦
            let no_image = (eq-false_iff (f == "image") (eq_iff f "image")).0 ni in
            let no_traffic = (eq-false_iff (f == "traffic") (eq_iff f "traffic")).0 nt in
            let no_env = (eq-false_iff (f == "env") (eq_iff f "env")).0 nv in
            rw (ni, nt, nv)
              (
                λ h. (λ q. absurd (no_image q), λ q. absurd (no_traffic q), λ q. absurd (no_env q)),
                λ a. refl,
              )
      ]
    ]
  ]

-- On states whose maps have no key twice, a unit is Synced exactly if each managed field agrees:
-- the image digests are equal; for a service, a wanted traffic percentage is the live one; and,
-- but for a job, a declared environment has the live plain and secret entries, neither more nor
-- less.
pub compute-Agrees :
    (desired live : ServiceState) (fields : List String) (resource_type : String)
    → HasMaps desired
    → HasMaps live
    → (compute desired live fields resource_type ≡ synced)
      ↔ All (Agrees desired live resource_type) fields
compute-Agrees desired live fields rt md ml = iff_trans (compute_iff desired live fields rt) (
    All-iff (λ f. field_matches desired live rt f ≡ true) (Agrees desired live rt) fields
      (field_matches_iff desired live rt md ml))
