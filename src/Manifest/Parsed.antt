-- ===== src/Manifest/Parsed.antt =====
-- Parse returns exactly the valid definitions.
use run_cd.Base.{
  String, ◌==◌, ◌≡◌, ◌≢◌, ◌↔◌, ◌⊎◌, inl, inr, refl, sym, ◌∙◌, Bool, true, false, not, ◌&&◌, Option,
  none, some, List, [], ◌∷◌, map, All, Unique, arith, eq_iff, is_some, lookup, contains, fresh,
  fresh-Unique, ok, err, reject_iff, chain_iff, iff_trans, iff_refl, both_iff, subst, ap,
  nand-not_iff, is_some-false, Option-cases,
}
use run_cd.Manifest.{
  SecretRef, ServiceDefinition, check_secrets, validate_secrets, env_entries, with_default,
  validate, accepted, parse,
}
use run_cd.Manifest.Valid.{
  IsValidImage, IsFullCutover, validate_image_iff, validate_traffic_iff, nonempty_iff,
}

-- A secret has a name and a source, and its name is no plain variable's.
abbrev pub IsValidSecret : List (String × String) → SecretRef → Type 0
IsValidSecret env s = (s.name ≢ "") × ((s.secret ≢ "") × (lookup s.name env ≡ none))

abbrev secret_names : List SecretRef → List String
secret_names secrets = map (λ s. s.name) secrets

check_secrets_iff :
    (env : List (String × String)) (seen : List String) (secrets : List SecretRef)
    → (check_secrets env seen secrets ≡ none)
      ↔ (All (IsValidSecret env) secrets × (fresh seen (secret_names secrets) ≡ true))
unfolding check_secrets fresh
check_secrets_iff env seen [] = (λ _. (tt, refl), λ _. refl)
check_secrets_iff env seen (s ∷ rest) =
    let ih = check_secrets_iff env (s.name ∷ seen) rest in
    let steps = chain_iff _ _ (reject_iff (s.name == "") _ (nonempty_iff s.name)) (
      chain_iff _ _ (reject_iff (s.secret == "") _ (nonempty_iff s.secret)) (
        chain_iff _ _ (reject_iff {P = contains seen s.name ≡ false} _ _ (λ e. e, λ e. e)) (
          chain_iff _ _
            (reject_iff (is_some (lookup s.name env)) _ (is_some-false (lookup s.name env)))
            ih))) in
    iff_trans steps (
      λ h. (((h.0, (h.1.0, h.1.1.1.0)), h.1.1.1.1.0), rw h.1.1.0 h.1.1.1.1.1),
      λ h.
          let new : contains seen s.name ≡ false = ground arith in
          (h.0.0.0, (h.0.0.1.0, (new, (h.0.0.1.1, (h.0.1, rw new at h.1))))),
    )

-- What Parse accepts: a known resource type, a pinned image, a full cutover where traffic is
-- given, no variable without a name, valid secrets, and no two secrets of one name.
pub record IsValid (sd : ServiceDefinition) : Type 0 where
  pub known_type :
      (sd.resource_type ≡ "service")
      ⊎ ((sd.resource_type ≡ "job") ⊎ (sd.resource_type ≡ "workerPool"))
  pub valid_image : IsValidImage sd.image
  pub full_cutover : IsFullCutover sd.traffic
  pub env_named : lookup "" (env_entries sd.env) ≡ none
  pub valid_secrets : All (IsValidSecret (env_entries sd.env)) sd.secrets
  pub secrets_unique : Unique (secret_names sd.secrets)

unless_iff {ℓ κ} :
    {P : Type ℓ} {Q : Type κ} (a b : Bool)
    → (a ≡ true) ↔ P
    → (b ≡ false) ↔ Q
    → ((not a && b) ≡ false) ↔ (P ⊎ Q)
unless_iff true b f g = (λ _. inl (f.0 refl), λ _. refl)
unless_iff false b f g = (
  λ h. inr (g.0 h),
  λ h. elim h [ inl p ↦ absurd (let q : false ≡ true = f.1 p in cc) | inr q ↦ g.1 q ],
)

pub validate_iff : (sd : ServiceDefinition) → (validate sd ≡ none) ↔ IsValid sd
unfolding validate validate_secrets
validate_iff sd =
    let rt = sd.resource_type in
    let steps =
      chain_iff _ _
        (reject_iff _ _ (
          unless_iff (rt == "service") _ (eq_iff rt "service") (
            nand-not_iff (rt == "job") (rt == "workerPool") (eq_iff rt "job")
              (eq_iff rt "workerPool"))))
        (chain_iff _ _ (validate_image_iff sd.image) (
          chain_iff _ _ (validate_traffic_iff sd.traffic) (
            chain_iff _ _
              (reject_iff (is_some (lookup "" (env_entries sd.env))) _
                (is_some-false (lookup "" (env_entries sd.env))))
              (iff_trans (check_secrets_iff (env_entries sd.env) [] sd.secrets)
                (both_iff (iff_refl _) (fresh-Unique (secret_names sd.secrets))))))) in
    (
      λ h.
          let k = steps.0 h in
          record {
            known_type = k.0;
            valid_image = k.1.0;
            full_cutover = k.1.1.0;
            env_named = k.1.1.1.0;
            valid_secrets = k.1.1.1.1.0;
            secrets_unique = k.1.1.1.1.1;
          },
      λ v. steps.1 (
        v.known_type,
        (v.valid_image, (v.full_cutover, (v.env_named, (v.valid_secrets, v.secrets_unique)))),
      ),
    )

accepted_iff :
    (sd result : ServiceDefinition)
    → (accepted sd (validate sd) ≡ ok result) ↔ ((result ≡ sd) × (validate sd ≡ none))
accepted_iff sd result = elim (Option-cases (validate sd)) [
  | inl passed ↦ rw passed (λ h. (let q : ok sd ≡ ok result = h in cc, refl), λ h. cc h.0)
  | inr (e, failed) ↦
      rw failed (λ h. absurd (let q : err e ≡ ok result = h in cc), λ h. absurd (cc h.1))
]

-- Parse returns a definition exactly if the decoder yields one that, with a missing resource
-- type read as a service, is the definition returned and is valid.
pub parse_iff :
    (unmarshal : String → Option ServiceDefinition) (bytes : String) (sd : ServiceDefinition)
    → (parse unmarshal bytes ≡ ok sd) ↔ (
        (raw : ServiceDefinition) × (unmarshal bytes ≡ some raw)
        × (sd ≡ with_default raw)
        × IsValid sd)
unfolding parse
parse_iff unmarshal bytes sd = elim (Option-cases (unmarshal bytes)) [
  | inl failed ↦ rw failed (λ h. absurd (cc), λ (raw, e, _, _). absurd (cc))
  | inr (raw, read) ↦
      let steps =
        iff_trans (accepted_iff (with_default raw) sd)
          (both_iff (iff_refl _) (validate_iff (with_default raw))) in
      rw read (
        λ h.
            let k = steps.0 h in
            (raw, refl, k.0, subst (λ (d : ServiceDefinition). IsValid d) (sym k.0) k.1),
        λ (other, e, same, valid).
            let q : raw ≡ other = cc in
            let whole : sd ≡ with_default raw =
              same ∙ ap (λ (d : ServiceDefinition). with_default d) (sym q) in
            steps.1 (whole, subst (λ (d : ServiceDefinition). IsValid d) whole valid),
      )
]
