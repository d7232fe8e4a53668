-- ===== src/Registry/Laws.antt =====
-- What a resolved version is: the digest of the highest tag that satisfies the constraint.
use Prim.Native.String
use run_cd.Base.{
  subst, eq_refl, ℕ, String, ◌==◌, ◌≡◌, ◌≢◌, ◌⊎◌, inl, inr, refl, true, false, List, Bool-cases,
  eq_iff, eq-false_iff, leb, Result, ok, err, if◌then◌else◌, arith,
}
use run_cd.Registry.Highest.{IsPrecedence, Highest, NoMatch, best_match-cases}
use run_cd.Registry.{
  Tag, Semver, ResolveError, no_tag_satisfies, invalid_constraint, canonical_semver, count_char,
  trim_v, best_match, choose, resolve_version, resolve,
}

-- What the two matches give, by which of them there is.
choose-cases :
    (version bare prefixed : String)
    → ((bare ≢ "") × (choose version bare prefixed ≡ ok bare))
      ⊎ ((bare ≡ "") × (prefixed ≢ "") × (choose version bare prefixed ≡ ok prefixed))
      ⊎ ((bare ≡ "")
          × (prefixed ≡ "")
          × (choose version bare prefixed ≡ err (no_tag_satisfies version)))
choose-cases version bare prefixed = elim (Bool-cases (bare == "")) [
  | inl no_bare ↦ elim (Bool-cases (prefixed == "")) [
    | inl no_prefixed ↦ inr (
        inr (
          (eq_iff bare "").0 no_bare,
          (eq_iff prefixed "").0 no_prefixed,
          rw (no_bare, no_prefixed) refl,
        ))
    | inr some_prefixed ↦ inr (
        inl (
          (eq_iff bare "").0 no_bare,
          filled prefixed some_prefixed,
          rw (no_bare, some_prefixed) refl,
        ))
  ]
  | inr some_bare ↦ inl (filled bare some_bare, bare_wins some_bare)
]
  where
    filled : (s : String) → (s == "") ≡ false → s ≢ ""
    filled s = (eq-false_iff (s == "") (eq_iff s "")).0

    bare_wins : (bare == "") ≡ false → choose version bare prefixed ≡ ok bare
    bare_wins some_bare = elim (Bool-cases (prefixed == bare)) [
      | inl same ↦ let e = (eq_iff prefixed bare).0 same in rw (e, some_bare, eq_refl bare) refl
      | inr differ ↦ ground (arith, differ, some_bare)
    ]

-- The depth of the constraint, and the text that a tag's version has to give at that depth.
abbrev pub depth_of : String → ℕ
depth_of version = count_char b'.' (trim_v (canonical_semver version))

abbrev pub wanted : Semver → String → String
wanted sv version =
    if leb 2 (depth_of version)
    then sv.canonical (canonical_semver version)
    else canonical_semver version

module _ (sv : Semver) (version : String) where
  -- The digest is that of a highest tag among those with the prefix that satisfy the constraint.
  abbrev pub Newest : String → List Tag → String → Type 0
  Newest prefix tags digest = Highest sv prefix (depth_of version) (wanted sv version) tags digest

  abbrev pub Unmatched : String → List Tag → Type 0
  Unmatched prefix tags = NoMatch sv prefix (depth_of version) (wanted sv version) tags

  -- The constraint is no valid version, which is the error.
  abbrev pub Refused : Result ResolveError String → Type 0
  Refused r =
      (sv.is_valid (canonical_semver version) ≡ false) × (r ≡ err (invalid_constraint version))

  -- No tag with the prefix matches, or a highest one has no digest.
  abbrev pub Nothing : String → List Tag → Type 0
  Nothing prefix tags = Unmatched prefix tags ⊎ Newest prefix tags ""

  -- The digest of a highest bare tag, or else of a highest tag with the image's own prefix.
  abbrev pub Selected : String → List Tag → Result ResolveError String → Type 0
  Selected image_name tags r =
      (sv.is_valid (canonical_semver version) ≡ true)
      × ((digest : String) × (r ≡ ok digest)
          × (digest ≢ "")
          × (Newest "" tags digest
              ⊎ (Nothing "" tags × Newest (String.◌++◌ image_name "-") tags digest)))

  -- Neither a bare tag nor one with the prefix gives a digest, which is the error.
  abbrev pub Missed : String → List Tag → Result ResolveError String → Type 0
  Missed image_name tags r =
      (sv.is_valid (canonical_semver version) ≡ true)
      × (r ≡ err (no_tag_satisfies version))
      × Nothing "" tags
      × Nothing (String.◌++◌ image_name "-") tags

  module _ (order : IsPrecedence sv) (prefix : String) (tags : List Tag) where
    abbrev match : String
    match = best_match sv tags prefix (depth_of version) (wanted sv version)

    match-cases : (Unmatched prefix tags × (match ≡ "")) ⊎ Newest prefix tags match
    match-cases = best_match-cases sv prefix (depth_of version) (wanted sv version) order tags

    match-Newest : match ≢ "" → Newest prefix tags match
    match-Newest found = elim match-cases [
      | inl (u, empty) ↦ absurd (found empty)
      | inr newest ↦ newest
    ]

    match-empty : match ≡ "" → Unmatched prefix tags ⊎ Newest prefix tags ""
    match-empty empty = elim match-cases [
      | inl (u, e) ↦ inl u
      | inr newest ↦ inr (subst (Newest prefix tags) empty newest)
    ]

-- If semver.Compare orders the versions, each resolution of a version constraint ends in one of
-- three ways. The constraint is no valid version, with that error. Or it is valid, and the
-- digest is not empty and that of a bare tag whose version no other bare tag that satisfies the
-- constraint exceeds, or, only where no bare tag satisfies it or a highest one has an empty
-- digest, that of a highest tag with the image's own prefix. Or it is valid, and neither kind of
-- tag gives a digest, with that error. A tag satisfies the constraint if, without the prefix,
-- its name is a valid version that is no prerelease and agrees with the constraint in the parts
-- that the constraint gives.
pub resolve-Selects :
    (sv : Semver) (tags : List Tag) (version image_name : String)
    → IsPrecedence sv
    → Refused sv version (resolve sv tags "" version image_name)
      ⊎ Selected sv version image_name tags (resolve sv tags "" version image_name)
      ⊎ Missed sv version image_name tags (resolve sv tags "" version image_name)
unfolding resolve resolve_version
resolve-Selects sv tags version image_name order =
    elim (Bool-cases (sv.is_valid (canonical_semver version))) [
      | inr refused ↦ inl (refused, rw refused refl)
      | inl valid ↦
          let own = String.◌++◌ image_name "-" in
          let bare = match sv version order "" tags in
          let prefixed = match sv version order own tags in
          rw valid (elim (choose-cases version bare prefixed) [
            | inl (found, e) ↦
                inr
                  (inl (refl, (bare, e, found, inl (match-Newest sv version order "" tags found))))
            | inr (inl (no_bare, found, e)) ↦ inr (
                inl (
                  refl,
                  (
                    prefixed,
                    e,
                    found,
                    inr (
                      match-empty sv version order "" tags no_bare,
                      match-Newest sv version order own tags found,
                    ),
                  ),
                ))
            | inr (inr (no_bare, no_prefixed, e)) ↦ inr (
                inr (
                  refl,
                  e,
                  match-empty sv version order "" tags no_bare,
                  match-empty sv version order own tags no_prefixed,
                ))
          ])
    ]
