-- ===== src/Examples/Resolution.antt =====
-- A version override resolved against the tags of a monorepo's image.
use run_cd.Base.{
  ℕ, String, ◌==◌, ◌≡◌, ◌≢◌, ◌↔◌, ◌⊎◌, inl, inr, refl, ◌<◌, Bool, true, none, some, List, [], ◌∷◌,
  Memᴰ, ok, err, cut, ltb, false, eq_iff, eq-false_iff, All-lookup, if◌then◌else◌, arith,
}
use run_cd.Base.Int.{ℤ, pos, ltb_ℤ}
use run_cd.Registry.{Tag, Semver, no_tag_satisfies, resolve}
use run_cd.Registry.Highest.{IsPrecedence}
use run_cd.Registry.Laws.{Refused, Selected, Missed, resolve-Selects}

-- the text before the first dot
abbrev first_part : String → String
first_part s = elim (cut b'.' s) [ none ↦ s | some (part, rest) ↦ part ]

-- the text from the first dash on
abbrev after_dash : String → String
after_dash s = elim (cut b'-' s) [ none ↦ "" | some (part, rest) ↦ rest ]

-- The versions of the tags below, in their order; all others come before them.
abbrev rank : String → ℕ
rank v = if v == "v1.10.0" then 2 else if v == "v1.2.0" then 1 else 0

abbrev compare_ranks : ℕ → ℕ → ℤ
compare_ranks a b = if ltb b a then pos 1 else pos 0

abbrev pub semver : Semver
semver = record {
  is_valid = λ _. true;
  prerelease = after_dash;
  major = first_part;
  major_minor = first_part;
  canonical = λ s. s;
  compare_versions = λ a b. compare_ranks (rank a) (rank b);
}

compare_ranks_iff : (a b : ℕ) → (ltb_ℤ (pos 0) (compare_ranks a b) ≡ true) ↔ (b < a)
compare_ranks_iff a b = ground arith

semver-IsPrecedence : IsPrecedence semver
semver-IsPrecedence = record {
  irreflexive = λ a h. let l = (compare_ranks_iff (rank a) (rank a)).0 h in omega arith;
  transitive = λ a b c h k.
      let l = (compare_ranks_iff (rank a) (rank b)).0 h in
      let m = (compare_ranks_iff (rank b) (rank c)).0 k in
      (compare_ranks_iff (rank a) (rank c)).1 (omega arith);
}

-- The highest version is in the middle; the service's own tag is behind the global ones.
abbrev tags : List Tag
tags =
    record { name = "api-v1.0.7"; digest = "sha256:old" }
    ∷ record { name = "v1.2.0"; digest = "sha256:lower" }
    ∷ record { name = "1.10.0"; digest = "sha256:new" }
    ∷ record { name = "v1.11.0-rc1"; digest = "sha256:candidate" }
    ∷ record { name = "latest"; digest = "sha256:latest" }
    ∷ []

resolve_run : resolve semver tags "" "1" "api" ≡ ok "sha256:new"
unfolding resolve run_cd.Base.cut_prefix run_cd.Registry.count_char cut
resolve_run = refl

resolve-Selects_example :
    Refused semver "1" (resolve semver tags "" "1" "api")
    ⊎ Selected semver "1" "api" tags (resolve semver tags "" "1" "api")
    ⊎ Missed semver "1" "api" tags (resolve semver tags "" "1" "api")
resolve-Selects_example = resolve-Selects semver tags "1" "api" semver-IsPrecedence
