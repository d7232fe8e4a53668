-- ===== src/Registry/Matches.antt =====
-- Which tags satisfy a version constraint, apart from how internal/registry/resolve.go tests it.
use Prim.Native.Char.{Char}
use Prim.Native.String
use text.Mathlib.TextLemmas.{nil-append, cons-append}
use run_cd.Base.{
  ℕ, zero, suc, String, ◌==◌, ◌≡◌, ◌≢◌, ◌↔◌, inl, inr, refl, sym, Bool, true, false, not, ◌||◌,
  Option, none, some, Bool-cases, eq_iff, cut_prefix, cut_prefix-append, append_of_cut_prefix,
  is_some, if◌then◌else◌, if_cases, subst,
}
use run_cd.Registry.{Tag, Semver, canonical_semver, candidate, stripped, at_depth, candidate_of}

-- The version's leading numbers, one more than the depth, are the constraint's.
abbrev pub Fits : Semver → ℕ → String → String → Type 0
Fits sv zero constraint v = sv.major v ≡ constraint
Fits sv (suc zero) constraint v = sv.major_minor v ≡ constraint
Fits sv (suc (suc d)) constraint v = sv.canonical v ≡ constraint

-- The tag's name is the prefix and the version, whose "v" may be left out; the version is valid, no
-- prerelease, and fits the constraint.
pub record Matches (sv : Semver) (prefix : String) (depth : ℕ) (constraint : String) (t : Tag)
    (version : String) : Type 0 where
  pub name : String
  pub named : t.name ≡ String.◌++◌ prefix name
  pub canonical : version ≡ canonical_semver name
  pub valid : sv.is_valid version ≡ true
  pub release : sv.prerelease version ≡ ""
  pub fits : Fits sv depth constraint version

at_depth_iff :
    (sv : Semver) (depth : ℕ) (constraint v : String)
    → ((at_depth sv depth v == constraint) ≡ true) ↔ Fits sv depth constraint v
at_depth_iff sv zero constraint v = eq_iff _ _
at_depth_iff sv (suc zero) constraint v = eq_iff _ _
at_depth_iff sv (suc (suc d)) constraint v = eq_iff _ _

stripped_iff :
    (prefix name rest : String)
    → (stripped prefix name ≡ some rest) ↔ (name ≡ String.◌++◌ prefix rest)
stripped_iff prefix name rest = elim (Bool-cases (prefix == "")) [
  | inl empty ↦
      let e : prefix ≡ "" = (eq_iff prefix "").0 empty in
      rw (empty, e, nil-append) (λ h. cc, λ h. cc)
  | inr other ↦
      rw other (append_of_cut_prefix prefix name rest, λ h. rw h (cut_prefix-append prefix rest))
]

tests_iff :
    (v version : String) (valid release fits : Bool)
    → ◌≡◌ {A = Option String}
        (if not valid || not release then none else if fits then some v else none)
        (some version)
      ↔ ((valid ≡ true) × (release ≡ true) × (fits ≡ true) × (v ≡ version))
tests_iff v version true true true = (λ h. (refl, refl, refl, cc), λ h. cc)
tests_iff v version true true false = (λ h. absurd (cc), λ h. absurd (cc))
tests_iff v version true false fits = (λ h. absurd (cc), λ h. absurd (cc))
tests_iff v version false release fits = (λ h. absurd (cc), λ h. absurd (cc))

pub candidate_iff :
    (sv : Semver) (prefix : String) (depth : ℕ) (constraint : String) (t : Tag) (version : String)
    → (candidate sv prefix depth constraint t ≡ some version)
      ↔ Matches sv prefix depth constraint t version
unfolding candidate
candidate_iff sv prefix depth constraint t version = (
  found (stripped prefix t.name) refl,
  λ m.
      let v = canonical_semver m.name in
      let test =
        tests_iff v version (sv.is_valid v) (sv.prerelease v == "")
          (at_depth sv depth v == constraint) in
      let there = (stripped_iff prefix t.name m.name).1 m.named in
      rw there (
        test.1 (
          rw (sym m.canonical) m.valid,
          (eq_iff _ _).1 (rw (sym m.canonical) m.release),
          (at_depth_iff sv depth constraint v).1 (rw (sym m.canonical) m.fits),
          sym m.canonical,
        )),
)
  where
    found :
        (o : Option String)
        → stripped prefix t.name ≡ o
        → candidate_of sv depth constraint o ≡ some version
        → Matches sv prefix depth constraint t version
    found none e h = absurd (cc)
    found (some name) e h =
        let v = canonical_semver name in
        let (valid, release, fits, same) =
          (tests_iff v version (sv.is_valid v) (sv.prerelease v == "")
              (at_depth sv depth v == constraint)).0
            h in
        record {
          name = name;
          named = (stripped_iff prefix t.name name).0 e;
          canonical = sym same;
          valid = rw (← same) valid;
          release = rw (← same) ((eq_iff _ _).0 release);
          fits =
              subst (λ w. Fits sv depth constraint w) same
                ((at_depth_iff sv depth constraint v).0 fits);
        }

cons_ne : (c : Char) (s : String) → String.◌∷◌ c s ≢ ""
cons_ne c s h = cc

-- A version is not empty.
pub canonical_semver-ne : (s : String) → canonical_semver s ≢ ""
unfolding canonical_semver cut_prefix
canonical_semver-ne String.[] = cons_ne _ _
canonical_semver-ne (String.◌∷◌ c s) =
    if_cases (λ (v : String). v ≢ "") (is_some (cut_prefix "v" (String.◌∷◌ c s))) _ _ (cons_ne c s)
      (rw cons-append (cons_ne _ _))
