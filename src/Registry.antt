-- ===== src/Registry.antt =====
-- internal/registry/resolve.go: the digest that a track or a version constraint selects.
-- golang.org/x/mod/semver is a parameter.
pub mod Matches
pub mod Highest
pub mod Laws
use run_cd.Base.{
  ℕ, zero, suc, String, ◌==◌, Bool, not, ◌&&◌, ◌||◌, Option, none, some, List, [], ◌∷◌, leb, nat_eq,
  is_some, cut_prefix, Result, ok, err, if◌then◌else◌,
}
use run_cd.Base.Int.{ℤ, pos, ltb_ℤ}
use Prim.Native.Char.{code}
use Prim.Native.String

pub record Tag : Type 0 where
  pub name : String
  pub digest : String

-- The functions of the semver package that the code calls.
pub record Semver : Type 0 where
  pub is_valid : String → Bool
  pub prerelease : String → String
  pub major : String → String
  pub major_minor : String → String
  pub canonical : String → String
  pub compare_versions : String → String → ℤ

pub data ResolveError : Type 0 where
  no_tag_named invalid_constraint no_tag_satisfies : String → ResolveError

unfoldable pub canonical_semver : String → String
canonical_semver s = if is_some (cut_prefix "v" s) then s else String.◌++◌ "v" s

-- strings.Count(s, sep) for a separator of one character.
unfoldable pub count_char : ℕ → String → ℕ
count_char sep String.[] = 0
count_char sep (String.◌∷◌ c s) =
    let rest = count_char sep s in if nat_eq (code c) sep then suc rest else rest

abbrev or_text : Option String → String → String
or_text none s = s
or_text (some r) s = r

-- strings.TrimPrefix(s, "v")
abbrev pub trim_v : String → String
trim_v s = or_text (cut_prefix "v" s) s

abbrev pub stripped : String → String → Option String
stripped prefix name = if prefix == "" then some name else cut_prefix prefix name

abbrev pub at_depth : Semver → ℕ → String → String
at_depth sv zero v = sv.major v
at_depth sv (suc zero) v = sv.major_minor v
at_depth sv (suc (suc d)) v = sv.canonical v

abbrev pub candidate_of : Semver → ℕ → String → Option String → Option String
candidate_of sv depth constraint none = none
candidate_of sv depth constraint (some name) =
    let v = canonical_semver name in
    if not (sv.is_valid v) || not (sv.prerelease v == "")
    then none
    else if at_depth sv depth v == constraint
    then some v
    else none

-- the version of a tag that the loop of bestMatch considers, if it does
unfoldable pub candidate : Semver → String → ℕ → String → Tag → Option String
unfolding canonical_semver
candidate sv prefix depth constraint t = candidate_of sv depth constraint (stripped prefix t.name)

-- bestVersion and bestDigest
pub record Best : Type 0 where
  pub version : String
  pub digest : String

abbrev pub better : Semver → Best → Tag → Option String → Best
better sv b t none = b
better sv b t (some v) =
    if (b.version == "") || ltb_ℤ (pos 0) (sv.compare_versions v b.version)
    then record { version = v; digest = t.digest }
    else b

unfoldable pub best_from : Semver → String → ℕ → String → Best → List Tag → Best
unfolding candidate
best_from sv prefix depth constraint b [] = b
best_from sv prefix depth constraint b (t ∷ ts) =
    best_from sv prefix depth constraint (better sv b t (candidate sv prefix depth constraint t)) ts

unfoldable pub best_match : Semver → List Tag → String → ℕ → String → String
unfolding best_from
best_match sv tags prefix depth constraint =
    (best_from sv prefix depth constraint (record { version = ""; digest = "" }) tags).digest

unfoldable pub find_tag : String → List Tag → Result ResolveError String
find_tag track [] = err (no_tag_named track)
find_tag track (t ∷ ts) =
    let rest = find_tag track ts in if t.name == track then ok t.digest else rest

abbrev pub choose : String → String → String → Result ResolveError String
choose version bare prefixed =
    if not (prefixed == "") && ((bare == "") || (prefixed == bare))
    then ok prefixed
    else if not (bare == "")
    then ok bare
    else err (no_tag_satisfies version)

unfoldable pub resolve_version : Semver → List Tag → String → String → Result ResolveError String
resolve_version sv tags version image_name =
    let constraint = canonical_semver version in
    let depth = count_char b'.' (trim_v constraint) in
    let wanted = if leb 2 depth then sv.canonical constraint else constraint in
    if not (sv.is_valid constraint)
    then err (invalid_constraint version)
    else choose version (best_match sv tags "" depth wanted)
        (best_match sv tags (String.◌++◌ image_name "-") depth wanted)

unfoldable pub resolve : Semver → List Tag → String → String → String → Result ResolveError String
unfolding find_tag resolve_version best_match
resolve sv tags track version image_name =
    if not (track == "") then find_tag track tags else resolve_version sv tags version image_name
