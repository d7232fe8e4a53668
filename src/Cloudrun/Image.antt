-- ===== src/Cloudrun/Image.antt =====
-- internal/cloudrun/gcp.go: image references, and the digest that a live image stands for. The
-- registry's list of tags is a parameter, whose failure is `none`.
pub mod Laws
use run_cd.Base.{
  ℕ, zero, suc, String, ◌==◌, Bool, false, not, ◌||◌, ◌&&◌, Option, none, some, List, [], ◌∷◌, ltb,
  nat_eq, is_some, cut_prefix, Result, ok, err, if◌then◌else◌,
}
use run_cd.Registry.{Tag}
use run_cd.Manifest.{text_length}
use Prim.Native.Char.{code, Char}
use Prim.Native.String

-- the parts around the last separator: those of the rest, or the ones at this character
abbrev pub around_last : ℕ → Char → String → Option (String × String) → Option (String × String)
around_last sep c s (some (l, r)) = some (String.◌∷◌ c l, r)
around_last sep c s none = if nat_eq (code c) sep then some (String.[], s) else none

-- s[:i] and s[i+1:] for i = strings.LastIndex(s, sep), if i >= 0
unfoldable pub cut_last : ℕ → String → Option (String × String)
cut_last sep String.[] = none
cut_last sep (String.◌∷◌ c s) = around_last sep c s (cut_last sep s)

abbrev pub later_position : Bool → ℕ → ℕ
later_position here zero = if here then 1 else 0
later_position here (suc n) = suc (suc n)

-- strings.LastIndex(s, sep) + 1
unfoldable pub last_position : ℕ → String → ℕ
last_position sep String.[] = 0
last_position sep (String.◌∷◌ c s) = later_position (nat_eq (code c) sep) (last_position sep s)

abbrev after : String → Option (String × String) → String
after s none = s
after s (some (l, r)) = r

unfoldable pub last_path_segment : String → String
unfolding cut_last
last_path_segment name = after name (cut_last b'/' name)

unfoldable pub digest_suffix : String → String
unfolding cut_last
digest_suffix image = after image (cut_last b'@' image)

abbrev has_digest_length : Option String → Bool
has_digest_length none = false
has_digest_length (some rest) = nat_eq (text_length rest) 64

unfoldable pub is_digest : String → Bool
is_digest s = has_digest_length (cut_prefix "sha256:" s)

abbrev tag_split : String → Option (String × String) → String × String
tag_split image none = (image, "latest")
tag_split image (some (repo, tag)) = (repo, tag)

unfoldable pub split_image_ref : String → String × String
unfolding cut_last last_position
split_image_ref image =
    if ltb (last_position b'/' image) (last_position b':' image)
    then tag_split image (cut_last b':' image)
    else (image, "latest")

abbrev pub at_sign : Char
at_sign = Char.char b'@' tt

abbrev pub joined : String → String → String
joined repo digest = String.◌++◌ repo (String.◌∷◌ at_sign digest)

abbrev pub redigested : String → String → Option (String × String) → String
redigested image digest none = joined (split_image_ref image).0 digest
redigested image digest (some (repo, old)) = joined repo digest

unfoldable pub with_digest : String → String → String
unfolding cut_last split_image_ref
with_digest existing digest = redigested existing digest (cut_last b'@' existing)

pub data ImageError : Type 0 where
  registry_unavailable tags_not_listed : String → ImageError
  no_tag : String → String → ImageError

-- the loop of resolveTag
unfoldable pub tag_named : String → String → List Tag → Result ImageError String
tag_named repo tag [] = err (no_tag tag repo)
tag_named repo tag (t ∷ ts) =
    let rest = tag_named repo tag ts in if t.name == tag then ok t.digest else rest

abbrev among : String → String → Option (List Tag) → Result ImageError String
among repo tag none = err (tags_not_listed repo)
among repo tag (some ts) = tag_named repo tag ts

unfoldable pub resolve_tag : (String → Option (List Tag)) → String → Result ImageError String
unfolding split_image_ref tag_named
resolve_tag list_tags image =
    let (repo, tag) = split_image_ref image in among repo tag (list_tags repo)

-- the same with the registry's client, which may not be there
abbrev with_registry : Option (String → Option (List Tag)) → String → Result ImageError String
with_registry none image = err (registry_unavailable image)
with_registry (some list_tags) image = resolve_tag list_tags image

unfoldable pub resolve_image_digest :
    Option (String → Option (List Tag)) → String → Result ImageError String
unfolding resolve_tag digest_suffix is_digest
resolve_image_digest registry image =
    let suffix = digest_suffix image in
    if image == ""
    then ok ""
    else if not (suffix == image) || is_digest suffix
    then ok suffix
    else with_registry registry image
