-- ===== src/Cloudrun/Image/Laws.antt =====
-- The digest that an image reference is given is the one that it is resolved to.
use Prim.Native.Char.{code, Char}
use Prim.Native.String
use text.Mathlib.TextLemmas.{nil-append, cons-append}
use run_cd.Base.{
  ℕ, suc, String, ◌==◌, ◌≡◌, ◌≢◌, refl, sym, Bool, true, false, Option, none, some, List, arith, ok,
  ltb, ◌≤◌, nat_eq, Lacks, eq_iff, eq-false_iff,
}
use run_cd.Manifest.{text_length}
use run_cd.Registry.{Tag}
use run_cd.Cloudrun.Image.{
  at_sign, cut_last, redigested, last_position, later_position, joined, split_image_ref,
  with_digest, digest_suffix, resolve_image_digest,
}

cut_last-Lacks : (sep : ℕ) (s : String) → Lacks sep s → cut_last sep s ≡ none
unfolding cut_last
cut_last-Lacks sep String.[] h = refl
cut_last-Lacks sep (String.◌∷◌ c s) h = rw (cut_last-Lacks sep s h.1) (ground (arith, h.0))

cut_last-append :
    (sep : Char) (l r : String)
    → Lacks (code sep) r
    → cut_last (code sep) (String.◌++◌ l (String.◌∷◌ sep r)) ≡ some (l, r)
unfolding cut_last
cut_last-append sep String.[] r h =
    rw (nil-append (String.◌∷◌ sep r), cut_last-Lacks (code sep) r h) (ground arith)
cut_last-append sep (String.◌∷◌ c l) r h = rw (cons-append, cut_last-append sep l r h) refl

last_position-Lacks : (sep : ℕ) (s : String) → Lacks sep s → last_position sep s ≡ 0
unfolding last_position
last_position-Lacks sep String.[] h = refl
last_position-Lacks sep (String.◌∷◌ c s) h =
    rw (last_position-Lacks sep s h.1) (ground (arith, h.0))

-- An image reference has one repository, before whichever digest it is given.
pub repository_of :
    (image : String)
    → (repo : String) × ((digest : String) → with_digest image digest ≡ joined repo digest)
unfolding with_digest
repository_of image = of_parts (cut_last b'@' image)
  where
    of_parts :
        (o : Option (String × String))
        → (repo : String) × ((digest : String) → redigested image digest o ≡ joined repo digest)
    of_parts none = ((split_image_ref image).0, λ digest. refl)
    of_parts (some (repo, old)) = (repo, λ digest. refl)

cut_last-joined :
    (repo digest : String)
    → Lacks b'@' digest
    → cut_last b'@' (joined repo digest) ≡ some (repo, digest)
cut_last-joined repo digest h = cut_last-append at_sign repo digest h

joined-ne : (repo digest s : String) → Lacks b'@' digest → Lacks b'@' s → joined repo digest ≢ s
joined-ne repo digest s h k e =
    let there = cut_last-joined repo digest h in
    let missing = cut_last-Lacks b'@' s k in
    let same : cut_last b'@' (joined repo digest) ≡ cut_last b'@' s = rw e refl in cc

with_digest-joined :
    (repo old digest : String)
    → Lacks b'@' old
    → with_digest (joined repo old) digest ≡ joined repo digest
unfolding with_digest
with_digest-joined repo old digest h = rw (cut_last-joined repo old h) refl

resolve_image_digest-joined :
    (registry : Option (String → Option (List Tag))) (repo digest : String)
    → Lacks b'@' digest
    → resolve_image_digest registry (joined repo digest) ≡ ok digest
unfolding resolve_image_digest digest_suffix
resolve_image_digest-joined registry repo digest h =
    let filled : (joined repo digest == "") ≡ false =
      (eq-false_iff (joined repo digest == "") (eq_iff (joined repo digest) "")).1
        (joined-ne repo digest "" h tt) in
    let longer : (digest == joined repo digest) ≡ false =
      (eq-false_iff (digest == joined repo digest) (eq_iff digest (joined repo digest))).1
        (λ e. joined-ne repo digest digest h h (sym e)) in
    rw (cut_last-joined repo digest h, filled, longer) refl

last_position-append_Lacks :
    (sep : ℕ) (l s : String) → Lacks sep s → last_position sep (String.◌++◌ l s) ≤ text_length l
unfolding last_position text_length
last_position-append_Lacks sep String.[] s h =
    rw (nil-append s, last_position-Lacks sep s h) (ground arith)
last_position-append_Lacks sep (String.◌∷◌ c l) s h =
    rw cons-append
      (later_position_bound (nat_eq (code c) sep) _ _ (last_position-append_Lacks sep l s h))
  where
    later_position_bound : (here : Bool) (n m : ℕ) → n ≤ m → later_position here n ≤ suc m
    later_position_bound here n m k = ground (arith, k)

last_position-append :
    (sep : Char) (l r : String)
    → Lacks (code sep) r
    → last_position (code sep) (String.◌++◌ l (String.◌∷◌ sep r)) ≡ suc (text_length l)
unfolding last_position text_length
last_position-append sep String.[] r h =
    rw (nil-append (String.◌∷◌ sep r), last_position-Lacks (code sep) r h) (ground arith)
last_position-append sep (String.◌∷◌ c l) r h =
    rw (cons-append, last_position-append sep l r h) refl

abbrev pub colon : Char
colon = Char.char b':' tt

split_image_ref-append :
    (repo tag : String)
    → Lacks b':' tag
    → Lacks b'/' tag
    → split_image_ref (String.◌++◌ repo (String.◌∷◌ colon tag)) ≡ (repo, tag)
unfolding split_image_ref
split_image_ref-append repo tag lc ls =
    let further : ltb (last_position b'/' (String.◌++◌ repo (String.◌∷◌ colon tag)))
          (last_position b':' (String.◌++◌ repo (String.◌∷◌ colon tag)))
        ≡ true =
      ground (
        arith,
        last_position-append_Lacks b'/' repo (String.◌∷◌ colon tag) ((ground arith), ls),
        last_position-append colon repo tag lc,
      ) in
    rw (further, cut_last-append colon repo tag lc) refl

-- For digests that hold no '@': the reference that withDigest makes resolves to its digest,
-- without the registry; and a second withDigest replaces the digest of the first.
pub resolve_image_digest-with_digest :
    (registry : Option (String → Option (List Tag))) (image old digest : String)
    → Lacks b'@' old
    → Lacks b'@' digest
    → (resolve_image_digest registry (with_digest image digest) ≡ ok digest)
      × (with_digest (with_digest image old) digest ≡ with_digest image digest)
resolve_image_digest-with_digest registry image old digest lo ld =
    let (repo, form) = repository_of image in
    rw (form old, form digest)
      (resolve_image_digest-joined registry repo digest ld, with_digest-joined repo old digest lo)

Lacks-append : (sep : ℕ) (l r : String) → Lacks sep l → Lacks sep r → Lacks sep (String.◌++◌ l r)
Lacks-append sep String.[] r h k = rw (nil-append r) k
Lacks-append sep (String.◌∷◌ c l) r h k = rw cons-append (h.0, Lacks-append sep l r h.1 k)

-- On a reference with a tag, where the tag holds no '/', ':' or '@' and the repository, which
-- may name a port, holds no '@', withDigest drops the tag and keeps the repository.
pub with_digest-tagged :
    (repo tag digest : String)
    → Lacks b'@' repo
    → Lacks b'@' tag
    → Lacks b':' tag
    → Lacks b'/' tag
    → with_digest (String.◌++◌ repo (String.◌∷◌ colon tag)) digest ≡ joined repo digest
unfolding with_digest
with_digest-tagged repo tag digest la lt lc ls =
    rw
      (
        cut_last-Lacks b'@' (String.◌++◌ repo (String.◌∷◌ colon tag))
            (Lacks-append b'@' repo (String.◌∷◌ colon tag) la ((ground arith), lt)),
        split_image_ref-append repo tag lc ls,
      )
      refl
