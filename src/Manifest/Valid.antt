-- ===== src/Manifest/Valid.antt =====
-- What a parsed service definition satisfies.
use Prim.Native.Char.{code}
use Prim.Native.String
use run_cd.Base.{
  ℕ, ◌≤◌, String, ◌==◌, ◌≡◌, ◌≢◌, ◌↔◌, ◌⊎◌, inl, inr, refl, true, false, not, ◌&&◌, ◌||◌, Option,
  none, some, arith, eq_iff, nat_eq, cut_prefix, append_of_cut_prefix, cut_prefix-append,
  reject_iff, chain_iff, iff_trans, both_iff, nat_eq_iff, not-not_iff, nand-not_iff, nand_iff,
  or-true_iff, not-true_iff, subst, ap, eq-false_iff, and-eq-true_iff, Option-cases,
}
use run_cd.Base.Int.{ℤ, pos, negsuc, eq_ℤ}
use run_cd.Manifest.{
  Image, Traffic, all_chars, text_length, matches_digest_pattern, is_hex, validate_image,
  validate_traffic, percent_check,
}

abbrev IsHexText : String → Type 0
IsHexText String.[] = Unit
IsHexText (String.◌∷◌ c s) =
    (((b'0' ≤ code c) × (code c ≤ b'9')) ⊎ ((b'a' ≤ code c) × (code c ≤ b'f'))) × IsHexText s

-- "sha256:" and 64 lower-case hexadecimal digits
abbrev pub IsPinned : String → Type 0
IsPinned digest =
    (hex : String) × (digest ≡ String.◌++◌ "sha256:" hex) × (text_length hex ≡ 64) × IsHexText hex

pub record IsValidImage (img : Image) : Type 0 where
  pub pinned : IsPinned img.digest
  pub one_selector : (img.track ≡ "") ⊎ (img.version ≡ "")
  pub has_repository : (img.track ≢ "") ⊎ (img.version ≢ "") → img.repository ≢ ""

all_chars-IsHexText : (s : String) → (all_chars is_hex s ≡ true) ↔ IsHexText s
unfolding all_chars
all_chars-IsHexText String.[] = (λ _. tt, λ _. refl)
all_chars-IsHexText (String.◌∷◌ c s) =
    let ih = all_chars-IsHexText s in
    iff_trans (and-eq-true_iff (is_hex (code c)) (all_chars is_hex s))
      (both_iff (hex_iff (code c)) ih)
  where
    hex_iff : (n : ℕ) → (is_hex n ≡ true) ↔ (((b'0' ≤ n) × (n ≤ b'9')) ⊎ ((b'a' ≤ n) × (n ≤ b'f')))
    hex_iff n = ground arith

matches_digest_pattern_iff : (s : String) → (matches_digest_pattern s ≡ true) ↔ IsPinned s
unfolding matches_digest_pattern
matches_digest_pattern_iff s = elim (Option-cases (cut_prefix "sha256:" s)) [
  | inl missing ↦ rw missing (
    λ h. absurd (cc),
    λ (hex, e, _, _).
        absurd (
          let q : cut_prefix "sha256:" s ≡ some hex = rw e (cut_prefix-append "sha256:" hex) in cc),
  )
  | inr (rest, found) ↦
      let tests =
        iff_trans (and-eq-true_iff (nat_eq (text_length rest) 64) (all_chars is_hex rest))
          (both_iff (nat_eq_iff (text_length rest) 64) (all_chars-IsHexText rest)) in
      rw found (
        λ h.
            let both = tests.0 h in
            (rest, append_of_cut_prefix "sha256:" s rest found, both.0, both.1),
        λ (hex, e, len, digits).
            let q : cut_prefix "sha256:" s ≡ some hex = rw e (cut_prefix-append "sha256:" hex) in
            let same : hex ≡ rest = cc in
            tests.1 (
              subst (λ (t : String). text_length t ≡ 64) same len,
              subst (λ (t : String). IsHexText t) same digits,
            ),
      )
]

abbrev pub empty_iff : (s : String) → ((s == "") ≡ true) ↔ (s ≡ "")
empty_iff s = eq_iff s ""

pub nonempty_iff : (s : String) → ((s == "") ≡ false) ↔ (s ≢ "")
nonempty_iff s = eq-false_iff (s == "") (empty_iff s)

pinned_not_empty : (s : String) → IsPinned s → s ≢ ""
pinned_not_empty s (hex, e, _, _) q =
    let none_left : cut_prefix "sha256:" s ≡ none = rw q (unfold cut_prefix in refl) in
    let found : cut_prefix "sha256:" s ≡ some hex = rw e (cut_prefix-append "sha256:" hex) in
    absurd (cc)

pub validate_image_iff : (img : Image) → (validate_image img ≡ none) ↔ IsValidImage img
unfolding validate_image
validate_image_iff img =
    let steps = chain_iff _ _ (reject_iff (img.digest == "") _ (nonempty_iff img.digest)) (
      chain_iff _ _
        (reject_iff (not (matches_digest_pattern img.digest)) _
          (not-not_iff (matches_digest_pattern img.digest) (matches_digest_pattern_iff img.digest)))
        (chain_iff _ _
          (reject_iff (not (img.track == "") && not (img.version == "")) _ (
            nand-not_iff (img.track == "") (img.version == "") (empty_iff img.track)
              (empty_iff img.version)))
          (reject_iff _ _ (
            nand_iff (not (img.track == "") || not (img.version == "")) (img.repository == "")
              (or-true_iff (not (img.track == "")) (not (img.version == ""))
                (not-true_iff (img.track == "") (empty_iff img.track))
                (not-true_iff (img.version == "") (empty_iff img.version)))
              (empty_iff img.repository))))) in
    (
      λ h.
          let k = steps.0 h in
          record { pinned = k.1.0; one_selector = k.1.1.0; has_repository = k.1.1.1 },
      λ v.
          steps.1
            (pinned_not_empty img.digest v.pinned, (v.pinned, (v.one_selector, v.has_repository))),
    )

-- Only the full cutover to the latest revision is accepted.
abbrev pub IsFullCutover : Option Traffic → Type 0
IsFullCutover none = Unit
IsFullCutover (some t) =
    (t.latest_revision_percent ≡ none) ⊎ (t.latest_revision_percent ≡ some (pos 100))

eq_ℤ_iff : (a : ℤ) → (eq_ℤ a (pos 100) ≡ true) ↔ (a ≡ pos 100)
eq_ℤ_iff (pos n) = ground arith
eq_ℤ_iff (negsuc n) = ground arith

percent_check_iff : (p : Option ℤ) → (percent_check p ≡ none) ↔ ((p ≡ none) ⊎ (p ≡ some (pos 100)))
percent_check_iff none = (λ _. inl refl, λ _. refl)
percent_check_iff (some p) =
    iff_trans (reject_iff (not (eq_ℤ p (pos 100))) _ (not-not_iff (eq_ℤ p (pos 100)) (eq_ℤ_iff p)))
      (λ e. inr (ap some e), λ h. elim h [ inl e ↦ absurd (cc) | inr e ↦ cc ])

pub validate_traffic_iff : (t : Option Traffic) → (validate_traffic t ≡ none) ↔ IsFullCutover t
unfolding validate_traffic
validate_traffic_iff none = (λ _. tt, λ _. refl)
validate_traffic_iff (some t) = percent_check_iff t.latest_revision_percent
