-- ===== src/Base/Texts.antt =====
-- Texts as the program uses them: whole comparisons, and the prefix and separator functions of
-- Go's package `strings`.
use Prim.Native.Char.{code, Char}
use Prim.Native.String
use Prim.Native.String.{String}
use Prim.Native.Nat.{ℕ}
use mathlib.Core.Path.{◌≡◌, refl, ap, ◌∙◌, sym}
use mathlib.Core.Logic.{◌≢◌}
use mathlib.Core.Bool.{Bool, true, false}
use mathlib.Core.Option.{Option, none, some}
use native.Mathlib.Omega.{arith}
use text.Mathlib.Text.{◌==◌ as str_eq}
use text.Mathlib.TextEquality.{eq_iff, Char-path}
use text.Mathlib.TextLemmas.{nil-append, cons-append}
use mathlib.Core.Logic.{inl, inr}
use run_cd.Base.Tests.{nat_eq, Bool-cases, if◌then◌else◌}

infix 50 ◌==◌
abbrev pub ◌==◌ : String → String → Bool
s == t = str_eq s t

-- strings.CutPrefix(s, prefix), the prefix first: the rest, if `s` begins with the prefix.
unfoldable pub cut_prefix : String → String → Option String
cut_prefix String.[] s = some s
cut_prefix (String.◌∷◌ p ps) String.[] = none
cut_prefix (String.◌∷◌ p ps) (String.◌∷◌ c s) =
    let rest = cut_prefix ps s in if nat_eq (code p) (code c) then rest else none

abbrev before : Char → Option (String × String) → Option (String × String)
before c none = none
before c (some (l, r)) = some (String.◌∷◌ c l, r)

-- strings.Cut(s, sep) for a separator of one character.
unfoldable pub cut : ℕ → String → Option (String × String)
cut sep String.[] = none
cut sep (String.◌∷◌ c s) =
    let rest = before c (cut sep s) in if nat_eq (code c) sep then some (String.[], s) else rest

-- The text does not hold the character.
abbrev pub Lacks : ℕ → String → Type 0
Lacks sep String.[] = Unit
Lacks sep (String.◌∷◌ c s) = (code c ≢ sep) × Lacks sep s

pub cut_prefix-append : (p r : String) → cut_prefix p (String.◌++◌ p r) ≡ some r
unfolding cut_prefix
cut_prefix-append String.[] r = ap some (nil-append r)
cut_prefix-append (String.◌∷◌ c p) r = rw cons-append (ground (arith, cut_prefix-append p r))

pub append_of_cut_prefix : (p s r : String) → cut_prefix p s ≡ some r → s ≡ String.◌++◌ p r
unfolding cut_prefix
append_of_cut_prefix String.[] s r h = rw nil-append (ground arith)
append_of_cut_prefix (String.◌∷◌ p ps) String.[] r h = cc
append_of_cut_prefix (String.◌∷◌ p ps) (String.◌∷◌ c s) r h =
    let same : code c ≡ code p = ground arith in
    rw cons-append (cc (Char-path c p same, append_of_cut_prefix ps s r (ground arith)))

pub cut-append :
    (sep : Char) (l r : String)
    → Lacks (code sep) l
    → cut (code sep) (String.◌++◌ l (String.◌∷◌ sep r)) ≡ some (l, r)
unfolding cut
cut-append sep String.[] r h = rw nil-append (ground arith)
cut-append sep (String.◌∷◌ c l) r h = rw cons-append (ground (arith, cut-append sep l r h.1))

pub append_of_cut :
    (sep : Char) (s l r : String)
    → cut (code sep) s ≡ some (l, r)
    → (s ≡ String.◌++◌ l (String.◌∷◌ sep r)) × Lacks (code sep) l
unfolding cut
append_of_cut sep String.[] l r h = absurd (cc)
append_of_cut sep (String.◌∷◌ c s) l r h = elim (Bool-cases (nat_eq (code c) (code sep))) [
  | inl found ↦
      let e : ◌≡◌ {A = Option (String × String)} (some (String.[], s)) (some (l, r)) =
        rw found at h in
      let left : String.[] ≡ l = ground arith in
      let right : s ≡ r = ground arith in
      let same : code c ≡ code sep = ground arith in
      rw (← left, ← right, Char-path c sep same) (sym (nil-append _), tt)
  | inr other ↦ later (append_of_cut sep s) (cut (code sep) s) refl (rw other at h) (ground arith)
]
  where
    later :
        ((a b : String)
          → cut (code sep) s ≡ some (a, b)
          → (s ≡ String.◌++◌ a (String.◌∷◌ sep b)) × Lacks (code sep) a)
        → (o : Option (String × String)) → cut (code sep) s ≡ o
        → before c o ≡ some (l, r)
        → code c ≢ code sep
        → (String.◌∷◌ c s ≡ String.◌++◌ l (String.◌∷◌ sep r)) × Lacks (code sep) l
    later ih none p e d = absurd (cc)
    later ih (some (a, b)) p e d =
        let front : String.◌∷◌ c a ≡ l = ground arith in
        let back : b ≡ r = ground arith in
        let (whole, lacks) = ih a b p in
        rw (← front, ← back, cons-append, ← whole) (refl, (d, lacks))

-- A text that begins with another character has no such prefix.
pub cut_prefix-ne :
    (p c : Char) (ps s r : String)
    → nat_eq (code p) (code c) ≡ false
    → cut_prefix (String.◌∷◌ p ps) (String.◌++◌ (String.◌∷◌ c s) r) ≡ none
unfolding cut_prefix
cut_prefix-ne p c ps s r h = rw cons-append (rw h)

-- Two texts with a failing test, such as two different literals, are no equal texts.
pub text_ne {ℓ} : {P : Type ℓ} (a b c : String) → (b == c) ≡ false → a ≡ b → a ≡ c → P
text_ne a b c h e f =
    let q : b ≡ c = sym e ∙ f in absurd (let t : false ≡ true = sym h ∙ (eq_iff b c).1 q in cc)
