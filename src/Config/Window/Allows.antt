-- ===== src/Config/Window/Allows.antt =====
-- What a list of windows allows, as a whole: WindowsAllow of internal/config/syncwindow.go.
use run_cd.Base.{
  ℕ, ◌==◌, ◌≡◌, ◌↔◌, ◌⊎◌, inl, inr, refl, String, Bool, true, false, not, ◌&&◌, ◌||◌, List, [], ◌∷◌,
  arith, any, any-intro, any-elim, Memᴰ, eq_iff, if◌then◌else◌, and-eq-true_iff, eq-false_iff,
}
use run_cd.Config.{SyncWindow}
use run_cd.Config.Window.{matches, allow_from, windows_allow}

-- The time lies in a window of the kind.
abbrev pub Inside : String → List SyncWindow → ℕ → Type 0
Inside kind ws t = (w : SyncWindow) × Memᴰ w ws × (w.kind ≡ kind) × (matches w t ≡ true)

-- Some window has the kind.
abbrev pub Declares : String → List SyncWindow → Type 0
Declares kind ws = (w : SyncWindow) × Memᴰ w ws × (w.kind ≡ kind)

abbrev denies : List SyncWindow → ℕ → Bool
denies ws t = any (λ w. w.kind == "deny" && matches w t) ws

abbrev has_kind : String → List SyncWindow → Bool
has_kind kind ws = any (λ w. w.kind == kind) ws

abbrev allows : List SyncWindow → ℕ → Bool
allows ws t = any (λ w. w.kind == "allow" && matches w t) ws

-- The loop's variables stand for what the windows read so far have shown.
allow_from-any :
    (has matched : Bool) (ws : List SyncWindow) (t : ℕ)
    → allow_from has matched ws t
      ≡ (not (denies ws t) && (if has || has_kind "allow" ws then matched || allows ws t else true))
unfolding allow_from
allow_from-any has matched [] t = ground arith
allow_from-any has matched (w ∷ ws) t = ground (
  arith,
  allow_from-any has matched ws t,
  allow_from-any true (matched || matches w t) ws t,
  eq_iff w.kind "deny",
  eq_iff w.kind "allow",
  deny≢allow w.kind,
)
  where
    deny≢allow : (k : String) → (k == "deny") ≡ true → (k == "allow") ≡ false
    deny≢allow k h = rw ((eq_iff k "deny").0 h) refl

verdict :
    (d a m : Bool)
    → ((not d && (if false || a then false || m else true)) ≡ true)
      ↔ ((d ≡ false) × ((a ≡ false) ⊎ (m ≡ true)))
verdict true a m = ground arith
verdict false a m = ground arith

any_kind :
    (kind : String) (ws : List SyncWindow) (t : ℕ)
    → (any (λ w. w.kind == kind && matches w t) ws ≡ true) ↔ Inside kind ws t
any_kind kind ws t = (
  λ h.
      let (w, m, e) = any-elim (λ w. w.kind == kind && matches w t) ws h in
      let (k, now) = (and-eq-true_iff (w.kind == kind) (matches w t)).0 e in
      (w, m, (eq_iff w.kind kind).0 k, now),
  λ (w, m, k, now).
      any-intro (λ w. w.kind == kind && matches w t) ws w m
        ((and-eq-true_iff (w.kind == kind) (matches w t)).1 ((eq_iff w.kind kind).1 k, now)),
)

has_kind_iff : (kind : String) (ws : List SyncWindow) → (has_kind kind ws ≡ true) ↔ Declares kind ws
has_kind_iff kind ws = (
  λ h. let (w, m, e) = any-elim (λ w. w.kind == kind) ws h in (w, m, (eq_iff w.kind kind).0 e),
  λ (w, m, k). any-intro (λ w. w.kind == kind) ws w m ((eq_iff w.kind kind).1 k),
)

-- The windows allow a time exactly if no deny window matches it and, where an allow window is
-- declared at all, some allow window matches it. A window of another kind has no effect.
pub windows_allow_iff :
    (ws : List SyncWindow) (t : ℕ)
    → (windows_allow ws t ≡ true)
      ↔ ((¬ (Inside "deny" ws t)) × ((¬ (Declares "allow" ws)) ⊎ Inside "allow" ws t))
unfolding windows_allow
windows_allow_iff ws t =
    let deny = eq-false_iff (denies ws t) (any_kind "deny" ws t) in
    let declared = eq-false_iff (has_kind "allow" ws) (has_kind_iff "allow" ws) in
    let allow = any_kind "allow" ws t in
    let read = verdict (denies ws t) (has_kind "allow" ws) (allows ws t) in
    rw (allow_from-any false false ws t) (
      λ h.
          let (d, s) = read.0 h in
          (deny.0 d, elim s [ inl a ↦ inl (declared.0 a) | inr m ↦ inr (allow.0 m) ]),
      λ (d, s). read.1 (deny.1 d, elim s [ inl a ↦ inl (declared.1 a) | inr m ↦ inr (allow.1 m) ]),
    )
