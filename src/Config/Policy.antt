-- ===== src/Config/Policy.antt =====
-- SyncPolicy.Merge of internal/config/config.go.
use run_cd.Base.{◌≡◌, ◌⊎◌, inl, inr, refl, Option, none, some}
use run_cd.Config.{SyncPolicy}

-- `if override.F != nil { merged.F = override.F }`
abbrev pub pick {ℓ} : {A : Type ℓ} → Option A → Option A → Option A
pick base none = base
pick base (some v) = some v

unfoldable pub merge : SyncPolicy → SyncPolicy → SyncPolicy
merge base override = record {
  auto = pick base.auto override.auto;
  retry = pick base.retry override.retry;
  self_heal = pick base.self_heal override.self_heal;
  sync_windows = pick base.sync_windows override.sync_windows;
  observe = pick base.observe override.observe;
}

-- The setting above, where it is set; otherwise the one below.
abbrev pub Overrides {ℓ} : {A : Type ℓ} (below above merged : Option A) → Type ℓ
Overrides {A = A} below above merged =
    ((above ≡ none) × (merged ≡ below)) ⊎ ((v : A) × (above ≡ some v) × (merged ≡ some v))

-- Each setting by itself.
pub record Inherits (below above merged : SyncPolicy) : Type 0 where
  pub auto : Overrides below.auto above.auto merged.auto
  pub retry : Overrides below.retry above.retry merged.retry
  pub self_heal : Overrides below.self_heal above.self_heal merged.self_heal
  pub sync_windows : Overrides below.sync_windows above.sync_windows merged.sync_windows
  pub observe : Overrides below.observe above.observe merged.observe

pick-Overrides {ℓ} :
    {A : Type ℓ} (below above : Option A) → Overrides below above (pick below above)
pick-Overrides below none = inl (refl, refl)
pick-Overrides below (some v) = inr (v, refl, refl)

pub merge-Inherits : (below above : SyncPolicy) → Inherits below above (merge below above)
unfolding merge
merge-Inherits below above = record {
  auto = pick-Overrides below.auto above.auto;
  retry = pick-Overrides below.retry above.retry;
  self_heal = pick-Overrides below.self_heal above.self_heal;
  sync_windows = pick-Overrides below.sync_windows above.sync_windows;
  observe = pick-Overrides below.observe above.observe;
}
