-- ===== src/Reconcile/Entry/Fleet.antt =====
-- Which deploys a pass can make: those of units that may be deployed, prepared in the tables.
use mathlib.Core.List.{append_assoc}
use run_cd.Base.{
  ℕ, String, ◌≡◌, ◌⊎◌, inl, inr, refl, sym, ap, ◌∙◌, subst, Bool-cases, if_cases, List, [], ◌∷◌,
  ◌++◌, Memᴰ, All, All-append, Result, ok, err,
}
use run_cd.Cloudrun
use run_cd.Cloudrun.{ServiceState, ReadError, other}
use run_cd.Expander.{SyncUnit}
use run_cd.Reconcile.{Health, SyncResult, SyncOptions, DeployCall, World, External}
use run_cd.Reconcile.Store.Statements.{Locked, IsLogged, upsert_deploys}
use run_cd.Reconcile.Deploy.{Attempt, Run, deploy_sync_unit}
use run_cd.Reconcile.Deploy.Ahead.{IsAhead, deploy_sync_unit-Prepared}
use run_cd.Reconcile.Pass.{decide, on_live, apply_live_state}
use run_cd.Reconcile.Unit.{reconcile}
use run_cd.Reconcile.Unit.Cases.{reconcile_cases}
use run_cd.Reconcile.Unit.Guarantees.{MayDeploy, reconcile_authorized}
use run_cd.Reconcile.Entry.{is_in_progress, auto_options, record_result, run_unit, run_once}

-- A deploy call of the unit, which the options let through: under a lock on the unit, with an
-- in_progress audit row that names the image.
pub record IsSanctioned (unit : SyncUnit) (options : SyncOptions) (call : DeployCall) : Type 0 where
  pub application : call.application ≡ unit.app
  pub project : call.project ≡ unit.project
  pub allowed : MayDeploy unit options
  pub token : String
  pub locked : Locked unit token call.tables
  pub logged : IsLogged unit call.state.image_digest call.tables

-- The second list is the first with entries put before it of which the predicate holds.
abbrev pub Grown : (DeployCall → Type 0) → List DeployCall → List DeployCall → Type 0
Grown P before after = (calls : List DeployCall) × (after ≡ calls ++ before) × All P calls

Grown-trans :
    (P : DeployCall → Type 0) (a b c : List DeployCall) → Grown P a b → Grown P b c → Grown P a c
Grown-trans P a b c (xs, p, f) (ys, q, g) =
    (ys ++ xs, q ∙ ap (λ l. ys ++ l) p ∙ sym (append_assoc ys xs a), (All-append P ys xs).1 (g, f))

All-map :
    (P Q : DeployCall → Type 0) (calls : List DeployCall)
    → ((c : DeployCall) → P c → Q c)
    → All P calls
    → All Q calls
All-map P Q [] f h = tt
All-map P Q (c ∷ calls) f h = (f c h.0, All-map P Q calls f h.1)

-- A pass over one unit leaves the world, or ends as an attempt on the unit ends.
abbrev Attempted : (x : External) → SyncUnit → World x.Cloud → Run x → Type 0
Attempted x unit w r =
    (r.0 ≡ w)
    ⊎ ((a : Attempt x.Cloud) × (res : SyncResult) × (a.unit ≡ unit)
        × (r.0 ≡ (deploy_sync_unit x a res w).0))

module _ (x : External) where
  decide-Attempted :
      (unit : SyncUnit) (a : Attempt x.Cloud) (res : SyncResult) (w : World x.Cloud)
      → a.unit ≡ unit
      → Attempted x unit w (decide x a res w)
  unfolding decide
  decide-Attempted unit a res w same =
      if_cases (Attempted x unit w) _ _ _
        (if_cases (Attempted x unit w) _ _ _ (inl refl) (inr (a, res, same, refl))) (inl refl)

  on_live-Attempted :
      (unit : SyncUnit) (a : Attempt x.Cloud) (res : SyncResult) (w : World x.Cloud)
      → a.unit ≡ unit
      → (r : Result ReadError (ServiceState × Health)) → Attempted x unit w (on_live x a res w r)
  on_live-Attempted unit a res w same (err Cloudrun.not_provisioned) = inl refl
  on_live-Attempted unit a res w same (err (other e)) = inl refl
  on_live-Attempted unit a res w same (ok (found, h)) =
      decide-Attempted unit (record a { live = found }) _ w same

  reconcile-Attempted :
      (base : List String) (unit : SyncUnit) (options : SyncOptions) (w : World x.Cloud)
      → Attempted x unit w (reconcile x base unit options w)
  reconcile-Attempted base unit options w =
      reconcile_cases x base unit options w (Attempted x unit w) (λ res e u o. inl refl)
        (λ a res u o m i.
          unfold apply_live_state in on_live-Attempted unit a res w u (a.target.fetch w.cloud))

  ahead-IsSanctioned :
      (u unit : SyncUnit) (options : SyncOptions) (token : String) (desired : ServiceState)
      (before after : List DeployCall)
      → u ≡ unit
      → MayDeploy unit options
      → IsAhead u token desired before after
      → Grown (IsSanctioned unit options) before after
  ahead-IsSanctioned u unit options token desired before after same may h =
      let k = subst (λ (v : SyncUnit). IsAhead v token desired before after) same h in
      (
        k.call ∷ [],
        k.one_more,
        (
          record {
            application = k.application;
            project = k.project;
            allowed = may;
            token = token;
            locked = k.locked;
            logged =
                subst (λ (s : ServiceState). IsLogged unit s.image_digest k.call.tables)
                  (sym k.state) k.logged;
          },
          tt,
        ),
      )

  reconcile_calls :
      (base : List String) (unit : SyncUnit) (options : SyncOptions) (w : World x.Cloud)
      → Grown (IsSanctioned unit options) w.deploys (reconcile x base unit options w).0.deploys
  reconcile_calls base unit options w = elim (reconcile_authorized x base unit options w) [
    | inl same ↦ ([], ap (λ (k : World x.Cloud). k.deploys) same, tt)
    | inr may ↦ elim (reconcile-Attempted base unit options w) [
      | inl same ↦ ([], ap (λ (k : World x.Cloud). k.deploys) same, tt)
      | inr (a, res, of_unit, ends) ↦
          let calls = ap (λ (k : World x.Cloud). k.deploys) ends in
          elim (deploy_sync_unit-Prepared x a res w) [
            | inl none_made ↦ ([], calls ∙ none_made, tt)
            | inr ahead ↦
                let (new, grown, all) =
                  ahead-IsSanctioned a.unit unit options _ _ _ _ of_unit may ahead in
                (new, calls ∙ grown, all)
          ]
    ]
  ]

  record_result_deploys :
      (w : World x.Cloud) (res : SyncResult) → (record_result x (w, res)).0.deploys ≡ w.deploys
  unfolding record_result
  record_result_deploys w res = elim (Bool-cases (is_in_progress res.error)) [
    | inl held ↦ rw held refl
    | inr free ↦ rw free (upsert_deploys x res w)
  ]

  run_unit_calls :
      (base : List String) (now : ℕ) (unit : SyncUnit) (w : World x.Cloud)
      → Grown
          (IsSanctioned unit (auto_options now))
          w.deploys
          (run_unit x base now unit w).world.deploys
  unfolding run_unit
  run_unit_calls base now unit w =
      let run = reconcile x base unit (auto_options now) w in
      let (calls, grown, all) = reconcile_calls base unit (auto_options now) w in
      (calls, record_result_deploys run.0 run.1 ∙ grown, all)

-- The call is one of a unit of the list.
abbrev pub OfFleet : List SyncUnit → SyncOptions → DeployCall → Type 0
OfFleet units options call = (unit : SyncUnit) × Memᴰ unit units × IsSanctioned unit options call

-- A pass over the units of a list, one after another, only adds deploy calls before those made
-- so far, and each added call is of a unit of the list that is not in shadow mode and whose
-- policy allows the controller to deploy at the pass's time, made under a lock on that unit and
-- after an in_progress audit row that names the image deployed. This holds whichever statements
-- fail.
pub run_once-OfFleet :
    (x : External) (base : List String) (units : List SyncUnit) (now : ℕ) (w : World x.Cloud)
    → Grown (OfFleet units (auto_options now)) w.deploys (run_once x base units now w).world.deploys
unfolding run_once
run_once-OfFleet x base [] now w = ([], refl, tt)
run_once-OfFleet x base (unit ∷ rest) now w =
    let first = run_unit x base now unit w in
    let (made, grown, all) = run_unit_calls x base now unit w in
    let (later, grown_later, all_later) = run_once-OfFleet x base rest now first.world in
    let P = OfFleet (unit ∷ rest) (auto_options now) in
    Grown-trans P _ _ _ (made, grown, All-map _ P made (λ c s. (unit, Memᴰ.head refl, s)) all)
      (later, grown_later, All-map _ P later (λ c (u, m, s). (u, Memᴰ.tail m, s)) all_later)
