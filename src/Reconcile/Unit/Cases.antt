-- ===== src/Reconcile/Unit/Cases.antt =====
-- The ways through reconcile: an early return, or applyLiveState on a result in good order.
use run_cd.Base.{
  String, ◌≡◌, ◌≢◌, ◌⊎◌, inl, inr, refl, Option, none, some, List, Result, ok, err, Bool-cases,
  if_cases,
}
use run_cd.Manifest
use run_cd.Manifest.{ServiceDefinition}
use run_cd.Precondition.{CheckError, check}
use run_cd.Cloudrun.{ServiceState}
use run_cd.Expander.{SyncUnit}
use run_cd.Reconcile.{Status, SyncError, SyncResult, SyncOptions, env_unsupported, World, External}
use run_cd.Reconcile.Deploy.{Target, Attempt, Run}
use run_cd.Reconcile.Pass.{
  observe_mode_enabled, effective_managed_fields, filter_preconditions, apply_live_state,
}
use run_cd.Reconcile.Unit.{
  invalid, blank, described, has_override, with_digest, with_preconditions, desired_digest,
  on_target, assess, on_digest, on_definition, on_manifest, reconcile,
}

-- A result before live state is read: of the unit, and Invalid with an error or with neither.
pub record IsEntering (unit : SyncUnit) (res : SyncResult) : Type 0 where
  pub of_unit : res.unit ≡ unit
  pub observes : res.observing ≡ observe_mode_enabled unit.sync
  pub undecided :
      ((res.status ≡ Status.unset) × (res.error ≡ none))
      ⊎ ((res.status ≡ Status.invalid) × (res.error ≢ none))

-- The same before the preconditions are checked.
record IsFresh (unit : SyncUnit) (res : SyncResult) : Type 0 where
  of_unit : res.unit ≡ unit
  observes : res.observing ≡ observe_mode_enabled unit.sync
  unset : res.status ≡ Status.unset
  no_error : res.error ≡ none

blank-IsFresh : (unit : SyncUnit) → IsFresh unit (blank unit)
blank-IsFresh unit = record { of_unit = refl; observes = refl; unset = refl; no_error = refl }

with_preconditions-IsEntering :
    (unit : SyncUnit) (res : SyncResult) (e : Option CheckError)
    → IsFresh unit res
    → IsEntering unit (with_preconditions e res)
with_preconditions-IsEntering unit res none f = record {
  of_unit = f.of_unit;
  observes = f.observes;
  undecided = inl (f.unset, f.no_error);
}
with_preconditions-IsEntering unit res (some e) f = record {
  of_unit = f.of_unit;
  observes = f.observes;
  undecided = inr (refl, λ q. cc);
}

with_digest-IsFresh :
    (unit : SyncUnit) (digest : String) (res : SyncResult)
    → IsFresh unit res
    → IsFresh unit (with_digest unit digest res)
with_digest-IsFresh unit digest res f = elim (Bool-cases (has_override unit)) [
  | inl h ↦ rw h (record {
    of_unit = f.of_unit;
    observes = f.observes;
    unset = f.unset;
    no_error = f.no_error;
  })
  | inr h ↦ rw h (record {
    of_unit = f.of_unit;
    observes = f.observes;
    unset = f.unset;
    no_error = f.no_error;
  })
]

module _ (x : External) (base : List String) (unit : SyncUnit) (options : SyncOptions)
    (w : World x.Cloud) (P : Run x → Type 0)
    (early : (res : SyncResult) (e : SyncError)
      → res.unit ≡ unit
      → res.observing ≡ observe_mode_enabled unit.sync
      → P (w, invalid e res))
    (live : (a : Attempt x.Cloud) (res : SyncResult)
      → a.unit ≡ unit
      → a.options ≡ options
      → a.managed_fields ≡ effective_managed_fields base unit.ignore_fields
      → IsEntering unit res
      → P (apply_live_state x a res w)) where
  on_target_cases :
      (sd : ServiceDefinition) (desired : ServiceState) (res : SyncResult)
      → IsEntering unit res
      → (t : Option (Target x.Cloud))
      → P (
          on_target x unit options sd desired
            (effective_managed_fields base unit.ignore_fields)
            res
            w
            t)
  on_target_cases sd desired res i none = early res _ i.of_unit i.observes
  on_target_cases sd desired res i (some target) = live _ res refl refl refl i

  assess_cases :
      (sd : ServiceDefinition) (digest : String) (res : SyncResult)
      → IsFresh unit res
      → P (assess x base unit options sd digest res w)
  unfolding assess
  assess_cases sd digest res f =
      let checked =
        with_preconditions
          (check x.checker unit.project
            (filter_preconditions sd.requires unit.ignore_preconditions))
          res in
      let i = with_preconditions-IsEntering unit res _ f in
      if_cases P _ _ _ (early checked env_unsupported i.of_unit i.observes)
        (on_target_cases sd _ checked i _)

  on_digest_cases :
      (sd : ServiceDefinition) (res : SyncResult)
      → IsFresh unit res
      → (r : Result SyncError String) → P (on_digest x base unit options sd res w r)
  on_digest_cases sd res f (err e) = early res e f.of_unit f.observes
  on_digest_cases sd res f (ok digest) =
      assess_cases sd digest (with_digest unit digest res) (with_digest-IsFresh unit digest res f)

  on_definition_cases :
      (r : Result Manifest.ParseError ServiceDefinition)
      → P (on_definition x base unit options (blank unit) w r)
  on_definition_cases (err e) = early (blank unit) _ refl refl
  on_definition_cases (ok sd) =
      on_digest_cases sd (described sd (blank unit))
        (record { of_unit = refl; observes = refl; unset = refl; no_error = refl })
        (desired_digest x unit sd)

  on_manifest_cases :
      (r : Result String String) → P (on_manifest x base unit options (blank unit) w r)
  on_manifest_cases (err e) = early (blank unit) _ refl refl
  on_manifest_cases (ok raw) = on_definition_cases (Manifest.parse x.unmarshal raw)

  pub reconcile_cases : P (reconcile x base unit options w)
  unfolding reconcile
  reconcile_cases = on_manifest_cases (x.get_manifest unit)
