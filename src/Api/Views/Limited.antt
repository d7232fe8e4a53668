-- ===== src/Api/Views/Limited.antt =====
-- Whose history is read, and how much of it.
use run_cd.Base.{
  ℕ, ◌≤◌, String, ◌==◌, ◌≡◌, refl, true, Option, none, some, List, arith, Bool-cases, inl, inr,
}
use run_cd.Base.Int.{ℤ, pos, negsuc}
use run_cd.Expander.{SyncUnit}
use run_cd.Api.{forbidden, Handler, Request, may_sync}
use run_cd.Api.Views.{
  View, refused, whole, History, limit_of, history_limit, history_view, history_limited,
  history_found, history_for, handle_unit_history,
}

-- The events of a unit that the verified caller may sync, read with a limit from 1 to 500.
abbrev pub IsPermitted : {E : Type 0} → History E → Handler → Request → List E → Type 0
IsPermitted sync_history h r events =
    (email : String) × (unit : SyncUnit) × (limit : ℕ) × (r.caller ≡ some email)
    × (h.find r.app r.project ≡ some unit)
    × (may_sync h email unit ≡ true)
    × (1 ≤ limit)
    × (limit ≤ 500)
    × (sync_history r.app r.project limit ≡ some events)

limit_of-bounds : (n : Option ℤ) (limit : ℕ) → limit_of n ≡ some limit → (1 ≤ limit) × (limit ≤ 500)
limit_of-bounds none limit h = absurd (cc)
limit_of-bounds (some (negsuc n)) limit h = absurd (cc)
limit_of-bounds (some (pos n)) limit h = ground (arith, h)

history_limit-bounds :
    (atoi : String → Option ℤ) (q : String) (limit : ℕ)
    → history_limit atoi q ≡ some limit
    → (1 ≤ limit) × (limit ≤ 500)
unfolding history_limit
history_limit-bounds atoi q limit h = elim (Bool-cases (q == "")) [
  | inl none_given ↦
      let e : some 50 ≡ some limit = rw none_given at h in
      let one : 50 ≡ limit = cc in ground (arith, one)
  | inr given ↦ limit_of-bounds (atoi q) limit (rw given at h)
]

module _ {E : Type 0} (sync_history : History E) (atoi : String → Option ℤ) (h : Handler)
    (r : Request) (q : String) (events : List E) where
  history_view-some : (o : Option (List E)) → history_view o ≡ whole events → o ≡ some events
  history_view-some none k = absurd (cc)
  history_view-some (some es) k =
      let e : ◌≡◌ {A = View (List E)} (whole es) (whole events) = k in cc

  -- If the history of a unit is answered, the caller is verified and may sync the unit that is
  -- found, and the events are those of a query with a limit from 1 to 500, whatever the request
  -- asks for.
  pub handle_unit_history-IsPermitted :
      handle_unit_history sync_history atoi h r q ≡ whole events
      → IsPermitted sync_history h r events
  unfolding handle_unit_history
  handle_unit_history-IsPermitted k = of_caller r.caller refl k
    where
      of_limit :
          (email : String) (unit : SyncUnit)
          → r.caller ≡ some email
          → h.find r.app r.project ≡ some unit
          → may_sync h email unit ≡ true
          → (limit : Option ℕ) → history_limit atoi q ≡ limit
          → history_limited sync_history r limit ≡ whole events
          → IsPermitted sync_history h r events
      of_limit email unit caller found allowed none e l = absurd (cc)
      of_limit email unit caller found allowed (some limit) e l =
          let (low, high) = history_limit-bounds atoi q limit e in
          (email, unit, limit, caller, found, allowed, low, high, history_view-some _ l)

      of_found :
          (email : String)
          → r.caller ≡ some email
          → (found : Option SyncUnit) → h.find r.app r.project ≡ found
          → history_found sync_history atoi h r q email found ≡ whole events
          → IsPermitted sync_history h r events
      of_found email caller none e l = absurd (cc)
      of_found email caller (some unit) e l = elim (Bool-cases (may_sync h email unit)) [
        | inl allowed ↦
            of_limit email unit caller e allowed (history_limit atoi q) refl (rw allowed at l)
        | inr denied ↦ absurd (
            let p : ◌≡◌ {A = View (List E)} (refused forbidden) (whole events) = rw denied at l in
            cc)
      ]

      of_caller :
          (caller : Option String)
          → r.caller ≡ caller
          → history_for sync_history atoi h r q caller ≡ whole events
          → IsPermitted sync_history h r events
      of_caller none e l = absurd (cc)
      of_caller (some email) e l = of_found email e (h.find r.app r.project) refl l
