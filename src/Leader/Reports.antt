-- ===== src/Leader/Reports.antt =====
-- What Run tells its caller.
use run_cd.Base.{
  String, ◌≡◌, ◌≢◌, refl, Bool, true, false, Option, none, some, List, [], ◌∷◌, ◌++◌, ok, err,
}
use run_cd.Leader.{Event, tick, done, Progress, on_event, continue_with, run}

-- Each report is a change from the one before, and the last leaves the final state.
abbrev pub Follows : Bool → List Bool → Bool → Type 0
Follows was [] final = was ≡ final
Follows was (b ∷ rest) final = (b ≢ was) × Follows b rest final

Follows-append :
    (was : Bool) (xs : List Bool) (mid : Bool) (ys : List Bool) (final : Bool)
    → Follows was xs mid
    → Follows mid ys final
    → Follows was (xs ++ ys) final
Follows-append was [] mid ys final e h = rw e h
Follows-append was (b ∷ xs) mid ys final (change, rest) h =
    (change, Follows-append b xs mid ys final rest h)

-- The reports follow the state, and a return leaves the replica no leader.
abbrev pub Reports : Bool → Progress → Type 0
Reports was p =
    Follows was p.calls p.was_leader × ((e : String) → p.returned ≡ some e → p.was_leader ≡ false)

on_event-Reports : (was : Bool) (e : Event) → Reports was (on_event was e)
on_event-Reports true (tick (err m)) = ((λ q. cc, refl), λ k q. refl)
on_event-Reports false (tick (err m)) = (refl, λ k q. refl)
on_event-Reports true (tick (ok true)) = (refl, λ k q. absurd (cc))
on_event-Reports true (tick (ok false)) = ((λ q. cc, refl), λ k q. refl)
on_event-Reports false (tick (ok true)) = ((λ q. cc, refl), λ k q. absurd (cc))
on_event-Reports false (tick (ok false)) = (refl, λ k q. refl)
on_event-Reports true done = ((λ q. cc, refl), λ k q. refl)
on_event-Reports false done = (refl, λ k q. refl)

continue_with-Reports :
    (was : Bool) (p later : Progress) (o : Option String)
    → Reports was p
    → Reports p.was_leader later
    → Reports was (continue_with p later o)
continue_with-Reports was p later (some e) h k = h
continue_with-Reports was p later none h k =
    (Follows-append was p.calls p.was_leader later.calls later.was_leader h.0 k.0, k.1)

-- Over any events, each report that Run makes to its caller differs from the one before, the
-- first from the state at the start, and the last one gives the final state; and when Run
-- returns, the final state is that the replica does not lead.
pub run-Reports : (was : Bool) (events : List Event) → Reports was (run was events)
unfolding run
run-Reports was [] = (refl, λ e q. absurd (cc))
run-Reports was (e ∷ rest) =
    continue_with-Reports was (on_event was e) (run (on_event was e).was_leader rest)
      (on_event was e).returned (on_event-Reports was e)
      (run-Reports (on_event was e).was_leader rest)
