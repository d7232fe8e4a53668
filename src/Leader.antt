-- ===== src/Leader.antt =====
-- internal/leader/lease.go: the lease that one replica holds, and the loop that renews it. A time is
-- in seconds.
pub mod Exclusion
pub mod Reports
use run_cd.Base.{
  ℕ, ◌+◌, String, ◌==◌, Bool, true, false, not, ◌||◌, Option, none, some, List, [], ◌∷◌, ◌++◌, ltb,
  nat_eq, Result, ok, err, if◌then◌else◌,
}

-- The row of leader_lease.
pub record LeaseRow : Type 0 where
  pub holder_id : String
  pub expires_at : ℕ

-- TTL
abbrev pub ttl : ℕ
ttl = 30

-- UPDATE leader_lease … WHERE id = 1 AND (holder_id = $1 OR expires_at < now()): the rows affected.
unfoldable pub claim_row : String → ℕ → LeaseRow → LeaseRow × ℕ
claim_row holder now row =
    if (row.holder_id == holder) || ltb row.expires_at now
    then (record { holder_id = holder; expires_at = now + ttl }, 1)
    else (row, 0)

abbrev claimed : LeaseRow → Option String → LeaseRow × ℕ → LeaseRow × Result String Bool
claimed row none (row', n) = (row', ok (nat_eq n 1))
claimed row (some e) (row', n) = (row, err e)

-- Claim, with the fault of the statement.
unfoldable pub claim : String → ℕ → Option String → LeaseRow → LeaseRow × Result String Bool
unfolding claim_row
claim holder now fault row = claimed row fault (claim_row holder now row)

-- One claim by some replica.
pub record Attempt : Type 0 where
  pub holder : String
  pub now : ℕ
  pub fault : Option String

abbrev pub won : Result String Bool → Bool
won (ok b) = b
won (err e) = false

-- The claims of a history that make their replica the leader.
unfoldable pub wins : LeaseRow → List Attempt → List Attempt
wins row [] = []
wins row (a ∷ rest) =
    let (row', r) = claim a.holder a.now a.fault row in
    let later = wins row' rest in if won r then a ∷ later else later

-- What wakes the loop of Run: a tick, whose claim has a result, or the end of the context.
pub data Event : Type 0 where
  tick : Result String Bool → Event
  done : Event

-- `wasLeader`, the calls of `leading`, and the error that Run returns, if it does.
pub record Progress : Type 0 where
  pub was_leader : Bool
  pub calls : List Bool
  pub returned : Option String

-- `if wasLeader { wasLeader = false; leading(false) }; return err`
abbrev stop : Bool → String → Progress
stop was e = record {
  was_leader = false;
  calls = if was then false ∷ [] else [];
  returned = some e;
}

abbrev same : Bool → Bool → Bool
same true b = b
same false b = not b

abbrev pub on_event : Bool → Event → Progress
on_event was (tick (err e)) = stop was e
on_event was (tick (ok leads)) = record {
  was_leader = leads;
  calls = if same leads was then [] else leads ∷ [];
  returned = none;
}
on_event was done = stop was "context canceled"

abbrev pub continue_with : Progress → Progress → Option String → Progress
continue_with p later none = record later { calls = p.calls ++ later.calls }
continue_with p later (some e) = p

-- The loop over the events; it goes on until one of them makes it return.
unfoldable pub run : Bool → List Event → Progress
run was [] = record { was_leader = was; calls = []; returned = none }
run was (e ∷ rest) = let p = on_event was e in continue_with p (run p.was_leader rest) p.returned
