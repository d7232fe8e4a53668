-- ===== src/Notify/Sends.antt =====
-- internal/notify/notify.go: the calls of Send that a message makes.
use run_cd.Base.{
  ℕ, String, ◌≡◌, refl, ◌∙◌, ap, Bool, true, false, Option, none, some, List, [], ◌∷◌, ◌++◌, All,
  All-append, Result, ok, err,
}
use run_cd.Notify.{
  DebounceRow, Key, Message, Sent, World, Outside, Statement, executed, execute, call_send,
  after_send, after_claim, confirmed, maybe_notify, claim_row,
}
use run_cd.Notify.Rules.{}

-- The calls of Send of the second world are those of the first, and before them new ones, of the kind.
pub record Adds (P : Sent → Type 0) (w next : World) : Type 0 where
  pub new : List Sent
  pub grown : next.sent ≡ new ++ w.sent
  pub of_kind : All P new

pub Adds-refl : (P : Sent → Type 0) (w : World) → Adds P w w
Adds-refl P w = record { new = []; grown = refl; of_kind = tt }

append_assoc : (xs ys zs : List Sent) → xs ++ (ys ++ zs) ≡ (xs ++ ys) ++ zs
append_assoc [] ys zs = refl
append_assoc (x ∷ xs) ys zs = ap (λ (l : List Sent). x ∷ l) (append_assoc xs ys zs)

pub Adds-trans : (P : Sent → Type 0) (a b c : World) → Adds P a b → Adds P b c → Adds P a c
Adds-trans P a b c f g = record {
  new = g.new ++ f.new;
  grown = g.grown ∙ (ap (λ (l : List Sent). g.new ++ l) f.grown ∙ append_assoc g.new f.new a.sent);
  of_kind = (All-append P g.new f.new).1 (g.of_kind, f.of_kind);
}

pub Adds-map :
    (P Q : Sent → Type 0) (a b : World) → ((s : Sent) → P s → Q s) → Adds P a b → Adds Q a b
Adds-map P Q a b f h = record { new = h.new; grown = h.grown; of_kind = all h.new h.of_kind }
  where
    all : (xs : List Sent) → All P xs → All Q xs
    all [] p = tt
    all (x ∷ xs) p = (f x p.0, all xs p.1)

executed-Adds :
    (P : Sent → Type 0) (key : Key) (w : World) (fault : Option String)
    (r : Option DebounceRow × Bool)
    → Adds P w (executed key w fault r).0
executed-Adds P key w none (row, returned) = record { new = []; grown = refl; of_kind = tt }
executed-Adds P key w (some e) (row, returned) = record { new = []; grown = refl; of_kind = tt }

pub execute-Adds :
    (P : Sent → Type 0) (x : Outside) (key : Key) (statement : ℕ → Statement) (w : World)
    → Adds P w (execute x key statement w).0
unfolding execute
execute-Adds P x key statement w = executed-Adds P key w (x.fault w.statements) _

-- The call of Send for the message, delivered or not.
abbrev pub Calls : String → Message → Key → Sent → Type 0
Calls sink message key s = (s.sink ≡ sink) × (s.message ≡ message) × (s.key ≡ key)

call_send-Adds :
    (sink : String) (message : Message) (key : Key) (fault : Option String) (w : World)
    → Adds (Calls sink message key) w (call_send sink message key fault w)
call_send-Adds sink message key none w = record {
  new = _ ∷ [];
  grown = refl;
  of_kind = ((refl, refl, refl), tt);
}
call_send-Adds sink message key (some e) w = record {
  new = _ ∷ [];
  grown = refl;
  of_kind = ((refl, refl, refl), tt);
}

confirmed-Adds :
    (P : Sent → Type 0) (key : Key) (w : World) (r : World × Result String Bool)
    → Adds P w r.0
    → Adds P w (confirmed key r).0
confirmed-Adds P key w (next, ok b) h = h
confirmed-Adds P key w (next, err e) h = h

after_send-Adds :
    (P : Sent → Type 0) (x : Outside) (key : Key) (fault : Option String) (w : World)
    → Adds P w (after_send x key fault w).0
after_send-Adds P x key none w = confirmed-Adds P key w _ (execute-Adds P x key _ w)
after_send-Adds P x key (some e) w = execute-Adds P x key _ w

after_claim-Adds :
    (x : Outside) (sink : String) (message : Message) (key : Key) (w : World)
    (r : World × Result String Bool)
    → Adds (Calls sink message key) w r.0
    → Adds (Calls sink message key) w (after_claim x sink message key r).0
after_claim-Adds x sink message key w (next, err e) h = h
after_claim-Adds x sink message key w (next, ok false) h = h
after_claim-Adds x sink message key w (next, ok true) h =
    let fault = x.send_fault next.statements in
    let called = call_send sink message key fault next in
    Adds-trans _ w next _ h (
      Adds-trans _ next called _ (call_send-Adds sink message key fault next)
        (after_send-Adds _ x key fault called))

pub maybe_notify-Adds :
    (x : Outside) (interval ttl : ℕ) (sink : String) (message : Message) (key : Key) (w : World)
    → Adds (Calls sink message key) w (maybe_notify x interval ttl sink message key w).0
unfolding maybe_notify
maybe_notify-Adds x interval ttl sink message key w =
    after_claim-Adds x sink message key w _ (execute-Adds _ x key (claim_row interval ttl) w)
