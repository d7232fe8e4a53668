-- ===== src/Cloudrun/Env/Laws.antt =====
-- An environment that is written and read back is the one that was declared.
use run_cd.Base.{String, ◌≡◌, refl, Option, none, some, List, [], ◌∷◌, ◌++◌, map, if_cases}
use run_cd.Cloudrun.{SecretRef}
use run_cd.Cloudrun.Env.{
  EnvValue, EnvVar, Container, plain, secret_key, unset, EnvState, env_step, env_from, before,
  insert, sorted, plain_var, secret_var, build_env_vars, env_state_from_containers, env_or_none,
}
use run_cd.Cloudrun.Env.Assign.{
  SameMap, SameMap-refl, SameMap-trans, SameMap-cons, SameMap-swap, assign_all, assign_all-SameMap,
  assign_all-IsMap,
}
use run_cd.Diff.{entries_of}
use run_cd.Diff.Maps.{IsMap}

abbrev collect_cons {ℓ} : {V : Type ℓ} → String → Option V → List (String × V) → List (String × V)
collect_cons k none m = m
collect_cons k (some v) m = (k, v) ∷ m

-- The variables of one kind, in order.
unfoldable collect {ℓ} : {V : Type ℓ} → (EnvValue → Option V) → List EnvVar → List (String × V)
collect f [] = []
collect f (e ∷ es) = collect_cons e.name (f e.value) (collect f es)

abbrev plain_of : EnvValue → Option String
plain_of (plain v) = some v
plain_of (secret_key r) = none
plain_of unset = some ""

abbrev secret_of : EnvValue → Option SecretRef
secret_of (plain v) = none
secret_of (secret_key r) = some r
secret_of unset = none

module _ {ℓ} {V : Type ℓ} (f : EnvValue → Option V) where
  collect_cons-swap :
      (i j : String) (v w : Option V) (m : List (String × V))
      → IsMap (collect_cons i v (collect_cons j w m))
      → SameMap (collect_cons i v (collect_cons j w m)) (collect_cons j w (collect_cons i v m))
  collect_cons-swap i j none w m u = SameMap-refl _ u
  collect_cons-swap i j (some a) none m u = SameMap-refl _ u
  collect_cons-swap i j (some a) (some b) m u = SameMap-swap i j a b m u

  collect_cons-SameMap :
      (i : String) (v : Option V) (a b : List (String × V))
      → IsMap (collect_cons i v a)
      → SameMap a b
      → SameMap (collect_cons i v a) (collect_cons i v b)
  collect_cons-SameMap i none a b u s = s
  collect_cons-SameMap i (some w) a b u s = SameMap-cons i w a b u s

  IsMap-tail :
      (i : String) (v : Option V) (m : List (String × V)) → IsMap (collect_cons i v m) → IsMap m
  IsMap-tail i none m u = u
  IsMap-tail i (some w) m u = u.1

  collect-insert :
      (e : EnvVar) (es : List EnvVar)
      → IsMap (collect f (e ∷ es))
      → SameMap (collect f (e ∷ es)) (collect f (insert e es))
  unfolding insert collect
  collect-insert e [] u = SameMap-refl _ u
  collect-insert e (x ∷ xs) u =
      let swapped = collect_cons-swap e.name x.name (f e.value) (f x.value) (collect f xs) u in
      let inner = collect-insert e xs (IsMap-tail x.name (f x.value) _ swapped.0) in
      if_cases (λ l. SameMap (collect f (e ∷ x ∷ xs)) (collect f l)) (before e.name x.name)
        (e ∷ x ∷ xs) (x ∷ insert e xs) (SameMap-refl _ u)
        (SameMap-trans _ _ _ swapped (collect_cons-SameMap x.name (f x.value) _ _ swapped.0 inner))

  collect-sorted :
      (es : List EnvVar) → IsMap (collect f es) → SameMap (collect f es) (collect f (sorted es))
  unfolding sorted collect
  collect-sorted [] u = SameMap-refl _ u
  collect-sorted (e ∷ es) u =
      let inner = collect-sorted es (IsMap-tail e.name (f e.value) _ u) in
      let moved = collect_cons-SameMap e.name (f e.value) _ _ u inner in
      SameMap-trans _ _ _ moved (collect-insert e (sorted es) moved.0)

-- The state whose maps have had these entries written to them.
abbrev Written : EnvState → List (String × String) → List (String × SecretRef) → EnvState → Type 0
Written s vars refs t =
    (entries_of t.0 ≡ assign_all (entries_of s.0) vars)
    × (entries_of t.1 ≡ assign_all (entries_of s.1) refs)

env_from-Written :
    (es : List EnvVar) (s : EnvState)
    → Written s (collect plain_of es) (collect secret_of es) (env_from s es)
unfolding env_from collect assign_all
env_from-Written [] s = (refl, refl)
env_from-Written (e ∷ es) s = step e.value (λ v. env_from-Written es (env_step s e.name v))
  where
    step :
        (v : EnvValue)
        → ((w : EnvValue)
            → Written
                (env_step s e.name w)
                (collect plain_of es)
                (collect secret_of es)
                (env_from (env_step s e.name w) es))
        → Written s
            (collect_cons e.name (plain_of v) (collect plain_of es))
            (collect_cons e.name (secret_of v) (collect secret_of es))
            (env_from (env_step s e.name v) es)
    step (plain v) ih = ih (plain v)
    step (secret_key r) ih = ih (secret_key r)
    step unset ih = ih unset

collect-secrets :
    (secrets : List (String × SecretRef))
    → (collect plain_of (map secret_var secrets) ≡ [])
      × (collect secret_of (map secret_var secrets) ≡ secrets)
unfolding collect
collect-secrets [] = (refl, refl)
collect-secrets ((k, r) ∷ m) = let (a, b) = collect-secrets m in (a, rw b refl)

collect-vars :
    (vars : List (String × String)) (secrets : List (String × SecretRef))
    → (collect plain_of (map plain_var vars ++ map secret_var secrets) ≡ vars)
      × (collect secret_of (map plain_var vars ++ map secret_var secrets) ≡ secrets)
unfolding collect
collect-vars [] secrets = collect-secrets secrets
collect-vars ((k, v) ∷ m) secrets = let (a, b) = collect-vars m secrets in (rw a refl, b)

collected {ℓ} :
    {V : Type ℓ} (f : EnvValue → Option V) (es : List EnvVar) (m : List (String × V))
    → collect f es ≡ m
    → IsMap m
    → SameMap m (assign_all [] (collect f (sorted es)))
collected f es m e u =
    let same = collect-sorted f es (rw e u) in
    rw (← e) (SameMap-trans _ _ _ same (assign_all-SameMap _ same.0))

env_or_none-env_from : (es : List EnvVar) → env_or_none es ≡ env_from (none, none) es
unfolding env_from
env_or_none-env_from [] = refl
env_or_none-env_from (e ∷ es) = refl

-- What is read back has no key twice.
pub env_or_none-IsMap :
    (es : List EnvVar)
    → IsMap (entries_of (env_or_none es).0) × IsMap (entries_of (env_or_none es).1)
env_or_none-IsMap es =
    let (values, refs) = env_from-Written es (none, none) in
    rw (env_or_none-env_from es, values, refs)
      (assign_all-IsMap (collect plain_of es) [] tt, assign_all-IsMap (collect secret_of es) [] tt)

pub env_or_none-build_env_vars :
    (vars : Option (List (String × String))) (secrets : Option (List (String × SecretRef)))
    → IsMap (entries_of vars)
    → IsMap (entries_of secrets)
    → let live = env_or_none (build_env_vars vars secrets) in
      SameMap (entries_of vars) (entries_of live.0)
      × SameMap (entries_of secrets) (entries_of live.1)
unfolding build_env_vars
env_or_none-build_env_vars vars secrets u w =
    let es = map plain_var (entries_of vars) ++ map secret_var (entries_of secrets) in
    let (values, refs) = env_from-Written (sorted es) (none, none) in
    let (a, b) = collect-vars (entries_of vars) (entries_of secrets) in
    rw (env_or_none-env_from (sorted es), values, refs)
      (collected plain_of es (entries_of vars) a u, collected secret_of es (entries_of secrets) b w)

-- The environment that buildEnvVars makes of plain values and of secrets, each without a
-- repeated key, is read back by envStateFromContainers as maps without repeated keys with the
-- same entries, whatever the other containers are.
pub env_state-build_env_vars :
    (vars : Option (List (String × String))) (secrets : Option (List (String × SecretRef)))
    (image : String) (others : List Container)
    → IsMap (entries_of vars)
    → IsMap (entries_of secrets)
    → let live =
        env_state_from_containers
          (record { image = image; env = build_env_vars vars secrets } ∷ others) in
      SameMap (entries_of vars) (entries_of live.0)
      × SameMap (entries_of secrets) (entries_of live.1)
unfolding env_state_from_containers
env_state-build_env_vars vars secrets image others u w = env_or_none-build_env_vars vars secrets u w
