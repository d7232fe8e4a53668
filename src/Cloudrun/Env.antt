-- ===== src/Cloudrun/Env.antt =====
-- internal/cloudrun/gcp.go: the environment of a container, written from the declared values and
-- secrets and read back from the live container.
pub mod Assign
pub mod Laws
use run_cd.Base.{
  ℕ, String, ◌==◌, Bool, true, false, Option, none, some, List, [], ◌∷◌, ◌++◌, map, if◌then◌else◌,
}
use run_cd.Cloudrun.{SecretRef}
use run_cd.Diff.{entries_of}
use Prim.Native.String
use Prim.Native.Nat.{Ordering}

-- EnvVar.Values: a plain value, a secret of a value source, or neither of them
pub data EnvValue : Type 0 where
  plain : String → EnvValue
  secret_key : SecretRef → EnvValue
  unset : EnvValue

pub record EnvVar : Type 0 where
  pub name : String
  pub value : EnvValue

pub record Container : Type 0 where
  pub image : String
  pub env : List EnvVar

-- m[k] = v
unfoldable pub assign {ℓ} : {V : Type ℓ} → String → V → List (String × V) → List (String × V)
assign k v [] = (k, v) ∷ []
assign k v ((j, w) ∷ m) = let rest = assign k v m in if j == k then (j, v) ∷ m else (j, w) ∷ rest

-- the same on a map that is made when it is first written
abbrev pub assign_made {ℓ} :
    {V : Type ℓ} → String → V → Option (List (String × V)) → Option (List (String × V))
assign_made k v m = some (assign k v (entries_of m))

-- vars and secrets
abbrev pub EnvState : Type 0
EnvState = Option (List (String × String)) × Option (List (String × SecretRef))

abbrev pub env_step : EnvState → String → EnvValue → EnvState
env_step (vars, secrets) name (plain v) = (assign_made name v vars, secrets)
env_step (vars, secrets) name (secret_key r) = (vars, assign_made name r secrets)
env_step (vars, secrets) name unset = (assign_made name "" vars, secrets)

unfoldable pub env_from : EnvState → List EnvVar → EnvState
unfolding assign
env_from s [] = s
env_from s (e ∷ es) = env_from (env_step s e.name e.value) es

abbrev pub env_or_none : List EnvVar → EnvState
env_or_none [] = (none, none)
env_or_none (e ∷ es) = env_from (none, none) (e ∷ es)

unfoldable pub env_state_from_containers : List Container → EnvState
unfolding env_from
env_state_from_containers [] = (none, none)
env_state_from_containers (c ∷ cs) = env_or_none c.env

abbrev pub before : String → String → Bool
before a b = elim (String.compare a b) [ Ordering.lt ↦ true | _ ↦ false ]

unfoldable pub insert : EnvVar → List EnvVar → List EnvVar
insert e [] = e ∷ []
insert e (x ∷ xs) = let rest = insert e xs in if before e.name x.name then e ∷ x ∷ xs else x ∷ rest

-- sort.Slice by name
unfoldable pub sorted : List EnvVar → List EnvVar
unfolding insert
sorted [] = []
sorted (e ∷ es) = insert e (sorted es)

abbrev pub plain_var : String × String → EnvVar
plain_var (name, value) = record { name = name; value = plain value }

abbrev pub secret_var : String × SecretRef → EnvVar
secret_var (name, ref) = record { name = name; value = secret_key ref }

unfoldable pub build_env_vars :
    Option (List (String × String)) → Option (List (String × SecretRef)) → List EnvVar
unfolding sorted
build_env_vars vars secrets =
    sorted (map plain_var (entries_of vars) ++ map secret_var (entries_of secrets))
