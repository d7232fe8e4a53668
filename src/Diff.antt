-- ===== src/Diff.antt =====
-- internal/diff/diff.go: desired against live state, on the managed fields alone.
pub mod Maps
pub mod Laws
use run_cd.Base.{
  ℕ, String, ◌==◌, Bool, true, false, not, ◌&&◌, ◌||◌, Option, none, some, List, [], ◌∷◌, length,
  is_some, lookup, nat_eq, if◌then◌else◌,
}
use run_cd.Cloudrun.{SecretRef, ServiceState}
use run_cd.Health.{traffic_equal}

pub data Status : Type 0 where
  synced out_of_sync : Status

abbrev pub entry_equal {ℓ} : {V : Type ℓ} → (V → V → Bool) → V → Option V → Bool
entry_equal same v none = false
entry_equal same v (some w) = same w v

-- the loop of stringMapEqual and of secretMapEqual
unfoldable pub all_in {ℓ} :
    {V : Type ℓ} → (V → V → Bool) → List (String × V) → List (String × V) → Bool
all_in same [] b = true
all_in same ((k, v) ∷ a) b = entry_equal same v (lookup k b) && all_in same a b

unfoldable pub map_equal {ℓ} :
    {V : Type ℓ} → (V → V → Bool) → List (String × V) → List (String × V) → Bool
unfolding all_in
map_equal same a b = nat_eq (length a) (length b) && all_in same a b

abbrev pub entries_of {ℓ} : {V : Type ℓ} → Option (List (String × V)) → List (String × V)
entries_of none = []
entries_of (some m) = m

abbrev pub secret_same : SecretRef → SecretRef → Bool
secret_same a b = (a.secret == b.secret) && (a.version == b.version)

abbrev pub text_same : String → String → Bool
text_same a b = a == b

unfoldable pub string_map_equal :
    Option (List (String × String)) → Option (List (String × String)) → Bool
unfolding map_equal
string_map_equal a b = map_equal text_same (entries_of a) (entries_of b)

unfoldable pub secret_map_equal :
    Option (List (String × SecretRef)) → Option (List (String × SecretRef)) → Bool
unfolding map_equal
secret_map_equal a b = map_equal secret_same (entries_of a) (entries_of b)

abbrev pub traffic_matches : ServiceState → ServiceState → String → Bool
traffic_matches desired live resource_type =
    not (resource_type == "service")
    || (not (is_some desired.traffic_latest_revision_percent)
        || traffic_equal desired.traffic_latest_revision_percent
            live.traffic_latest_revision_percent)

abbrev pub env_matches : ServiceState → ServiceState → String → Bool
env_matches desired live resource_type =
    (resource_type == "job")
    || ((not (is_some desired.env_vars) && not (is_some desired.secret_refs))
        || (string_map_equal desired.env_vars live.env_vars
            && secret_map_equal desired.secret_refs live.secret_refs))

-- the switch on one field: whether the loop goes on to the next
unfoldable pub field_matches : ServiceState → ServiceState → String → String → Bool
field_matches desired live resource_type field =
    if field == "image"
    then desired.image_digest == live.image_digest
    else if field == "traffic"
    then traffic_matches desired live resource_type
    else if field == "env"
    then env_matches desired live resource_type
    else true

unfoldable pub compute : ServiceState → ServiceState → List String → String → Status
unfolding field_matches
compute desired live [] resource_type = synced
compute desired live (field ∷ rest) resource_type =
    let next = compute desired live rest resource_type in
    if field_matches desired live resource_type field then next else out_of_sync
