-- ===== src/Manifest.antt =====
-- internal/manifest/service.go: a service definition and its validation.
pub mod Valid
pub mod Parsed
use Prim.Native.Char.{code}
use Prim.Native.String
use run_cd.Base.{
  ℕ, suc, String, ◌==◌, Bool, true, false, not, ◌&&◌, ◌||◌, Option, none, some, List, [], ◌∷◌, map,
  leb, nat_eq, is_some, lookup, contains, cut_prefix, Result, ok, err, ◌then_check◌, reject,
  if◌then◌else◌,
}
use run_cd.Base.Int.{ℤ, pos, eq_ℤ}

pub record Image : Type 0 where
  pub digest : String
  pub track : String
  pub version : String
  pub repository : String

-- the pointed-to percentage; a nil Traffic is `none` in the definition
pub record Traffic : Type 0 where
  pub latest_revision_percent : Option ℤ

pub record Precondition : Type 0 where
  pub type : String
  pub name : String

pub record SecretRef : Type 0 where
  pub name : String
  pub secret : String
  pub version : String

pub record ServiceDefinition : Type 0 where
  pub resource_type : String
  pub image : Image
  pub traffic : Option Traffic
  pub env : Option (List (String × String))
  pub secrets : List SecretRef
  pub requires : List Precondition

pub data ParseError : Type 0 where
  yaml_error unknown_resource_type digest_missing digest_malformed track_and_version : ParseError
  repository_missing traffic_unsupported env_name_empty secret_name_empty : ParseError
  secret_missing secret_repeated secret_in_env : String → ParseError

-- [0-9a-f]
abbrev pub is_hex : ℕ → Bool
is_hex c = (leb b'0' c && leb c b'9') || (leb b'a' c && leb c b'f')

unfoldable pub all_chars : (ℕ → Bool) → String → Bool
all_chars p String.[] = true
all_chars p (String.◌∷◌ c s) = p (code c) && all_chars p s

unfoldable pub text_length : String → ℕ
text_length String.[] = 0
text_length (String.◌∷◌ c s) = suc (text_length s)

abbrev is_hex_of_length : ℕ → Option String → Bool
is_hex_of_length n none = false
is_hex_of_length n (some s) = nat_eq (text_length s) n && all_chars is_hex s

-- ^sha256:[0-9a-f]{64}$
unfoldable pub matches_digest_pattern : String → Bool
unfolding all_chars text_length
matches_digest_pattern s = is_hex_of_length 64 (cut_prefix "sha256:" s)

unfoldable pub validate_image : Image → Option ParseError
validate_image img =
    reject (img.digest == "") digest_missing
    then_check reject (not (matches_digest_pattern img.digest)) digest_malformed
    then_check reject (not (img.track == "") && not (img.version == "")) track_and_version
    then_check reject ((not (img.track == "") || not (img.version == "")) && (img.repository == ""))
        repository_missing

abbrev pub percent_check : Option ℤ → Option ParseError
percent_check none = none
percent_check (some p) = reject (not (eq_ℤ p (pos 100))) traffic_unsupported

unfoldable pub validate_traffic : Option Traffic → Option ParseError
validate_traffic none = none
validate_traffic (some t) = percent_check t.latest_revision_percent

abbrev pub env_entries : Option (List (String × String)) → List (String × String)
env_entries none = []
env_entries (some m) = m

-- the loop of validateSecrets
unfoldable pub check_secrets :
    List (String × String) → List String → List SecretRef → Option ParseError
check_secrets env seen [] = none
check_secrets env seen (s ∷ rest) =
    let later = check_secrets env (s.name ∷ seen) rest in
    reject (s.name == "") secret_name_empty
    then_check reject (s.secret == "") (secret_missing s.name)
    then_check reject (contains seen s.name) (secret_repeated s.name)
    then_check reject (is_some (lookup s.name env)) (secret_in_env s.name)
    then_check later

unfoldable pub validate_secrets :
    Option (List (String × String)) → List SecretRef → Option ParseError
unfolding check_secrets
validate_secrets env secrets =
    reject (is_some (lookup "" (env_entries env))) env_name_empty
    then_check check_secrets (env_entries env) [] secrets

-- a missing resource type is a service
abbrev pub with_default : ServiceDefinition → ServiceDefinition
with_default sd = record sd {
  resource_type = if sd.resource_type == "" then "service" else sd.resource_type;
}

unfoldable pub validate : ServiceDefinition → Option ParseError
unfolding validate_image validate_traffic validate_secrets
validate sd =
    reject
      (not (sd.resource_type == "service")
        && (not (sd.resource_type == "job") && not (sd.resource_type == "workerPool")))
      unknown_resource_type
    then_check validate_image sd.image
    then_check validate_traffic sd.traffic
    then_check validate_secrets sd.env sd.secrets

abbrev pub accepted : ServiceDefinition → Option ParseError → Result ParseError ServiceDefinition
accepted sd none = ok sd
accepted sd (some e) = err e

abbrev pub parse_decoded : Option ServiceDefinition → Result ParseError ServiceDefinition
parse_decoded none = err yaml_error
parse_decoded (some sd) = accepted (with_default sd) (validate (with_default sd))

-- Parse, over the YAML decoder, whose failure is `none`.
unfoldable pub parse :
    (String → Option ServiceDefinition) → String → Result ParseError ServiceDefinition
parse unmarshal bytes = parse_decoded (unmarshal bytes)
