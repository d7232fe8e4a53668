-- ===== src/Precondition/Cache.antt =====
-- internal/precondition/gcp.go: the checker over Pub/Sub, its client per project and its cache.
-- Times are in nanoseconds. The calls come one after another, so that the singleflight groups,
-- which join calls of one key, only look the key up once more.
pub mod Fresh
use Prim.Native.Char.{Char}
use Prim.Native.String.{◌++◌}
use run_cd.Base.{
  ℕ, ◌+◌, String, Bool, Option, none, some, List, [], ◌∷◌, Result, ok, err, leb, nat_eq, lookup,
  contains, if◌then◌else◌,
}
use run_cd.Base.Int.{ℤ, pos, negsuc}

pub data Kind : Type 0 where
  topic subscription : Kind

-- What Pub/Sub answers at a time. An error is its text.
pub record PubSub : Type 0 where
  pub new_client : ℕ → String → Result String (Unit {0})
  pub topic_exists : ℕ → String → String → Result String Bool
  pub subscription_exists : ℕ → String → String → Result String Bool

pub record CacheEntry : Type 0 where
  pub exists : Bool
  pub fetched_at : ℕ

-- The projects that have a client, and existsCache.
pub record GcpChecker : Type 0 where
  pub clients : List String
  pub exists_cache : List (String × CacheEntry)

-- One call of the checker: when it comes, and when Pub/Sub's answer is there, if it is asked.
pub record Query : Type 0 where
  pub kind : Kind
  pub project : String
  pub name : String
  pub now : ℕ
  pub fetched : ℕ

-- DefaultExistsCacheTTL, 60 seconds
abbrev pub default_exists_cache_ttl : ℕ
default_exists_cache_ttl = 60000000000

abbrev pub ttl_of : ℤ → ℕ
ttl_of (pos n) = if nat_eq n 0 then default_exists_cache_ttl else n
ttl_of (negsuc n) = default_exists_cache_ttl

abbrev pub kind_text : Kind → String
kind_text topic = "topic"
kind_text subscription = "sub"

abbrev pub slash : Char
slash = Char.char b'/' tt

abbrev pub key_of : Kind → String → String → String
key_of kind project name = kind_text kind ++ String.◌∷◌ slash (project ++ String.◌∷◌ slash name)

-- The closures of TopicExists and SubscriptionExists.
abbrev pub fetch : PubSub → Kind → String → String → ℕ → Result String Bool
fetch p topic project name at = p.topic_exists at project name
fetch p subscription project name at = p.subscription_exists at project name

abbrev pub created :
    GcpChecker → String → Result String (Unit {0}) → GcpChecker × Result String (Unit {0})
created c project (err e) = (c, err ("create pubsub client for " ++ project ++ ": " ++ e))
created c project (ok tt) = (record c { clients = project ∷ c.clients }, ok tt)

unfoldable pub client : PubSub → String → ℕ → GcpChecker → GcpChecker × Result String (Unit {0})
client p project now c =
    if contains c.clients project then (c, ok tt) else created c project (p.new_client now project)

abbrev pub unexpired : ℕ → ℕ → Option CacheEntry → Option Bool
unexpired ttl now none = none
unexpired ttl now (some e) = if leb (e.fetched_at + ttl) now then none else some e.exists

unfoldable pub cached_exists : String → ℕ → ℕ → GcpChecker → Option Bool
cached_exists key ttl now c = unexpired ttl now (lookup key c.exists_cache)

-- Only an answer is cached, no error.
abbrev pub cached : String → ℕ → Result String Bool → GcpChecker → GcpChecker × Result String Bool
cached key at (err e) c = (c, err e)
cached key at (ok exists) c = (
  record c { exists_cache = (key, record { exists = exists; fetched_at = at }) ∷ c.exists_cache },
  ok exists,
)

abbrev pub fetched_by :
    PubSub → Query → GcpChecker × Result String (Unit {0}) → GcpChecker × Result String Bool
fetched_by p q (c, err e) = (c, err e)
fetched_by p q (c, ok tt) =
    cached (key_of q.kind q.project q.name) q.fetched (fetch p q.kind q.project q.name q.fetched) c

-- What the singleflight group runs.
abbrev pub in_flight : PubSub → Query → Option Bool → GcpChecker → GcpChecker × Result String Bool
in_flight p q (some exists) c = (c, ok exists)
in_flight p q none c = fetched_by p q (client p q.project q.now c)

abbrev pub or_fetched :
    PubSub → ℕ → Query → Option Bool → GcpChecker → GcpChecker × Result String Bool
or_fetched p ttl q (some exists) c = (c, ok exists)
or_fetched p ttl q none c =
    in_flight p q (cached_exists (key_of q.kind q.project q.name) ttl q.now c) c

-- checkExists, with TopicExists and SubscriptionExists as its kinds.
unfoldable pub check_exists : PubSub → ℤ → Query → GcpChecker → GcpChecker × Result String Bool
check_exists p ttl q c =
    or_fetched p (ttl_of ttl) q
      (cached_exists (key_of q.kind q.project q.name) (ttl_of ttl) q.now c) c

-- NewGCPChecker
abbrev pub new_gcp_checker : GcpChecker
new_gcp_checker = record { clients = []; exists_cache = [] }

-- The answers to calls that come one after another.
unfoldable pub answers : PubSub → ℤ → GcpChecker → List Query → List (Query × Result String Bool)
answers p ttl c [] = []
answers p ttl c (q ∷ rest) =
    let (next, r) = check_exists p ttl q c in (q, r) ∷ answers p ttl next rest
