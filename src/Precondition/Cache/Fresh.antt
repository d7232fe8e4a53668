-- ===== src/Precondition/Cache/Fresh.antt =====
-- How old an answer of checkExists can be, whatever else the cache holds.
use Prim.Native.Char.{code}
use run_cd.Base.{
  ℕ, ◌+◌, ◌≤◌, ◌<◌, String, ◌==◌, ◌≡◌, refl, sym, ap, ◌∙◌, subst, Bool, true, false, Bool-cases,
  Option, none, some, List, [], ◌∷◌, All, Result, ok, err, inl, inr, arith, leb, lookup, contains,
  eq_iff, Lacks, cut, cut-append, if_cases, Option-cases,
}
use run_cd.Base.Int.{ℤ, pos, negsuc}
use run_cd.Precondition.Cache.{
  Kind, topic, subscription, PubSub, CacheEntry, GcpChecker, Query, ttl_of, kind_text, slash,
  key_of, fetch, created, client, unexpired, cached_exists, cached, fetched_by, check_exists,
  new_gcp_checker, answers,
}

-- Each call comes once the one before it has its answer.
abbrev pub Ordered : ℕ → List Query → Type 0
Ordered from [] = Unit
Ordered from (q ∷ rest) = (from ≤ q.now) × (q.now ≤ q.fetched) × Ordered q.fetched rest

ttl_of-positive : (ttl : ℤ) → 0 < ttl_of ttl
ttl_of-positive (pos n) = ground arith
ttl_of-positive (negsuc n) = omega arith

kind_text-Lacks : (k : Kind) → Lacks (code slash) (kind_text k)
kind_text-Lacks topic =
    (omega arith, (omega arith, (omega arith, (omega arith, (omega arith, tt)))))
kind_text-Lacks subscription = (omega arith, (omega arith, (omega arith, tt)))

kind_text-injective : (k l : Kind) → kind_text k ≡ kind_text l → k ≡ l
kind_text-injective topic topic e = refl
kind_text-injective topic subscription e =
    let t : false ≡ true = (eq_iff "topic" "sub").1 e in absurd (cc)
kind_text-injective subscription topic e =
    let t : false ≡ true = (eq_iff "sub" "topic").1 e in absurd (cc)
kind_text-injective subscription subscription e = refl

some_pair :
    {a b c d : String}
    → ◌≡◌ {A = Option (String × String)} (some (a, b)) (some (c, d))
    → (a ≡ c) × (b ≡ d)
some_pair e = (cc, cc)

lookup-All {ℓ κ} :
    {B : Type ℓ} (P : String × B → Type κ) (k : String) (m : List (String × B)) (v : B)
    → All P m
    → lookup k m ≡ some v
    → P (k, v)
unfolding lookup
lookup-All P k [] v a h = absurd (cc)
lookup-All {B = B} P k ((j, u) ∷ m) v a h = elim (Bool-cases (j == k)) [
  | inl same ↦
      let key_at : j ≡ k = (eq_iff j k).0 same in
      let value : ◌≡◌ {A = Option B} (some u) (some v) = rw same at h in
      let pair : ◌≡◌ {A = String × B} (j, u) (k, v) = cc in subst P pair a.0
  | inr other ↦ lookup-All P k m v a.1 (rw other at h)
]

-- Two questions with one key are one question.
key_of-injective :
    (k l : Kind) (project other name last : String)
    → Lacks (code slash) project
    → Lacks (code slash) other
    → key_of k project name ≡ key_of l other last
    → (k ≡ l) × (project ≡ other) × (name ≡ last)
key_of-injective k l project other name last lp lo e =
    let outer =
      sym (cut-append slash (kind_text k) _ (kind_text-Lacks k))
      ∙ ap (cut (code slash)) e
      ∙ cut-append slash (kind_text l) _ (kind_text-Lacks l) in
    let tail = some_pair outer in
    let inner =
      sym (cut-append slash project name lp)
      ∙ ap (cut (code slash)) tail.1
      ∙ cut-append slash other last lo in
    let ends = some_pair inner in (kind_text-injective k l tail.0, ends.0, ends.1)

module _ (p : PubSub) where
  -- The entry is what Pub/Sub answered, at its time, to the question with its key.
  abbrev Told : ℕ → String × CacheEntry → Type 0
  Told until (key, e) =
      (e.fetched_at ≤ until)
      × ((k : Kind) (project name : String)
          → Lacks (code slash) project
          → key ≡ key_of k project name
          → fetch p k project name e.fetched_at ≡ ok e.exists)

  All-later :
      (now later : ℕ) (m : List (String × CacheEntry))
      → now ≤ later
      → All (Told now) m
      → All (Told later) m
  All-later now later [] o a = tt
  All-later now later ((k, e) ∷ m) o a =
      ((omega (arith, a.0.0), a.0.1), All-later now later m o a.1)

  -- The answer is Pub/Sub's to the question, at a time that is less than the time to live ago.
  abbrev pub IsFresh : ℕ → Query → Result String Bool → Type 0
  IsFresh ttl q r =
      (exists : Bool)
      → r ≡ ok exists
      → (at : ℕ) × (fetch p q.kind q.project q.name at ≡ ok exists)
        × (at ≤ q.fetched)
        × (q.now < at + ttl)

  -- The checker after a call, and its answer.
  abbrev Good : ℕ → Query → GcpChecker × Result String Bool → Type 0
  Good ttl q (c, r) = All (Told q.fetched) c.exists_cache × IsFresh ttl q r

  unexpired-IsFresh :
      (ttl : ℕ) (q : Query) (c : GcpChecker) (exists : Bool)
      → q.now ≤ q.fetched
      → Lacks (code slash) q.project
      → All (Told q.now) c.exists_cache
      → cached_exists (key_of q.kind q.project q.name) ttl q.now c ≡ some exists
      → IsFresh ttl q (ok exists)
  unfolding cached_exists
  unexpired-IsFresh ttl q c exists o l a h = of_entry (lookup key c.exists_cache) refl h
    where
      key : String
      key = key_of q.kind q.project q.name

      of_entry :
          (e : Option CacheEntry)
          → lookup key c.exists_cache ≡ e
          → unexpired ttl q.now e ≡ some exists
          → IsFresh ttl q (ok exists)
      of_entry none found h = absurd (cc)
      of_entry (some e) found h = elim (Bool-cases (leb (e.fetched_at + ttl) q.now)) [
        | inl over ↦ let e : ◌≡◌ {A = Option Bool} none (some exists) = rw over at h in absurd (cc)
        | inr fresh ↦
            let (past, told) = lookup-All (Told q.now) key c.exists_cache e a found in
            let same : ◌≡◌ {A = Option Bool} (some e.exists) (some exists) = rw fresh at h in
            λ b r. (
              e.fetched_at,
              told q.kind q.project q.name l refl ∙ cc (same, r),
              omega arith,
              ground (arith, fresh),
            )
      ]

  created-cache :
      (c : GcpChecker) (project : String) (r : Result String Unit)
      → (created c project r).0.exists_cache ≡ c.exists_cache
  created-cache c project (err e) = refl
  created-cache c project (ok tt) = refl

  client-cache :
      (project : String) (now : ℕ) (c : GcpChecker)
      → (client p project now c).0.exists_cache ≡ c.exists_cache
  unfolding client
  client-cache project now c =
      if_cases (λ (r : GcpChecker × Result String Unit). r.0.exists_cache ≡ c.exists_cache)
        (contains c.clients project) _ _ refl (created-cache c project _)

  cached-Good :
      (ttl : ℕ) (q : Query) (c : GcpChecker) (r : Result String Bool)
      → 0 < ttl
      → q.now ≤ q.fetched
      → Lacks (code slash) q.project
      → fetch p q.kind q.project q.name q.fetched ≡ r
      → All (Told q.fetched) c.exists_cache
      → Good ttl q (cached (key_of q.kind q.project q.name) q.fetched r c)
  cached-Good ttl q c (err e) t o l f a = (a, λ b h. absurd (cc))
  cached-Good ttl q c (ok exists) t o l f a = (
    (
      (
        omega arith,
        λ k project name lp same.
            let (kinds, projects, names) =
              key_of-injective q.kind k q.project project q.name name l lp same in
            rw (← kinds, ← projects, ← names) f,
      ),
      a,
    ),
    λ b h. (q.fetched, f ∙ h, omega arith, omega arith),
  )

  fetched_by-Good :
      (ttl : ℕ) (q : Query) (s : GcpChecker × Result String Unit)
      → 0 < ttl
      → q.now ≤ q.fetched
      → Lacks (code slash) q.project
      → All (Told q.fetched) s.0.exists_cache
      → Good ttl q (fetched_by p q s)
  fetched_by-Good ttl q (c, err e) t o l a = (a, λ b h. absurd (cc))
  fetched_by-Good ttl q (c, ok tt) t o l a = cached-Good ttl q c _ t o l refl a

  check_exists-Good :
      (ttl : ℤ) (q : Query) (c : GcpChecker)
      → q.now ≤ q.fetched
      → Lacks (code slash) q.project
      → All (Told q.now) c.exists_cache
      → Good (ttl_of ttl) q (check_exists p ttl q c)
  unfolding check_exists
  check_exists-Good ttl q c o l a = elim (Option-cases looked) [
    | inl missing ↦
        rw (missing, missing)
          (fetched_by-Good (ttl_of ttl) q (client p q.project q.now c) (ttl_of-positive ttl) o l
            (rw (client-cache q.project q.now c) later))
    | inr (exists, found) ↦ rw found (later, unexpired-IsFresh (ttl_of ttl) q c exists o l a found)
  ]
    where
      looked : Option Bool
      looked = cached_exists (key_of q.kind q.project q.name) (ttl_of ttl) q.now c

      later : All (Told q.fetched) c.exists_cache
      later = All-later q.now q.fetched c.exists_cache o a

  answers-Good :
      (ttl : ℤ) (from : ℕ) (c : GcpChecker) (queries : List Query)
      → Ordered from queries
      → All (λ q. Lacks (code slash) q.project) queries
      → All (Told from) c.exists_cache
      → All (λ a. IsFresh (ttl_of ttl) a.0 a.1) (answers p ttl c queries)
  unfolding answers
  answers-Good ttl from c [] o l a = tt
  answers-Good ttl from c (q ∷ rest) o l a =
      let (kept, fresh) =
        check_exists-Good ttl q c o.1 l.0 (All-later from q.now c.exists_cache o.0 a) in
      (fresh, answers-Good ttl q.fetched (check_exists p ttl q c).0 rest o.2 l.1 kept)

-- Over any calls of TopicExists and SubscriptionExists, one after another and for projects whose
-- names hold no '/': each answer without an error is the one that Pub/Sub gave to that very
-- question at a time no later than the end of the call, and less than the time to live before
-- the call came.
pub answers-IsFresh :
    (p : PubSub) (ttl : ℤ) (from : ℕ) (queries : List Query)
    → Ordered from queries
    → All (λ q. Lacks (code slash) q.project) queries
    → All (λ a. IsFresh p (ttl_of ttl) a.0 a.1) (answers p ttl new_gcp_checker queries)
answers-IsFresh p ttl from queries o l = answers-Good p ttl from new_gcp_checker queries o l tt
