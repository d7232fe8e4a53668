-- ===== src/ImageUpdater/Committed.antt =====
-- What the image updater commits.
use run_cd.Base.{
  String, ◌==◌, ◌≡◌, ◌≢◌, ◌⊎◌, inl, inr, refl, ◌&&◌, Option, none, some, List, ◌∷◌, nat_eq, Result,
  ok, err, eq_iff, eq-false_iff, Bool-cases, if_cases,
}
use run_cd.Manifest.{ServiceDefinition, ParseError, parse}
use run_cd.Registry.{Tag, ResolveError, resolve}
use run_cd.Reconcile.Unit.{path_base}
use run_cd.ImageUpdater.{
  Manifest, Commit, Calls, UpdateError, rewritten_digest, digest_lines_found, checked,
  rewrite_digest, Updated, put, commit_of, on_rewritten, on_resolved, on_tags, on_parsed, on_file,
  update,
}

-- The rewritten content parses to a definition with the digest.
abbrev pub HasDigest : Calls → String → String → Type 0
HasDigest x content digest =
    (sd : ServiceDefinition) × (parse x.unmarshal content ≡ ok sd) × (sd.image.digest ≡ digest)

-- A commit of the manifest's file: a tag of the image's repository resolves to a digest other than the
-- one that the file holds, and the content that is committed, on the file's own sha, holds that digest.
pub record IsDue (x : Calls) (m : Manifest) (c : Commit) (digest : String) : Type 0 where
  pub old : String
  pub sd : ServiceDefinition
  pub tags : List Tag
  pub fetched : x.get_file m.repo m.branch m.path ≡ ok (old, c.sha)
  pub parsed : parse x.unmarshal old ≡ ok sd
  pub listed : x.list_tags sd.image.repository ≡ ok tags
  pub resolved :
      resolve x.semver tags sd.image.track sd.image.version (path_base sd.image.repository)
      ≡ ok digest
  pub differs : digest ≢ sd.image.digest
  pub has_digest : HasDigest x c.content digest
  pub in_place : (c.repo ≡ m.repo) × (c.branch ≡ m.branch) × (c.path ≡ m.path)

-- A run that commits nothing and reports no digest, or that commits and reports one that is due.
abbrev pub IsSound : Calls → Manifest → List Commit → Updated → Type 0
IsSound x m commits r =
    ((r.0 ≡ commits) × ((digest : String) → r.1 ≡ ok digest → digest ≡ ""))
    ⊎ ((c : Commit) × (digest : String) × (r.0 ≡ c ∷ commits)
        × (r.1 ≡ ok digest)
        × IsDue x m c digest)

idle :
    (x : Calls) (m : Manifest) (commits : List Commit) (e : UpdateError)
    → IsSound x m commits (commits, err e)
idle x m commits e = inl (refl, λ digest h. absurd (cc))

unchanged :
    (x : Calls) (m : Manifest) (commits : List Commit) → IsSound x m commits (commits, ok "")
unchanged x m commits =
    inl (
      refl,
      λ digest h. (let e : ◌≡◌ {A = Result UpdateError String} (ok "") (ok digest) = h in cc),
    )

checked-HasDigest :
    (x : Calls) (rewritten digest : String) (r : Result ParseError ServiceDefinition)
    (content : String)
    → parse x.unmarshal rewritten ≡ r
    → checked rewritten digest r ≡ ok content
    → HasDigest x content digest
checked-HasDigest x rewritten digest (err e) content q h = absurd (cc)
checked-HasDigest x rewritten digest (ok sd) content q h =
    elim (Bool-cases (sd.image.digest == digest)) [
      | inl same ↦
          let e : ◌≡◌ {A = Result UpdateError String} (ok rewritten) (ok content) = rw same at h in
          let one : rewritten ≡ content = cc in
          rw (← one) (sd, q, (eq_iff sd.image.digest digest).0 same)
      | inr other ↦ absurd (
          let e : ◌≡◌ {A = Result UpdateError String}
              (err (rewritten_digest sd.image.digest digest)) (ok content) =
            rw other at h in
          cc)
    ]

rewrite_digest-HasDigest :
    (x : Calls) (old digest content : String)
    → rewrite_digest x old digest ≡ ok content
    → HasDigest x content digest
unfolding rewrite_digest
rewrite_digest-HasDigest x old digest content h =
    elim (Bool-cases (nat_eq (x.digest_lines old) 1)) [
      | inl one ↦
          checked-HasDigest x (x.replace_digests old digest) digest _ content refl (rw one at h)
      | inr other ↦ absurd (
          let e : ◌≡◌ {A = Result UpdateError String}
              (err (digest_lines_found (x.digest_lines old))) (ok content) =
            rw other at h in
          cc)
    ]

module _ (x : Calls) (m : Manifest) (commits : List Commit) (old sha : String)
    (fetched : x.get_file m.repo m.branch m.path ≡ ok (old, sha)) where
  module _ (sd : ServiceDefinition) (parsed : parse x.unmarshal old ≡ ok sd) (tags : List Tag)
      (listed : x.list_tags sd.image.repository ≡ ok tags) (digest : String)
      (resolved : resolve x.semver tags sd.image.track sd.image.version
          (path_base sd.image.repository)
        ≡ ok digest)
      (differs : digest ≢ sd.image.digest) where
    put-IsSound :
        (content : String) (fault : Option String)
        → HasDigest x content digest
        → IsSound x m commits (put commits digest (commit_of m sha digest content) fault)
    put-IsSound content (some e) h = idle x m commits _
    put-IsSound content none h = inr (
      commit_of m sha digest content,
      digest,
      refl,
      refl,
      record {
        old = old;
        sd = sd;
        tags = tags;
        fetched = fetched;
        parsed = parsed;
        listed = listed;
        resolved = resolved;
        differs = differs;
        has_digest = h;
        in_place = (refl, refl, refl);
      },
    )

    on_rewritten-IsSound :
        (r : Result UpdateError String)
        → ((content : String) → r ≡ ok content → HasDigest x content digest)
        → IsSound x m commits (on_rewritten x m sha digest commits r)
    on_rewritten-IsSound (err e) f = idle x m commits e
    on_rewritten-IsSound (ok content) f = put-IsSound content _ (f content refl)

  on_resolved-IsSound :
      (sd : ServiceDefinition) (tags : List Tag) (r : Result ResolveError String)
      → parse x.unmarshal old ≡ ok sd
      → x.list_tags sd.image.repository ≡ ok tags
      → resolve x.semver tags sd.image.track sd.image.version (path_base sd.image.repository) ≡ r
      → IsSound x m commits (on_resolved x m old sha sd commits r)
  on_resolved-IsSound sd tags (err e) parsed listed resolved = idle x m commits _
  on_resolved-IsSound sd tags (ok digest) parsed listed resolved =
      elim (Bool-cases (digest == sd.image.digest)) [
        | inl same ↦ rw same (unchanged x m commits)
        | inr other ↦ rw other (
            on_rewritten-IsSound sd parsed tags listed digest resolved
              ((eq-false_iff (digest == sd.image.digest) (eq_iff digest sd.image.digest)).0 other)
              (rewrite_digest x old digest)
              (λ content h. rewrite_digest-HasDigest x old digest content h))
      ]

  on_tags-IsSound :
      (sd : ServiceDefinition) (r : Result String (List Tag))
      → parse x.unmarshal old ≡ ok sd
      → x.list_tags sd.image.repository ≡ r
      → IsSound x m commits (on_tags x m old sha sd commits r)
  on_tags-IsSound sd (err e) parsed listed = idle x m commits _
  on_tags-IsSound sd (ok tags) parsed listed = on_resolved-IsSound sd tags _ parsed listed refl

  on_parsed-IsSound :
      (r : Result ParseError ServiceDefinition)
      → parse x.unmarshal old ≡ r
      → IsSound x m commits (on_parsed x m old sha commits r)
  on_parsed-IsSound (err e) parsed = idle x m commits _
  on_parsed-IsSound (ok sd) parsed =
      if_cases (IsSound x m commits) ((sd.image.track == "") && (sd.image.version == "")) _ _
        (unchanged x m commits) (on_tags-IsSound sd _ parsed refl)

-- A run of Update either leaves the commits as they were and reports no digest, or adds one
-- commit, of the manifest's own file on the sha that was fetched, and reports its digest: then
-- the file parses with a track or version that resolves, among the tags of its repository, to
-- that digest, which is not the one it holds, and the committed content parses to a definition
-- that holds it. This holds whatever the regular expression matches and replaces.
pub update-IsSound :
    (x : Calls) (m : Manifest) (commits : List Commit) → IsSound x m commits (update x m commits)
unfolding update
update-IsSound x m commits = of_file (x.get_file m.repo m.branch m.path) refl
  where
    of_file :
        (r : Result String (String × String))
        → x.get_file m.repo m.branch m.path ≡ r
        → IsSound x m commits (on_file x m commits r)
    of_file (err e) q = idle x m commits _
    of_file (ok (content, sha)) q = on_parsed-IsSound x m commits content sha q _ refl
