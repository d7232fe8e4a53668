-- ===== src/ImageUpdater.antt =====
-- internal/imageupdater: the digest that a tag or a version resolves to, committed to git. GitHub, the
-- registry, the YAML decoder, semver and the regular expression digestLine are parameters.
pub mod Committed
use run_cd.Base.{
  ℕ, String, ◌==◌, Bool, not, ◌&&◌, Option, none, some, List, [], ◌∷◌, nat_eq, Result, ok, err,
  if◌then◌else◌,
}
use run_cd.Manifest.{ServiceDefinition, ParseError, parse}
use run_cd.Registry.{Tag, Semver, ResolveError, resolve}
use run_cd.Reconcile.Unit.{path_base}
use Prim.Native.String.{◌++◌}

pub record Manifest : Type 0 where
  pub repo : String
  pub path : String
  pub branch : String

-- A file that is written by PutFile.
pub record Commit : Type 0 where
  pub repo : String
  pub branch : String
  pub path : String
  pub message : String
  pub content : String
  pub sha : String

-- What the code calls: a file with its sha by repository, branch and path; whether a commit fails; the
-- tags of a repository; and of digestLine the number of matches, and the replacement of their digests.
pub record Calls : Type 0 where
  pub get_file : String → String → String → Result String (String × String)
  pub put_fault : Commit → Option String
  pub list_tags : String → Result String (List Tag)
  pub unmarshal : String → Option ServiceDefinition
  pub semver : Semver
  pub digest_lines : String → ℕ
  pub replace_digests : String → String → String

pub data UpdateError : Type 0 where
  not_fetched not_listed not_committed : String → UpdateError
  not_parsed rewritten_not_parsed : ParseError → UpdateError
  not_resolved : ResolveError → UpdateError
  digest_lines_found : ℕ → UpdateError
  rewritten_digest : String → String → UpdateError

abbrev pub checked :
    String → String → Result ParseError ServiceDefinition → Result UpdateError String
checked rewritten digest (err e) = err (rewritten_not_parsed e)
checked rewritten digest (ok sd) =
    if not (sd.image.digest == digest)
    then err (rewritten_digest sd.image.digest digest)
    else ok rewritten

unfoldable pub rewrite_digest : Calls → String → String → Result UpdateError String
rewrite_digest x content digest =
    let rewritten = x.replace_digests content digest in
    if not (nat_eq (x.digest_lines content) 1)
    then err (digest_lines_found (x.digest_lines content))
    else checked rewritten digest (parse x.unmarshal rewritten)

-- The commits so far, the last one first, and the new digest, empty if nothing changed.
abbrev pub Updated : Type 0
Updated = List Commit × Result UpdateError String

abbrev pub put : List Commit → String → Commit → Option String → Updated
put commits digest c none = (c ∷ commits, ok digest)
put commits digest c (some e) = (commits, err (not_committed e))

abbrev pub commit_of : Manifest → String → String → String → Commit
commit_of m sha digest content = record {
  repo = m.repo;
  branch = m.branch;
  path = m.path;
  message = "imageupdater: " ++ (m.path ++ (" -> " ++ digest));
  content = content;
  sha = sha;
}

abbrev pub on_rewritten :
    Calls → Manifest → String → String → List Commit → Result UpdateError String → Updated
on_rewritten x m sha digest commits (err e) = (commits, err e)
on_rewritten x m sha digest commits (ok content) =
    put commits digest (commit_of m sha digest content)
      (x.put_fault (commit_of m sha digest content))

abbrev pub on_resolved :
    Calls
    → Manifest
    → String
    → String
    → ServiceDefinition
    → List Commit
    → Result ResolveError String
    → Updated
on_resolved x m content sha sd commits (err e) = (commits, err (not_resolved e))
on_resolved x m content sha sd commits (ok digest) =
    if digest == sd.image.digest
    then (commits, ok "")
    else on_rewritten x m sha digest commits (rewrite_digest x content digest)

abbrev pub on_tags :
    Calls
    → Manifest
    → String
    → String
    → ServiceDefinition
    → List Commit
    → Result String (List Tag)
    → Updated
on_tags x m content sha sd commits (err e) = (commits, err (not_listed e))
on_tags x m content sha sd commits (ok tags) =
    on_resolved x m content sha sd commits
      (resolve x.semver tags sd.image.track sd.image.version (path_base sd.image.repository))

abbrev pub on_parsed :
    Calls → Manifest → String → String → List Commit → Result ParseError ServiceDefinition → Updated
on_parsed x m content sha commits (err e) = (commits, err (not_parsed e))
on_parsed x m content sha commits (ok sd) =
    if (sd.image.track == "") && (sd.image.version == "")
    then (commits, ok "")
    else on_tags x m content sha sd commits (x.list_tags sd.image.repository)

abbrev pub on_file : Calls → Manifest → List Commit → Result String (String × String) → Updated
on_file x m commits (err e) = (commits, err (not_fetched e))
on_file x m commits (ok (content, sha)) =
    on_parsed x m content sha commits (parse x.unmarshal content)

unfoldable pub update : Calls → Manifest → List Commit → Updated
unfolding rewrite_digest
update x m commits = on_file x m commits (x.get_file m.repo m.branch m.path)
