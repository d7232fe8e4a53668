-- ===== src/Examples/Updates.antt =====
-- A manifest with a track whose tag has moved, and the commit of its new digest.
use run_cd.Base.{String, ◌==◌, ◌≡◌, refl, none, some, [], ◌∷◌, ok, if◌then◌else◌}
use run_cd.Manifest.{ServiceDefinition}
use run_cd.Examples.Resolution.{semver}
use run_cd.ImageUpdater.{Manifest, Calls, update}
use run_cd.ImageUpdater.Committed.{IsSound, update-IsSound}

abbrev tracked : String → ServiceDefinition
tracked digest = record {
  resource_type = "service";
  image = record { digest = digest; track = "stable"; version = ""; repository = "eu/shop/api" };
  traffic = none;
  env = none;
  secrets = [];
  requires = [];
}

abbrev old_digest : String
old_digest = "sha256:0123456789abcdef0123456789abcdef0123456789abcdef0123456789abcdef"

abbrev new_digest : String
new_digest = "sha256:fedcba9876543210fedcba9876543210fedcba9876543210fedcba9876543210"

abbrev calls : Calls
calls = record {
  get_file = λ repo branch path. ok ("old file", "1f2e");
  put_fault = λ c. none;
  list_tags = λ repository. ok (record { name = "stable"; digest = new_digest } ∷ []);
  unmarshal = λ s. some (tracked (if s == "new file" then new_digest else old_digest));
  semver = semver;
  digest_lines = λ s. 1;
  replace_digests = λ s digest. "new file";
}

abbrev manifest : Manifest
manifest = record { repo = "shop"; path = "api/service.yaml"; branch = "" }

update_run : (update calls manifest []).1 ≡ ok new_digest
unfolding update run_cd.Manifest.parse run_cd.Manifest.validate
    run_cd.Manifest.matches_digest_pattern run_cd.Base.cut_prefix run_cd.Base.lookup
    run_cd.Registry.resolve
update_run = refl

update-IsSound_example : IsSound calls manifest [] (update calls manifest [])
update-IsSound_example = update-IsSound calls manifest []
