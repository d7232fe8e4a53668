-- ===== src/Lib.antt =====
-- RunCD: a controller that keeps Cloud Run services, jobs and worker pools at the state that git
-- declares. A configuration (runcd.yaml) names apps and environments, which are expanded to sync units,
-- one per app and project. For each unit the controller reads a service definition, checks its
-- preconditions, compares the desired with the live state, and deploys where the policy allows.
--
-- The parts, and the modules that model them:
--
--   Base        what the others share: tests, lists, texts, sets, results, maps, Go's int.
--   Config      internal/config/config.go and syncwindow.go. Policy: SyncPolicy.Merge. Window: the sync
--               windows (matches, WindowsAllow, validate); its children Covers and Allows say what
--               windows mean. Parse: the checks of Parse.
--   Expander    internal/expander/expander.go: Expand. Expansion is its specification, Checks and Laws
--               the proofs, and Policies the sync policy of a unit.
--   Rbac        internal/rbac/rbac.go: Parse, CanSync, CanSyncFolders, HasAnyGrant, FolderScopes and
--               Store. Scopes, Grants and Folders say what scopes mean and who may sync.
--   Cloudrun    internal/cloudrun/client.go: the types of live state. Its children are the client of
--               internal/cloudrun/gcp.go. Image: image references and their digests. Env: a container's
--               environment, written and read back. Api: the Cloud Run Admin API as a parameter. Read:
--               GetService, ListServiceNames, GetJob. Deploy: DeployService, DeployJob and worker pools.
--   Health      internal/health/health.go: AssessService, AssessWorkerPool, AssessJob.
--   Diff        internal/diff/diff.go: Compute.
--   Manifest    internal/manifest/service.go: Parse and its validation.
--   Precondition  internal/precondition/precondition.go: Check. Cache: internal/precondition/gcp.go, the
--               checker over Pub/Sub with its cache.
--   Registry    internal/registry/resolve.go: Resolve and bestMatch. Matches says which tags satisfy a
--               constraint, Highest what bestMatch finds, Laws what Resolve returns.
--   Reconcile   internal/reconcile/reconcile.go. Store: each SQL statement as a function on the tables
--               sync_locks, applications and sync_events; Store/Locks: histories of claims and
--               releases. Deploy: deploySyncUnit. Pass: the decision and
--               applyLiveState. Unit: reconcile, from the manifest on. Entry: RunOnce, ManualSync and
--               DryRun, with the upsert of a result and what the notifier is given. Their children hold
--               the proofs: of Store, what statements do and what they do without a fault (Statements,
--               Succeeding); of Deploy, what stands before the call and when it is reached (Ahead,
--               Reached); of Pass, the test and the call (Decision, Deploys).
--               Orphans: DetectOrphans of internal/reconcile/orphans.go, with what it declares (Declared),
--               finds (Found) and cannot tell (Failed).
--   Folders     internal/folders/resolve.go: ResolveConfig and ResolveMembership. Merged says which
--               projects an environment gets.
--   Leader      internal/leader/lease.go: Claim and Run. Exclusion and Reports hold the proofs.
--   Notify      internal/notify/notify.go: the rows of notification_debounce and maybeNotify. Rules:
--               Evaluate and ResolvedRules. Debounce: histories of the statements on one row, by any
--               replicas, with Spaced, Exclusive and Expiring. Markers, Sends, Calls and Resolved hold
--               the proofs.
--   ImageUpdater  internal/imageupdater/imageupdater.go and rewrite.go: Update and rewriteDigest.
--   Api         internal/api: Sync is handleSync and handleSyncBatch, Views is handleDryRun, handleOrphans
--               and handleUnitHistory. Authorized, Scanned and Limited say what callers get.
--   Examples    concrete inputs, runs on them, and the theorems applied to them.
--
-- How the code is represented. State is passed explicitly: a World is the tables, Cloud Run, the number
-- of SQL statements so far and the deploy calls made. What is not in the repository is the record
-- External: Cloud Run, git, the YAML decoder, Artifact Registry, Pub/Sub, and for the n-th statement
-- whether it fails and what time the database has. So a statement can fail wherever it can in the code,
-- and a theorem over every External covers every such failure. A statement that fails changes nothing.
-- A fetch of live state is a function of Cloud Run's state, so two fetches with no deploy between agree.
-- A Go error is a constructor per message. A nil pointer, and a nil map or slice where the code tells
-- it from an empty one, is an Option; a map is an association list, over which a loop goes in order. Go's
-- int is the integers without overflow where a value may be negative. A time is a number of seconds from
-- the epoch, in UTC, but of nanoseconds in Precondition/Cache. Text is a sequence of characters, as Go's
-- is of bytes: the code only compares, cuts and joins it at ASCII separators. All functions recur on
-- lists or texts, so none has fuel.
--
-- Not modelled: contexts and their cancellation; the concurrency of RunOnce, whose units are taken one
-- after another, as are the scopes of DetectOrphans; the caches of regional clients, folders and tags;
-- and what is I/O alone (the Google Cloud, GitHub and git clients, the other HTTP handlers, commands, the dashboard).
pub mod Base
pub mod Config
pub mod Expander
pub mod Rbac
pub mod Cloudrun
pub mod Health
pub mod Diff
pub mod Manifest
pub mod Precondition
pub mod Registry
pub mod Reconcile
pub mod Folders
pub mod Leader
pub mod Notify
pub mod ImageUpdater
pub mod Api
pub mod Examples
