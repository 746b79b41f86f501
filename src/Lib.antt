-- ===== src/Lib.antt =====
-- garm-provider-orbstack runs GitHub Actions runners as OrbStack machines for GARM. Each runner is a
-- clone of a stopped template machine. A registry on disk says which machines are owned.
--
-- The parts, and the files that model them:
-- * State (internal/state): the registry. State/Record is types.go. State/Validate is
--   `validateRecords`, State/Sort the order of the file, State/Registry the operations, and
--   State/Registry/Update the callbacks that `Reserve`, `Save` and `Remove` give to `transaction`.
-- * Disk (internal/state/registry.go): the registry directory, `acquire`, `Close`, `writeAtomic`. Any
--   system call may fail: `faults` lists the outcomes to come. Other processes act while a lock is
--   waited for: `polls` lists the rounds of the wait to come.
-- * Orbstack (internal/orbstack/cli.go): the machine types. Orbstack/Client has the methods of
--   `Client` over the program `orbctl`, which is a parameter; Orbstack/Client/Sends says which commands
--   they send; Orbstack/Client/Wait is the loop `WaitForState`, by the number of ticks until its
--   context is done.
-- * Config (internal/config/config.go): the host configuration and `validateHost`. Config/Store is
--   `LoadHost`, `UpdateHost` and `writeHostAtomic` over the file, with `faults` for system calls that
--   fail and `rivals` for what others write while the lock is waited for. The TOML library is the
--   parameter `Codec`.
-- * Templates (internal/templates): Templates/Manifest is the manifest of a template and its checks,
--   Templates/Builder the pure parts of builder.go, Templates/Recipe the recipe and its digest,
--   Templates/Tail the writer `tailWriter`. Templates/Bench is what a build works on: the machines, the
--   configuration, the registry and the manifests. Templates/Build is `Build` and Templates/Remove is
--   `Remove`.
-- * Provider (internal/provider): Provider/World is what an operation works on, the disk and the
--   machines behind `machineClient`. Provider/Owned, Resolve, Delete, Lifecycle, Clone,
--   Admission and Create are the methods of provider.go; Provider/Patterns, Bootstrap,
--   Plan and Inject are bootstrap.go. Provider/Safety is about all operations.
-- * Install (internal/install): Install/Classify is `classifyCLI` of cli.go, which arguments may reach
--   garm-cli, and Install/Release the checks of a release, staged or installed, of release.go.
--   Install/Service is the start, the stop and the waits of service.go with `ensureProvider`, over launchd
--   and the controller, which are the parameter `Desk`. Install/Managed is `managedWrite` of install.go
--   and Install/Managed/Check `checkManagedFiles`, over `atomicFile` of paths.go, with `calls` for system
--   calls that fail.
-- * Prelude, Error, Outcome, Exec and Platform are shared: names and texts, Go errors as values, the
--   two monads for `(value, error)` results without and with effects, and the digest and UUID parser
--   that the program calls. Exec/Keeps and Exec/Ensures have the rules for proofs about effects.
--
-- How they interact: the provider takes an instance lock, reads and writes the registry in
-- transactions under the global lock, and calls the machines by ID. A clone is preceded by an intent
-- file and recorded after. The builder makes a machine through orbctl, writes its manifest and
-- registers the image through `UpdateHost`. The removal of an image takes the template's lock from the
-- registry first, looks at the records of runners, and only then changes the configuration and deletes
-- the machine.
--
-- Bounds and fuel: the wait for a lock is a recursion on the rounds given, and where they end the
-- lock is free. The waits of the service end with the number of their ticks. The loop over a certificate bundle has as fuel the number of its characters, and each
-- round takes at least the first line of a block. Integers are not bounded where the source compares
-- only; `max_instances` is an integer of any sign.
--
-- Not modelled: the rest of the installer's work on files, the modes of files, its preflight and TLS, the command line front
-- ends, `Initialize` of the registry, `DefaultHostPath`, the environment of `orbctl`, and the text of
-- `tailWriter.summary` in errors. The fresh deadline of a cleanup and the inheritance of a lock file by
-- the clone helper are not in the model of the provider either. TOML, JSON, the texts of durations,
-- archives, PEM and X.509 are parameters, and so are the file system that an installer reads and the
-- digests of its files. A Go map that is walked is a list in the order of the source.
pub mod Prelude
pub mod Error
pub mod Outcome
pub mod Exec
pub mod Platform
pub mod Disk
pub mod State
pub mod Orbstack
pub mod Config
pub mod Templates
pub mod Provider
pub mod Samples
pub mod Install
