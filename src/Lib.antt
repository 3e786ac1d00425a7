-- ===== src/Lib.antt =====
-- A model of the pg_doorman sidecar and of its CNPG plugin.
--
-- The plugin renders one Secret per cluster with pg_doorman.yaml and binary.json. In each pod a
-- wrapper (cmd/wrapper) installs a pg_doorman binary, applies the rendered config, supervises the
-- process, and then polls: the config watcher applies changed configs, the binary watcher upgrades
-- the binary in place and asks for a handover, the role watcher restarts the process on a demotion.
-- They meet in the file system, in the Process struct and in the metrics.
--
-- Base: shared names, the two kinds of numbers, maps. Go's int is `ℤ` where it can be negative, and
-- a map is an association list.
-- Wrapper/World: files, the clock, the Process struct, the metrics, and what each HTTP call gets.
-- Wrapper/Calls: the calls of os and syscall on that world. `fault n` says whether the n-th call
--   fails, so that a theorem for every world covers every pattern of failures.
-- Wrapper/Platform: what the wrapper calls and does not implement, as parameters.
-- Wrapper/Frame: which calls leave a file alone, and rules to search with.
-- Wrapper/Validator, Wrapper/AtomicWrite: internal/wrapper/validator.go.
-- Wrapper/BinarySpec, Wrapper/BinarySync: binaryspec.go and binarysync.go of internal/wrapper.
-- Wrapper/Restart, Wrapper/TlsKey, Wrapper/RoleWatcher: restart.go, tlskey.go, rolewatcher.go.
-- Wrapper/FileWatcher, Wrapper/BinaryWatcher: `check` of filewatcher.go and binarywatcher.go, one
--   function for the whole poll, split where the code goes on only after success.
-- Wrapper/Process, Wrapper/Supervisor: process.go. RunWithRestart is a machine that stops where the
--   code blocks; an event says how the wait ended, so the machine needs no fuel. The loops of waitCtx
--   are in Process/Waiting, with what the kernel answers in each round as a function of the round.
-- Wrapper/Successor: successor_linux.go, over a list of entries of /proc.
-- Wrapper/Startup, Wrapper/Sidecar, Wrapper/Main: startup.go, paths.go, loglevel.go and
--   cmd/wrapper/main.go, from the environment to the watchers that run.
-- Plugin/Config: internal/config/config.go and MutateCluster of internal/operator/mutations.go.
-- Plugin/Webhook: internal/operator/validation.go. Plugin/Defaults: types.go and defaults.go of
--   api/v1alpha1.
-- Plugin/Api: the objects of the API server and the client's calls on them, each of which can fail.
--   Plugin/Api/Frame lifts a relation between two states to what the calls are put together to.
-- Plugin/AuthSecrets, Plugin/Credentials, Plugin/ConfigGen: authsecrets.go and secrets.go of
--   internal/specs, internal/credentials/credentials.go, internal/configgen/configgen.go.
-- Plugin/Controller: Reconcile of internal/controller/renderedconfig.go; Defs has its parts and Loop
--   puts them together, Events has the mapping of events to requests.
-- Plugin/Reconciler: internal/reconciler/reconciler.go, with service.go and role.go of
--   internal/specs. Plugin/Lifecycle: internal/lifecycle.
-- Plugin/Binaries: LoadManifest of internal/binaries/binaries.go and loadBinarySpec of
--   cmd/plugin/plugin.go, and the handler of the binary endpoint.
-- Deployment: the wrapper in the container that the plugin injects, and its download from the
--   endpoint of the plugin.
-- Tests: one concrete pod, one cluster and a few configurations.
--
-- Bounds: loops are recursions on lists (entries, pools, users, plugins, rounds of a search), and
-- only the two loops of waitCtx run on fuel: one round for each Wait4, and for the polling the
-- rounds up to the end of the context and those of one drain, at 200 ms each. Times are in
-- milliseconds. Numbers do not overflow: the largest are the download cap of 256 MiB and delays of
-- seconds.
--
-- Not modelled: log lines and the texts of error values beyond their field; two watchers whose
-- system calls interleave (a poll is one step), and other clients of the API server during a run;
-- durations below 0, as of a shutdown_timeout with a minus; a failure of SetControllerReference, and
-- a status update against an object that changed since it was read; HTTP, TLS, YAML, JSON, PEM and SHA-256; the set-up of
-- the plugin's servers and of the wrapper's health endpoint, since they only configure libraries.
pub mod Base
pub mod Wrapper
pub mod Plugin
pub mod Deployment
pub mod Tests
