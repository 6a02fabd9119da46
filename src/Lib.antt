-- ===== src/Lib.antt =====
-- FreeCode DeepSeek Harness: the parts of the desktop shell and of its packages that keep processes and
-- requests in order, and those that keep its files, settings and secrets.
--
-- The shell (apps/shell) owns one `dsh web` process and a pool of opencode2api workers
-- (packages/opencode-adapter). The load balancer stands before the pool: a request of the `dsh web`
-- process goes to a worker that the pool picks, and outcomes come back to the pool as parked workers.
-- The supervisor owns the `dsh web` process and puts the balancer's URL into its environment. The
-- lifecycle manager owns the application: one instance, a budget of boot failures, and a shutdown.
--
-- - Common: names of the libraries, Boolean tests, lists, the JavaScript `Map` as a list of entries,
--   and texts as lists of UTF-16 units.
-- - Pool: packages/opencode-adapter/src/pool.ts and types.ts. `State` is the class's state, with the
--   handles in a heap, since callbacks share them; `Select`, `Spawn` and `Control` are its methods, cut
--   at each `await`; `Events` runs them as a machine. `Invariant`, `Quiet`, `Ownership`, `Launches`,
--   `Rotation`, `Respawn` and `Races` hold the proofs.
-- - Balancer: packages/opencode-adapter/src/lb.ts. `Interface` is what it uses of a pool, and Pool
--   fills it; `Sticky`, `RateLimit`, `Http` and `Handler` are its functions; `Retry`, `Answers`,
--   `Bodies`, `Affinity`, `Rated` and `Alarm` hold the proofs. What the server does when
--   `handleRequest` rejects is left out.
-- - Supervisor: apps/shell/src/main/harness-supervisor.ts. `State`, `Output`, `Env`, `Control` and
--   `Calls` are the class, `Machine` runs it; `Ready`, `Invariant`, `Down`, `Respawn`, `Exits`,
--   `Crashes` and `Environment` hold the proofs.
-- - Readiness: apps/shell/src/main/mcp-readiness.ts, and Lifecycle: apps/shell/src/main/lifecycle-manager.ts,
--   each with the methods in a first module and the proofs in the others.
-- - TorFleet: apps/shell/src/main/torfleet.ts. `Ports` looks for ports, of which there are those up to
--   65,000; `Fleet` is the class; `Allocation` holds the proofs.
-- - Importer: packages/chat-importer/src/index.ts and markers.ts in `Chats`, with the proofs in `Once`.
-- - Policy: apps/shell/src/main/backend-state.ts and reasoning-policy.ts, with their proofs.
-- - Update: apps/shell/src/main/updater.ts and harness-updater.ts. `Version` is the order of versions;
--   `Check` the checks of a release and of upstream; `Service` the update service; `Install` the
--   exchange of the harness runtime, each file operation of which may fail as its `World` says.
--   `Order`, `Names`, `Runs` and `Rollback` hold the proofs. Numbers of a version are exact, which
--   JavaScript's are up to 2^53; the message of an error is taken to be no empty text.
-- - Git: apps/shell/src/git/git-resolver.ts. `Resolver` looks for Git, `Commands` runs and validates
--   it, on a host that answers existsSync, path.join and spawnSync; `Found`, `Cache` and `Reports`
--   hold the proofs.
-- - Secrets: apps/shell/src/main/secret-store.ts. `Vault` is the file vault, over a codec for the four
--   uses of Buffer, as an object of JavaScript: `__proto__` is no name of it, and the members of
--   Object.prototype answer for it; names that are whole numbers keep their places, which JavaScript
--   lists first. `Store` the choice of a store and what is done with one; `Keys` and `Xor` hold the
--   proofs.
-- - Models: apps/shell/src/main/model-refresher.ts in `Probe` and `Refresh`, and provider-seeder.ts in
--   `Seed`, on the settings of `Settings`; `Sync`, `Normal` and `Idempotence` hold the proofs. The
--   sort of a list is an argument, of which a permutation is required.
-- - Preflight: apps/shell/src/main/preflight.ts. `Layout` is the check of the files, on a disk that
--   answers each question; `Retry` the wait with its attempts, each on a disk of its own; `Lines` the
--   message; `Verdict` holds the proofs about the check.
-- - Mcp: apps/shell/src/main/mcp-home.ts. `Patch` is the merge of the managed block, `Catalogue` the
--   servers and the file of their flags, `Home` the two operations; `Search`, `Merge`, `Rows`,
--   `Twice`, `Flags` and `Toggle` hold the proofs.
-- - Log: apps/shell/src/main/logger.ts, with the sizes of its files, in `Rotation`; `Bounds` the proofs.
-- - Dialog: apps/shell/src/main/dialog-bridge.ts; `Bridge` is the handler of a request, `Guards` the
--   proofs.
-- - Workspace: packages/workspace-bridge/src. `Folder` finds the chats of a folder, `Continue` goes on
--   with one of them through the harness's API; `Sorted`, `Roots`, `Recent` and `Handoff` hold the
--   proofs.
-- - Browser: apps/shell/src/main/embedded-browser.ts. `Address` says which URLs are taken, `Tabs` what
--   is done with the tabs, as a machine; `Active`, `Invariant` and `Restore` hold the proofs. A page is what it
--   reports; the ids of new tabs are arguments.
-- - Each component's `Examples` has concrete runs, and each theorem at one of them.
--
-- Asynchronous code is a machine: a method runs up to its next `await`, what waits is part of the
-- state, and an event at a time, with the outcome that the world gives, ends a wait. The theorems
-- quantify over all lists of events, so over all orders. Loops recur on lists or, in the balancer, on
-- the number of attempts left, of which there are at most three as in the code. Times are natural
-- numbers of milliseconds, so an age is 0 where the clock has gone back.
--
-- Preflight, the updaters and the seeders run before the harness is started: the MCP home, the provider
-- seeder and the model refresher write the settings that it reads, with the secrets and the Git that the
-- shell has found; the browser, the dialog bridge and the workspace bridge serve it while it runs.
--
-- Not modelled: child processes, sockets, timers, HTTP and the calls of the file system, whose outcomes
-- are arguments; pino, keytar, PowerShell, YAML, SQL, Electron and the pages and scripts that the browser
-- shows; the copies of other projects under vendor; and the parts of the shell that mostly call these:
-- the window and its IPC, the bootstrap of uvx, OCR, the lookups of paths, and the build scripts. The
-- readers of the chat importer are left for later.
pub mod Common
pub mod Pool
pub mod Preflight
pub mod Balancer
pub mod Supervisor
pub mod Readiness
pub mod Lifecycle
pub mod TorFleet
pub mod Importer
pub mod Policy
pub mod Log
pub mod Dialog
pub mod Browser
pub mod Workspace
pub mod Mcp
pub mod Update
pub mod Git
pub mod Secrets
pub mod Models
