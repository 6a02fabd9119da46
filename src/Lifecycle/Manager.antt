-- ===== src/Lifecycle/Manager.antt =====
-- apps/shell/src/main/lifecycle-manager.ts: `GenerationTracker` and `LifecycleManager`.
use deepseek_harness.Common.{
  ℕ, ◌+◌, Bool, true, false, Option, none, some, List, ◌==◌, leb, nat_eq, if◌then◌else◌, filter,
}
use deepseek_harness.Lifecycle.Lock.{LockFile, release_singleton_lock}

pub data LifecycleState : Type 0 where
  idle starting ready stopping stopped failed : LifecycleState

abbrev pub is_shut : LifecycleState → Bool
is_shut stopping = true
is_shut stopped = true
is_shut _ = false

abbrev pub is_failed : LifecycleState → Bool
is_failed failed = true
is_failed _ = false

-- `advance` and `isCurrent` of a `GenerationTracker`.
abbrev pub advance : ℕ → ℕ
advance generation = generation + 1

abbrev pub is_current : ℕ → ℕ → Bool
is_current generation token = token == generation

pub record LifecycleManager : Type 0 where
  pub max_boot_failures : ℕ
  pub state : LifecycleState
  pub generation : ℕ
  pub boot_failures : ℕ
  pub is_second_instance : Bool

abbrev or_five : Option ℕ → ℕ
or_five none = 5
or_five (some max) = max

unfoldable pub new_manager : Option ℕ → LifecycleManager
new_manager max_boot_failures = record {
  max_boot_failures = or_five max_boot_failures;
  state = idle;
  generation = 0;
  boot_failures = 0;
  is_second_instance = false;
}

unfoldable pub begin_startup : LifecycleManager → Bool × LifecycleManager
begin_startup m =
    if is_failed m.state
    then (false, m)
    else if is_shut m.state
    then (false, m)
    else (true, record m { state = starting; generation = advance m.generation })

unfoldable pub record_boot_failure : LifecycleManager → Bool × LifecycleManager
record_boot_failure m =
    let n = record m { boot_failures = m.boot_failures + 1 } in
    if leb m.max_boot_failures n.boot_failures
    then (false, record n { state = failed })
    else (true, n)

unfoldable pub mark_ready : LifecycleManager → LifecycleManager
mark_ready m = record m { boot_failures = 0; state = ready }

unfoldable pub mark_second_instance : LifecycleManager → LifecycleManager
mark_second_instance m = record m { is_second_instance = true }

-- How a race of work against `shutdownTimeout` ends.
pub data Race : Type 0 where
  done timed_out threw : Race

abbrev pub is_done : Race → Bool
is_done done = true
is_done _ = false

-- Whether the processes are waited for: a cleanup that fails or is late skips that.
abbrev pub waits_for_exit : Option Race → Bool
waits_for_exit none = true
waits_for_exit (some cleanup) = is_done cleanup

-- `gracefulShutdown` up to its first wait: whether it goes on, and the manager.
unfoldable pub shutdown_begins : LifecycleManager → Bool × LifecycleManager
shutdown_begins m = if is_shut m.state then (false, m) else (true, record m { state = stopping })

-- What is left of a shutdown: whether the processes were waited for, those that were killed, the manager and the lock file.
pub record ShutDown : Type 0 where
  pub waited : Bool
  pub killed : List ℕ
  pub manager : LifecycleManager
  pub lock_file : LockFile

-- The rest of it, after its waits: the loop over the processes that are still alive.
unfoldable pub shutdown_ends :
    LifecycleManager → Option Race → List ℕ → (ℕ → Bool) → Bool → ℕ → LockFile → ShutDown
unfolding release_singleton_lock
shutdown_ends m cleanup processes alive unlinks self file = record {
  waited = waits_for_exit cleanup;
  killed = filter alive processes;
  manager = record m { state = stopped };
  lock_file = release_singleton_lock unlinks self file;
}
