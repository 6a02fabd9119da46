-- ===== src/Lifecycle/Examples.antt =====
-- Concrete calls: tests of apps/shell/src/main/lifecycle-manager.ts, and each theorem at some of them.
use mathlib.Core.List.{Memᴰ}
use deepseek_harness.Common.{
  All, if◌then◌else◌, ℕ, ◌≡◌, ◌↔◌, refl, Bool, true, false, none, some, List, [], ◌∷◌, arith, ◌==◌,
  nat_eq,
}
use deepseek_harness.Lifecycle.Lock.{absent, held, existing, acquire_singleton_lock}
use deepseek_harness.Lifecycle.Manager.{
  LifecycleManager, new_manager, timed_out, shutdown_begins, shutdown_ends, ShutDown, begin_startup,
}
use deepseek_harness.Lifecycle.Ownership.{Attempt, acquires, acquire_all, acquired_is_exclusive}
use deepseek_harness.Lifecycle.Budget.{Call, begins, fails, shuts, shut, apply_all}
use deepseek_harness.Lifecycle.Shutdown.{graceful_shutdown_lem}

abbrev only : ℕ → ℕ → Bool
only pid other = pid == other

-- A process takes the lock, and two others come after it.
abbrev taker : Attempt
taker = record { alive = only 7; unlinks = true; writes = true; self = 7 }

abbrev others : List Attempt
others =
    record { alive = only 7; unlinks = true; writes = true; self = 9 }
    ∷ record { alive = only 7; unlinks = false; writes = true; self = 11 }
    ∷ []

acquired_is_exclusive_example :
    All (λ told. told ≡ existing 7) (acquire_all others (acquires taker (held 3)).1).0
    × ((acquire_all others (acquires taker (held 3)).1).1 ≡ held 7)
unfolding acquire_singleton_lock
acquired_is_exclusive_example =
    acquired_is_exclusive taker others (held 3) refl (omega arith) (refl, (refl, tt))

abbrev calls : List Call
calls = begins ∷ fails ∷ begins ∷ fails ∷ []

abbrev begun_once : LifecycleManager
begun_once = apply_all (new_manager none) (begins ∷ [])

abbrev owner : ℕ
owner = 5

abbrev late_calls : List Call
late_calls = begins ∷ shuts ∷ begins ∷ []

abbrev ended : ShutDown
unfolding apply_all new_manager shutdown_begins shutdown_ends
ended =
    shutdown_ends (shutdown_begins begun_once).1 (some timed_out) (7 ∷ 8 ∷ []) (only 8) true 5
      (held 5)

graceful_shutdown_lem_example :
    ((shutdown_begins begun_once).0 ≡ true)
    × ((shutdown_begins (apply_all (shutdown_begins begun_once).1 late_calls)).0 ≡ false)
    × ((begin_startup (apply_all (shutdown_begins begun_once).1 late_calls)).0 ≡ false)
    × ((shutdown_begins (apply_all ended.manager late_calls)).0 ≡ false)
    × ((begin_startup (apply_all ended.manager late_calls)).0 ≡ false)
    × ((pid : ℕ) → Memᴰ pid ended.killed ↔ (Memᴰ pid (7 ∷ 8 ∷ []) × (only 8 pid ≡ true)))
    × (ended.lock_file ≡ (if owner == owner then (if true then absent else held 5) else held 5))
unfolding apply_all new_manager ended shutdown_ends
graceful_shutdown_lem_example =
    graceful_shutdown_lem begun_once late_calls (some timed_out) (7 ∷ 8 ∷ []) (only 8) true 5 5 refl
      (
        ((λ e. absurd (cc e)), (λ e. absurd (cc e))),
        (
          ((λ e. absurd (cc e)), (λ e. absurd (cc e))),
          (((λ e. absurd (cc e)), (λ e. absurd (cc e))), tt),
        ),
      )

abbrev down : LifecycleManager
down = apply_all begun_once (shuts ∷ shut ∷ [])
