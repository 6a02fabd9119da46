-- ===== src/Pool/Examples.antt =====
-- Concrete pools: tests of packages/opencode-adapter/src/pool.ts, and each theorem at one of them.
use mathlib.Core.Option
use deepseek_harness.Common.{
  ℕ, ◌≤◌, ◌<◌, ◌≡◌, refl, true, false, none, some, List, [], ◌∷◌, arith, All, length, nat_eq,
  get_elem?,
}
use deepseek_harness.Common.JsMap.{get, values}
use deepseek_harness.Pool.State.{
  Pool, new_pool, finite, JsNumber, running, exited, to_public, WorkerHandle,
}
use deepseek_harness.Pool.Select.{pick_healthy, eligible}
use deepseek_harness.Pool.Spawn.{child, throws, port_reserved, maybe_respawn, is_live}
use deepseek_harness.Pool.Control.{stop, resize, restart_worker, kill_and_respawn}
use deepseek_harness.Pool.Events.{
  Event, starts, port_comes, probe_answers, started, stop_ends, exits, timer_fires, run,
}
use deepseek_harness.Pool.Invariant.{IsValid}
use deepseek_harness.Pool.Ownership.{run-IsValid, stop_silences, IsSilent}
use deepseek_harness.Pool.Launches.{launches, stop-launches_nothing}
use deepseek_harness.Pool.Rotation.{pick_healthy_fair, picked}
use deepseek_harness.Pool.Races.{resize_misses_pending_spawn}

abbrev size_two : JsNumber
size_two = finite false 2 0

abbrev size_one : JsNumber
size_one = finite false 1 0

abbrev fresh : Pool
fresh = new_pool (some size_two) none

-- Two workers come up: the first with a pid, the second without one.
abbrev boot : List (ℕ × Event)
boot =
    (0, starts)
    ∷ (1, port_comes 0 4100 (child (some 11)))
    ∷ (2, port_comes 1 4101 (child none))
    ∷ (3, probe_answers 0 true)
    ∷ (4, probe_answers 1 true)
    ∷ (5, started)
    ∷ []

abbrev two : Pool
two = run fresh boot

-- A pool whose spawns wait for their ports, and one whose first worker is being probed.
abbrev waiting : Pool
waiting = run fresh ((0, starts) ∷ [])

abbrev probed : Pool
probed = run fresh ((0, starts) ∷ (1, port_comes 0 4100 (child (some 11))) ∷ [])

abbrev first_worker : WorkerHandle
first_worker = to_public (two.heap 0)

abbrev later : List (ℕ × Event)
later = (20, exits 0 exited) ∷ (21, stop_ends) ∷ (22, timer_fires 0) ∷ []

abbrev restarted : Pool
restarted = kill_and_respawn two 0

-- Tests: who is picked, in turn.
pick_0 : (pick_healthy two [] 10).0 ≡ some first_worker
unfolding pick_healthy run deepseek_harness.Pool.Control.start_settled
    deepseek_harness.Pool.Spawn.probe_settled port_reserved deepseek_harness.Pool.Control.start
    new_pool deepseek_harness.Pool.Control.spawn_range deepseek_harness.Pool.Spawn.spawn_worker
pick_0 = refl

pick_1 : (pick_healthy (picked two [] 10 1) [] 10).0 ≡ some (to_public (two.heap 1))
unfolding pick_healthy picked run deepseek_harness.Pool.Control.start_settled
    deepseek_harness.Pool.Spawn.probe_settled port_reserved deepseek_harness.Pool.Control.start
    new_pool deepseek_harness.Pool.Control.spawn_range deepseek_harness.Pool.Spawn.spawn_worker
pick_1 = refl

run-IsValid_example : IsValid (run (new_pool (some size_two) none) boot)
run-IsValid_example = run-IsValid (some size_two) none boot

stop_silences_example : All (IsSilent (run (stop two) later)) (values two.worker_map)
stop_silences_example = stop_silences two later (run-IsValid (some size_two) none boot)

stop-launches_nothing_example : launches (run (stop two) later).effects ≡ launches two.effects
stop-launches_nothing_example =
    stop-launches_nothing two later
      ((λ e. absurd (cc e)), ((λ e. absurd (cc e)), ((λ e. absurd (cc e)), tt)))

two-eligible : 1 < length (eligible two [] 10)
unfolding run deepseek_harness.Pool.Control.start_settled deepseek_harness.Pool.Spawn.probe_settled
    port_reserved deepseek_harness.Pool.Control.start new_pool
    deepseek_harness.Pool.Control.spawn_range deepseek_harness.Pool.Spawn.spawn_worker
two-eligible = let n : length (eligible two [] 10) ≡ 2 = refl in omega arith

pick_healthy_fair_example :
    (i : ℕ) × (i < length (eligible two [] 10))
    × ((pick_healthy (picked two [] 10 i) [] 10).0
        ≡ Option.map to_public (get_elem? (eligible two [] 10) 1))
pick_healthy_fair_example = pick_healthy_fair two [] 10 1 two-eligible

resize_misses_pending_spawn_example :
    let q = port_reserved (resize waiting size_one) 1 4101 (child (some 12)) 9 in
    (q.size ≤ 1)
    × (get 1 q.worker_map ≡ some waiting.next)
    × ((q.heap waiting.next).proc ≡ some running)
unfolding run deepseek_harness.Pool.Control.start new_pool deepseek_harness.Pool.Control.spawn_range
    deepseek_harness.Pool.Spawn.spawn_worker
resize_misses_pending_spawn_example =
    resize_misses_pending_spawn waiting size_one 1 1 4101 9 (some 12)
      (run-IsValid (some size_two) none ((0, starts) ∷ [])) refl refl refl refl (omega arith)
      (omega arith)
