-- ===== src/Pool/Select.antt =====
-- packages/opencode-adapter/src/pool.ts: `workers`, `pickHealthy` and `parkWorker`.
use mathlib.Core.Option
use deepseek_harness.Common.{
  ℕ, ◌+◌, ◌%◌, Bool, not, ◌&&◌, Option, none, some, List, map, filter, length, get_elem?, contains,
  ltb, leb, ◌==◌, if◌then◌else◌, nat_eq,
}
use deepseek_harness.Common.JsMap.{get, values}
use deepseek_harness.Pool.State.{WorkerHandle, ManagedWorker, Pool, is_ready, to_public, put}

unfoldable pub workers : Pool → List WorkerHandle
unfolding to_public
workers p = map (λ a. to_public (p.heap a)) (values p.worker_map)

-- The test of the `filter` in `pickHealthy`.
abbrev pub is_eligible : List ℕ → ℕ → ManagedWorker → Bool
is_eligible skip now w =
    is_ready w.status && not (contains skip w.id) && not (ltb now w.parked_until)

abbrev pub eligible : Pool → List ℕ → ℕ → List ManagedWorker
eligible p skip now = filter (is_eligible skip now) (map p.heap (values p.worker_map))

-- `ready[this.rrIndex % ready.length]` exists where `ready` is not empty.
unfoldable pub pick_healthy : Pool → List ℕ → ℕ → Option WorkerHandle × Pool
unfolding to_public
pick_healthy p skip now =
    let ready = eligible p skip now in
    if length ready == 0 then (none, p) else (
      Option.map to_public (get_elem? ready (p.rr_index % length ready)),
      record p { rr_index = p.rr_index + 1 },
    )

unfoldable pub park_worker : Pool → ℕ → ℕ → ℕ → Pool
park_worker p id ms now = elim (get id p.worker_map) [
  | none ↦ p
  | some a ↦
      let w = p.heap a in
      let until = now + ms in
      if leb ms 0
      then p
      else if ltb w.parked_until until
      then put p a (record w { parked_until = until })
      else p
]
