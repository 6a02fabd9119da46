-- ===== src/Balancer/Interface.antt =====
-- packages/opencode-adapter/src/types.ts: what the balancer uses of the interface `Pool`, and that
-- the pool of pool.ts fills it.
use deepseek_harness.Common.{ℕ, ◌≡◌, false, Option, some, List, contains, nat_eq, sym, subst}
use deepseek_harness.Pool.State.{WorkerHandle, Pool, to_public}
use deepseek_harness.Pool.Select.{workers, pick_healthy, park_worker}
use deepseek_harness.Pool.Rotation.{pick_healthy_sound}

pub record PoolApi : Type 1 where
  pub State : Type 0
  pub workers : State → List WorkerHandle
  pub pick_healthy : State → List ℕ → ℕ → Option WorkerHandle × State
  pub park_worker : State → ℕ → ℕ → ℕ → State
  -- A worker to be skipped is never picked.
  pub pick_new :
      (s : State) (skip : List ℕ) (now : ℕ) (w : WorkerHandle)
      → (pick_healthy s skip now).0 ≡ some w
      → contains skip w.id ≡ false

pub pick_healthy_new :
    (p : Pool) (skip : List ℕ) (now : ℕ) (h : WorkerHandle)
    → (pick_healthy p skip now).0 ≡ some h
    → contains skip h.id ≡ false
unfolding to_public
pick_healthy_new p skip now h e =
    let (w, picked) = pick_healthy_sound p skip now h e in
    subst (λ k. contains skip k.id ≡ false) (sym picked.1) picked.3

abbrev pub opencode_pool : PoolApi
opencode_pool = record {
  State = Pool;
  workers = workers;
  pick_healthy = pick_healthy;
  park_worker = park_worker;
  pick_new = pick_healthy_new;
}
