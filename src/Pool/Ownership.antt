-- ===== src/Pool/Ownership.antt =====
-- packages/opencode-adapter/src/pool.ts: whatever happens, the pool stays in order, and a handle
-- that `stop`, `resize` or `restartWorker` has revoked never acts again.
use deepseek_harness.Common.{
  ℕ, ◌<◌, ◌≡◌, ◌≢◌, false, Option, none, some, List, [], ◌∷◌, subst, arith, All, nat_eq,
}
use deepseek_harness.Common.JsMap.{get, values}
use deepseek_harness.Common.JsMap.Entries.{All-mono, get-All}
use deepseek_harness.Pool.State.{Pool, JsNumber, ChildProcess, Socks5Config, new_pool}
use deepseek_harness.Pool.Spawn.{respawn_fires}
use deepseek_harness.Pool.Control.{
  restart_worker, revoke, revoke_all, kill_all, stop, child_exits, kill_and_respawn,
}
use deepseek_harness.Pool.Events.{Event, run}
use deepseek_harness.Pool.Quiet.{Quiet}
use deepseek_harness.Pool.Invariant.{Quiet-Advances, IsMapped, IsValid, Advances, revoke-Advances}
use deepseek_harness.Pool.Invariant.Loops.{
  kill_all-Quiet, Known, values-Known, revoke_all-Advances, revoke-next,
}
use deepseek_harness.Pool.Invariant.Steps.{
  stop-Advances, kill_and_respawn-Advances, run-Advances, normalize_pool_size_bounds,
}

pub new_pool-IsValid :
    (size : Option JsNumber) (socks5 : Option Socks5Config) → IsValid (new_pool size socks5)
unfolding new_pool
new_pool-IsValid none socks5 = ground arith
new_pool-IsValid (some value) socks5 = ground (arith, normalize_pool_size_bounds value)

-- From its constructor on, through any calls and ends of waits in any order, the pool has a size
-- from 1 to 16, one handle for each id in its map, every mapped address allocated and holding a
-- handle of that id, no handle with a generation above the last one given out for its id, and no
-- callback that closes over a generation above its handle's.
pub run-IsValid :
    (size : Option JsNumber) (socks5 : Option Socks5Config) (es : List (ℕ × Event))
    → IsValid (run (new_pool size socks5) es)
run-IsValid size socks5 es =
    (run-Advances (new_pool size socks5) es (new_pool-IsValid size socks5)).valid

-- The handle's callbacks close over an older generation than its own.
abbrev pub IsRevoked : Pool → ℕ → Type 0
IsRevoked p a = (a < p.next) × (p.captured a < (p.heap a).generation)

Advances-IsRevoked : {p q : Pool} (a : ℕ) → Advances p q → IsRevoked p a → IsRevoked q a
Advances-IsRevoked a e h = omega (arith, e.grows, e.same_captured a h.0, e.newer a h.0)

revoke-IsRevoked : (p : Pool) (a : ℕ) → IsValid p → a < p.next → IsRevoked (revoke p a) a
unfolding revoke
revoke-IsRevoked p a v h = ground (arith, v.bound a, v.fresh a)

revoke_all-IsRevoked :
    (p : Pool) (addrs : List ℕ)
    → IsValid p
    → Known p addrs
    → All (IsRevoked (revoke_all p addrs)) addrs
unfolding revoke_all
revoke_all-IsRevoked p [] v h = tt
revoke_all-IsRevoked p (a ∷ addrs) v h =
    let q = revoke p a in
    let first = (revoke-Advances p a v h.0).valid in
    let known : Known q addrs = rw (revoke-next p a) h.1 in
    (
      Advances-IsRevoked a (revoke_all-Advances q addrs first known) (revoke-IsRevoked p a v h.0),
      revoke_all-IsRevoked q addrs first known,
    )

-- All that the callbacks of the handle at address a leave alone: the whole pool but that handle.
pub record SameButHandle (a : ℕ) (p q : Pool) : Type 0 where
  pub same_handles : (b : ℕ) → b ≢ a → q.heap b ≡ p.heap b
  pub same_size : q.size ≡ p.size
  pub same_socks5 : q.socks5 ≡ p.socks5
  pub same_next : q.next ≡ p.next
  pub same_captured : q.captured ≡ p.captured
  pub same_map : q.worker_map ≡ p.worker_map
  pub same_index : q.rr_index ≡ p.rr_index
  pub same_started : q.started ≡ p.started
  pub same_timer : q.health_timer ≡ p.health_timer
  pub same_spawning : q.spawning ≡ p.spawning
  pub same_generations : q.generations ≡ p.generations
  pub same_effects : q.effects ≡ p.effects
  pub same_stopping : q.stopping ≡ p.stopping
  pub same_restarting : q.restarting ≡ p.restarting
  pub same_shrinking : q.shrinking ≡ p.shrinking
  pub same_ticks : q.ticks ≡ p.ticks

abbrev pub IsSilent : Pool → ℕ → Type 0
IsSilent p a =
    ((how : ChildProcess) (now : ℕ) → SameButHandle a p (child_exits p a how now))
    × SameButHandle a p (respawn_fires p a)

IsRevoked-IsSilent : (p : Pool) (a : ℕ) → IsRevoked p a → IsSilent p a
unfolding child_exits respawn_fires
IsRevoked-IsSilent p a h = (
  (λ how now. record {
    same_handles = λ b other. ground arith;
    same_size = ground arith;
    same_socks5 = ground arith;
    same_next = ground arith;
    same_captured = ground arith;
    same_map = ground arith;
    same_index = ground arith;
    same_started = ground arith;
    same_timer = ground arith;
    same_spawning = ground arith;
    same_generations = ground arith;
    same_effects = ground arith;
    same_stopping = ground arith;
    same_restarting = ground arith;
    same_shrinking = ground arith;
    same_ticks = ground arith;
  }),
  record {
    same_handles = λ b other. ground arith;
    same_size = ground arith;
    same_socks5 = ground arith;
    same_next = ground arith;
    same_captured = ground arith;
    same_map = ground arith;
    same_index = ground arith;
    same_started = ground arith;
    same_timer = ground arith;
    same_spawning = ground arith;
    same_generations = ground arith;
    same_effects = ground arith;
    same_stopping = ground arith;
    same_restarting = ground arith;
    same_shrinking = ground arith;
    same_ticks = ground arith;
  },
)

Quiet-IsRevoked : {p q : Pool} (a : ℕ) → Quiet p q → IsRevoked p a → IsRevoked q a
Quiet-IsRevoked a e h = omega (arith, e.same_next, e.same_captured a, e.same_generation a)

stop-IsRevoked : (p : Pool) → IsValid p → All (IsRevoked (stop p)) (values p.worker_map)
unfolding stop
stop-IsRevoked p v =
    let addrs = values p.worker_map in
    let q = record p { started = false; health_timer = false } in
    let r = revoke_all q addrs in
    All-mono addrs
      (λ a h. Quiet-IsRevoked {p = r} {q = kill_all r addrs} a (kill_all-Quiet r addrs) h)
      (revoke_all-IsRevoked q addrs (Quiet-Advances p q v (ground arith)).valid (values-Known p v))

run-IsRevoked :
    (p : Pool) (a : ℕ) (es : List (ℕ × Event)) → IsValid p → IsRevoked p a → IsSilent (run p es) a
run-IsRevoked p a es v h =
    IsRevoked-IsSilent (run p es) a (Advances-IsRevoked a (run-Advances p es v) h)

-- A worker that `stop` found in the map is silent for ever: after any later events, a restart of the
-- pool among them, the exit of its child and its respawn timer change nothing in the pool but the handle itself.
pub stop_silences :
    (p : Pool) (es : List (ℕ × Event))
    → IsValid p
    → All (IsSilent (run (stop p) es)) (values p.worker_map)
stop_silences p es v =
    All-mono (values p.worker_map) (λ a h. run-IsRevoked (stop p) a es (stop-Advances p v).valid h)
      (stop-IsRevoked p v)

kill_and_respawn-IsRevoked :
    (p : Pool) (a : ℕ) → IsValid p → a < p.next → IsRevoked (kill_and_respawn p a) a
unfolding kill_and_respawn
kill_and_respawn-IsRevoked p a v h = ground (arith, v.bound a, v.fresh a)

pub restart_worker-eq :
    (p q : Pool) (id a : ℕ)
    → get id p.worker_map ≡ some a
    → restart_worker p id ≡ some q
    → kill_and_respawn p a ≡ q
unfolding restart_worker
restart_worker-eq p q id a h e = cc (rw (h, restart_worker) at e)

-- The handle that `restartWorker` found is silent for ever: after any later events, the exit of its
-- child and its respawn timer change nothing but the handle.
restart_silences :
    (p q : Pool) (id a : ℕ) (es : List (ℕ × Event))
    → IsValid p
    → get id p.worker_map ≡ some a
    → restart_worker p id ≡ some q
    → IsSilent (run q es) a
restart_silences p q id a es v h e =
    let known = (get-All (IsMapped p) id p.worker_map v.mapped h).0 in
    subst (λ r. IsSilent (run r es) a) (restart_worker-eq p q id a h e)
      (run-IsRevoked (kill_and_respawn p a) a es (kill_and_respawn-Advances p a v known).valid
        (kill_and_respawn-IsRevoked p a v known))
