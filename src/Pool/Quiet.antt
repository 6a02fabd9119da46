-- ===== src/Pool/Quiet.antt =====
-- packages/opencode-adapter/src/pool.ts: the events that neither install a handle nor revoke one.
-- They leave the map, the size and every handle's id and generation alone.
use deepseek_harness.Common.{
  Option, none, some, ℕ, zero, suc, ◌+◌, ◌≤◌, ◌≡◌, Bool, true, Option, List, [], ◌∷◌, arith, nat_eq,
  some,
}
use deepseek_harness.Common.JsMap.{JsMap, get, set, get-set, values}
use deepseek_harness.Pool.State.{put, ChildProcess, Pool, Socks5Config, or_zero}
use deepseek_harness.Pool.Select.{park_worker, pick_healthy}
use deepseek_harness.Pool.Spawn.{
  throws, child, Launch, spawn_worker, launch_child, port_failed, probe_settled, sleep_settled,
  maybe_respawn, respawn_fires,
}
use deepseek_harness.Pool.Control.{
  spawn_range, start, restart_resumes, child_exits, note_health, health_tick, tick_answered,
  take_call, answered, push_all, push_socks5_to_worker, note_exit, set_socks5,
  push_socks5_to_worker, note_exit,
}

pub record Quiet (p q : Pool) : Type 0 where
  pub same_next : q.next ≡ p.next
  pub same_map : q.worker_map ≡ p.worker_map
  pub same_size : q.size ≡ p.size
  pub same_id : (a : ℕ) → (q.heap a).id ≡ (p.heap a).id
  pub same_captured : (a : ℕ) → q.captured a ≡ p.captured a
  pub same_generation : (a : ℕ) → (q.heap a).generation ≡ (p.heap a).generation
  pub advances : (id : ℕ) → or_zero (get id p.generations) ≤ or_zero (get id q.generations)

pub Quiet-refl : (p : Pool) → Quiet p p
Quiet-refl p = ground arith

pub Quiet-trans : (p q r : Pool) → Quiet p q → Quiet q r → Quiet p r
Quiet-trans p q r v w = record {
  same_next = cc (v.same_next, w.same_next);
  same_map = cc (v.same_map, w.same_map);
  same_size = cc (v.same_size, w.same_size);
  same_id = λ a. cc (v.same_id a, w.same_id a);
  same_captured = λ a. cc (v.same_captured a, w.same_captured a);
  same_generation = λ a. cc (v.same_generation a, w.same_generation a);
  advances = λ id. omega (arith, v.advances id, w.advances id);
}

-- A generation that `nextGeneration` has stored is above the one before.
bump_le :
    (gs : JsMap ℕ ℕ) (id j : ℕ)
    → or_zero (get j gs) ≤ or_zero (get j (set id (or_zero (get id gs) + 1) gs))
bump_le gs id j = ground (arith, get-set id j (or_zero (get id gs) + 1) gs)

module _ (p : Pool) where
  pub spawn_worker-Quiet : (id : ℕ) → Quiet p (spawn_worker p id)
  unfolding spawn_worker
  spawn_worker-Quiet id = ground (arith, bump_le p.generations id)

  pub launch_child-Quiet :
      (id a port now : ℕ) (launched : Launch) → Quiet p (launch_child p id a port now launched)
  unfolding launch_child
  launch_child-Quiet id a port now throws = ground arith
  launch_child-Quiet id a port now (child pid) = ground arith

  pub port_failed-Quiet : (id : ℕ) → Quiet p (port_failed p id)
  unfolding port_failed
  port_failed-Quiet id = ground arith

  pub probe_settled-Quiet : (id : ℕ) (ok : Bool) → Quiet p (probe_settled p id ok)
  unfolding probe_settled
  probe_settled-Quiet id ok = ground arith

  pub sleep_settled-Quiet : (id now : ℕ) → Quiet p (sleep_settled p id now)
  unfolding sleep_settled
  sleep_settled-Quiet id now = ground arith

  pub maybe_respawn-Quiet : (a now : ℕ) → Quiet p (maybe_respawn p a now)
  unfolding maybe_respawn
  maybe_respawn-Quiet a now = ground arith

  pub respawn_fires-Quiet : (a : ℕ) → Quiet p (respawn_fires p a)
  unfolding respawn_fires
  respawn_fires-Quiet a = ground (arith, bump_le p.generations (p.heap a).id)

  pub park_worker-Quiet : (id ms now : ℕ) → Quiet p (park_worker p id ms now)
  unfolding park_worker
  park_worker-Quiet id ms now = ground arith

  pub pick_healthy-Quiet : (skip : List ℕ) (now : ℕ) → Quiet p (pick_healthy p skip now).1
  unfolding pick_healthy
  pick_healthy-Quiet skip now = ground arith

  pub restart_resumes-Quiet : (a : ℕ) → Quiet p (restart_resumes p a)
  unfolding restart_resumes
  restart_resumes-Quiet a = ground (arith, bump_le p.generations (p.heap a).id)

  pub health_tick-Quiet : Quiet p (health_tick p)
  unfolding health_tick
  health_tick-Quiet = ground arith

  note_health-Quiet : (a : ℕ) (ok : Bool) → Quiet p (note_health p a ok)
  unfolding note_health
  note_health-Quiet a ok = ground arith

pub child_exits-Quiet :
    (p : Pool) (a : ℕ) (how : ChildProcess) (now : ℕ) → Quiet p (child_exits p a how now)
unfolding child_exits
child_exits-Quiet p a how now =
    let q = put p a (record (p.heap a) { proc = some how }) in
    ground (arith, maybe_respawn-Quiet (note_exit q a) a now)

pub tick_answered-Quiet : (p : Pool) (n : ℕ) (ok : Bool) → Quiet p (tick_answered p n ok)
unfolding tick_answered
tick_answered-Quiet p n ok = by_call (take_call n p.ticks)
  where
    by_call : (call : Option (List ℕ × List (List ℕ))) → Quiet p (answered p ok call)
    by_call none = ground arith
    by_call (some ([], rest)) = ground arith
    by_call (some (a ∷ addrs, rest)) = ground arith

pub spawn_range-Quiet : (p : Pool) (from count : ℕ) → Quiet p (spawn_range p from count)
unfolding spawn_range
spawn_range-Quiet p from zero = Quiet-refl p
spawn_range-Quiet p from (suc count) =
    let q = spawn_worker p from in
    Quiet-trans p q (spawn_range q (from + 1) count) (spawn_worker-Quiet p from)
      (spawn_range-Quiet q (from + 1) count)

pub start-Quiet : (p : Pool) → Quiet p (start p)
unfolding start
start-Quiet p = ground (arith, spawn_range-Quiet (record p { started = true }) 0 p.size)

push_socks5_to_worker-Quiet : (p : Pool) (a : ℕ) → Quiet p (push_socks5_to_worker p a)
push_socks5_to_worker-Quiet p a = ground arith

push_all-Quiet : (p : Pool) (addrs : List ℕ) → Quiet p (push_all p addrs)
unfolding push_all
push_all-Quiet p [] = Quiet-refl p
push_all-Quiet p (a ∷ addrs) =
    let q = push_socks5_to_worker p a in
    Quiet-trans p q (push_all q addrs) (push_socks5_to_worker-Quiet p a) (push_all-Quiet q addrs)

pub set_socks5-Quiet : (p : Pool) (config : Option Socks5Config) → Quiet p (set_socks5 p config)
unfolding set_socks5
set_socks5-Quiet p config =
    ground (arith, push_all-Quiet (record p { socks5 = config }) (values p.worker_map))
