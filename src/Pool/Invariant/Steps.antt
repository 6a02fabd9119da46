-- ===== src/Pool/Invariant/Steps.antt =====
-- packages/opencode-adapter/src/pool.ts: every event of the pool keeps its invariant.
use deepseek_harness.Common.{
  Option, none, some, ℕ, zero, suc, ◌-◌, ◌≤◌, ◌<◌, ◌≡◌, refl, inl, inr, true, false, Option, some,
  List, [], ◌∷◌, arith, Option-cases, Bool-cases, leb, nat_eq, not, ◌||◌, ltb, ◌==◌,
}
use deepseek_harness.Common.JsMap.{get, values}
use deepseek_harness.Common.JsMap.Entries.{get-All}
use deepseek_harness.Pool.State.{
  Pool, Phase, JsNumber, normalize_pool_size, reserving, probing, sleeping, is_current,
  pool_min_size, pool_max_size,
}
use deepseek_harness.Pool.Spawn.{Launch, install_handle, continue_spawn, port_reserved}
use deepseek_harness.Pool.Control.{
  revoke, revoke_all, stop, stop_finishes, removals, resize, resize_finishes, take_call,
  resize_ended, kill_and_respawn, restart_worker, start_settled,
}
use deepseek_harness.Pool.Events.{
  Event, starts, started, stops, stop_ends, resizes, resize_ends, restarts, resumes, picks, parks,
  port_comes, port_fails, probe_answers, sleep_ends, exits, timer_fires, ticks, tick_answers,
  sets_socks5, step, run, or_same,
}
use deepseek_harness.Pool.Quiet.{
  launch_child-Quiet, spawn_range-Quiet, port_failed-Quiet, probe_settled-Quiet,
  sleep_settled-Quiet, respawn_fires-Quiet, park_worker-Quiet, pick_healthy-Quiet,
  restart_resumes-Quiet, child_exits-Quiet, health_tick-Quiet, tick_answered-Quiet, start-Quiet,
  set_socks5-Quiet,
}
use deepseek_harness.Pool.Invariant.{
  IsMapped, IsValid, Advances, Advances-refl, Advances-trans, Quiet-Advances, revoke-Advances,
  install_handle-Advances,
}
use deepseek_harness.Pool.Invariant.Loops.{
  values-Known, filter-Known, kill_all-Quiet, revoke_all-Advances, remove_all-Advances,
  drop_all-Advances, shrink-Advances,
}

pub normalize_pool_size_bounds :
    (value : JsNumber)
    → (pool_min_size ≤ normalize_pool_size value) × (normalize_pool_size value ≤ pool_max_size)
unfolding normalize_pool_size
normalize_pool_size_bounds value = ground arith

eq_of_is_current : (o : Option ℕ) (g : ℕ) → is_current o g ≡ true → o ≡ some g
eq_of_is_current o g h = ground arith

continue_spawn-Advances :
    (p : Pool) (id port : ℕ) (launched : Launch) (now : ℕ) (phase : Phase)
    → IsValid p
    → Advances p (continue_spawn p id port launched now phase)
unfolding continue_spawn
continue_spawn-Advances p id port launched now (reserving generation existing) v =
    elim (Bool-cases (not p.started || not (is_current (get id p.generations) generation))) [
      | inl stale ↦ rw stale (Quiet-Advances p _ v (ground arith))
      | inr live ↦
          let q = install_handle p id generation existing port now in
          let installed =
            install_handle-Advances p id generation existing port now v
              (eq_of_is_current (get id p.generations) generation (ground arith)) in
          rw live (
            Advances-trans p q _ installed (
              Quiet-Advances q _ installed.valid
                (launch_child-Quiet q id p.next port now launched)))
    ]
continue_spawn-Advances p id port launched now (probing a deadline) v = Advances-refl p v
continue_spawn-Advances p id port launched now (sleeping a deadline) v = Advances-refl p v

port_reserved-Advances :
    (p : Pool) (id port : ℕ) (launched : Launch) (now : ℕ)
    → IsValid p
    → Advances p (port_reserved p id port launched now)
unfolding port_reserved
port_reserved-Advances p id port launched now v = elim (Option-cases (get id p.spawning)) [
  | inl e ↦ rw (e, port_reserved) (Advances-refl p v)
  | inr (phase, e) ↦ rw (e, port_reserved) (continue_spawn-Advances p id port launched now phase v)
]

pub stop-Advances : (p : Pool) → IsValid p → Advances p (stop p)
unfolding stop
stop-Advances p v =
    let q = record p { started = false; health_timer = false } in
    let r = revoke_all q (values p.worker_map) in
    let first : Advances p q = Quiet-Advances p q v (ground arith) in
    let revoked = revoke_all-Advances q (values p.worker_map) first.valid (values-Known p v) in
    Advances-trans p q _ first (
      Advances-trans q r _ revoked
        (Quiet-Advances r _ revoked.valid (ground (arith, kill_all-Quiet r (values p.worker_map)))))

stop_finishes-Advances : (p : Pool) → IsValid p → Advances p (stop_finishes p)
unfolding stop_finishes
stop_finishes-Advances p v = by_calls p.stopping
  where
    by_calls :
        (n : ℕ)
        → Advances p (elim n [ zero ↦ p | suc m ↦ record p { stopping = m; worker_map = [] } ])
    by_calls zero = Advances-refl p v
    by_calls (suc m) =
        Advances-trans p _ _ (shrink-Advances p [] v tt tt)
          (Quiet-Advances _ _ (shrink-Advances p [] v tt tt).valid (ground arith))

-- The size that `resize` stores is in range.
resized-Advances :
    (p : Pool) (size : JsNumber)
    → IsValid p
    → Advances p (record p { size = normalize_pool_size size })
resized-Advances p size v = record {
  valid = record {
    at_least = (normalize_pool_size_bounds size).0;
    at_most = (normalize_pool_size_bounds size).1;
    uniq = v.uniq;
    mapped = v.mapped;
    fresh = v.fresh;
    bound = v.bound;
  };
  grows = omega arith;
  same_captured = λ a h. refl;
  newer = λ a h. omega arith;
}

resize-Advances : (p : Pool) (size : JsNumber) → IsValid p → Advances p (resize p size)
unfolding resize
resize-Advances p size v =
    let next = normalize_pool_size size in
    let q = record p { size = next } in
    let sized = resized-Advances p size v in
    let gone = remove_all-Advances q (removals q next) sized.valid (
      filter-Known q (λ a. leb next (q.heap a).id) (values p.worker_map)
        (values-Known q sized.valid)) in
    elim (Bool-cases (not p.started || next == p.size)) [
      | inl idle ↦ rw (idle, resize) sized
      | inr busy ↦ elim (Bool-cases (ltb p.size next)) [
        | inl more ↦
            rw (busy, more, resize)
              (Advances-trans p q _ sized
                (Quiet-Advances q _ sized.valid (spawn_range-Quiet q p.size (next - p.size))))
        | inr fewer ↦
            rw (busy, fewer, resize)
              (Advances-trans p q _ sized
                (Advances-trans q _ _ gone (Quiet-Advances _ _ gone.valid (ground arith))))
      ]
    ]

resize_finishes-Advances : (p : Pool) (n : ℕ) → IsValid p → Advances p (resize_finishes p n)
unfolding resize_finishes
resize_finishes-Advances p n v = by_call (take_call n p.shrinking)
  where
    by_call : (call : Option (List ℕ × List (List ℕ))) → Advances p (resize_ended p call)
    by_call none = Advances-refl p v
    by_call (some (addrs, rest)) =
        let q = record p { shrinking = rest } in
        let begun : Advances p q = Quiet-Advances p q v (ground arith) in
        Advances-trans p q _ begun (drop_all-Advances q addrs begun.valid)

pub kill_and_respawn-Advances :
    (p : Pool) (a : ℕ) → IsValid p → a < p.next → Advances p (kill_and_respawn p a)
unfolding kill_and_respawn
kill_and_respawn-Advances p a v h =
    let q = revoke p a in
    let revoked = revoke-Advances p a v h in
    Advances-trans p q _ revoked (Quiet-Advances q _ revoked.valid (ground arith))

restart_worker-Advances :
    (p : Pool) (id : ℕ) → IsValid p → Advances p (or_same p (restart_worker p id))
unfolding restart_worker
restart_worker-Advances p id v = elim (Option-cases (get id p.worker_map)) [
  | inl e ↦ rw (e, restart_worker) (Advances-refl p v)
  | inr (a, e) ↦
      rw (e, restart_worker)
        (kill_and_respawn-Advances p a v (get-All (IsMapped p) id p.worker_map v.mapped e).0)
]

pub step-Advances : (p : Pool) (now : ℕ) (e : Event) → IsValid p → Advances p (step p now e)
unfolding step
step-Advances p now starts v = Quiet-Advances p _ v (start-Quiet p)
step-Advances p now started v = Quiet-Advances p _ v (unfold start_settled in ground arith)
step-Advances p now stops v = stop-Advances p v
step-Advances p now stop_ends v = stop_finishes-Advances p v
step-Advances p now (resizes size) v = resize-Advances p size v
step-Advances p now (resize_ends n) v = resize_finishes-Advances p n v
step-Advances p now (restarts id) v = restart_worker-Advances p id v
step-Advances p now (resumes a) v = Quiet-Advances p _ v (restart_resumes-Quiet p a)
step-Advances p now (picks skip) v = Quiet-Advances p _ v (pick_healthy-Quiet p skip now)
step-Advances p now (parks id ms) v = Quiet-Advances p _ v (park_worker-Quiet p id ms now)
step-Advances p now (port_comes id port launched) v =
    port_reserved-Advances p id port launched now v
step-Advances p now (port_fails id) v = Quiet-Advances p _ v (port_failed-Quiet p id)
step-Advances p now (probe_answers id ok) v = Quiet-Advances p _ v (probe_settled-Quiet p id ok)
step-Advances p now (sleep_ends id) v = Quiet-Advances p _ v (sleep_settled-Quiet p id now)
step-Advances p now (exits a how) v = Quiet-Advances p _ v (child_exits-Quiet p a how now)
step-Advances p now (timer_fires a) v = Quiet-Advances p _ v (respawn_fires-Quiet p a)
step-Advances p now ticks v = Quiet-Advances p _ v (health_tick-Quiet p)
step-Advances p now (tick_answers n ok) v = Quiet-Advances p _ v (tick_answered-Quiet p n ok)
step-Advances p now (sets_socks5 config) v = Quiet-Advances p _ v (set_socks5-Quiet p config)

pub run-Advances : (p : Pool) (es : List (ℕ × Event)) → IsValid p → Advances p (run p es)
unfolding run
run-Advances p [] v = Advances-refl p v
run-Advances p ((now, e) ∷ es) v =
    let q = step p now e in
    let first = step-Advances p now e v in
    Advances-trans p q _ first (run-Advances q es first.valid)
