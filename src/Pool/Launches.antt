-- ===== src/Pool/Launches.antt =====
-- packages/opencode-adapter/src/pool.ts: when the pool starts children.
use deepseek_harness.Common.{
  Option, none, some, ℕ, zero, suc, ◌+◌, ◌-◌, ◌≡◌, refl, false, List, [], ◌∷◌, arith, nat_eq,
}
use deepseek_harness.Common.JsMap.{values}
use deepseek_harness.Pool.State.{
  Pool, Effect, launch, changed, stuck, kill_tree, kill_child, write_socks5, push_socks5,
  respawn_in, JsNumber, normalize_pool_size,
}
use deepseek_harness.Pool.Spawn.{spawn_worker}
use deepseek_harness.Pool.Control.{
  revoke, kill_worker, revoke_all, kill_all, remove_all, spawn_range, stop, removals, resize,
}
use deepseek_harness.Pool.Events.{
  Event, starts, started, stops, stop_ends, resizes, resize_ends, restarts, resumes, picks, parks,
  port_comes, port_fails, probe_answers, sleep_ends, exits, timer_fires, ticks, tick_answers,
  sets_socks5, step, run,
}
use deepseek_harness.Common.{Bool, some, All, Option-cases, inl, inr, ◌≢◌, ◌∙◌}
use deepseek_harness.Common.JsMap.{get}
use deepseek_harness.Pool.State.{ChildProcess, put, Phase, reserving, probing, sleeping}
use deepseek_harness.Pool.Select.{park_worker}
use deepseek_harness.Pool.Spawn.{
  Launch, port_reserved, continue_spawn, port_failed, probe_settled, sleep_settled, maybe_respawn,
  respawn_fires,
}
use deepseek_harness.Pool.Control.{
  drop, drop_all, start_settled, stop_finishes, resize_finishes, take_call, resize_ended, answered,
  restart_worker, restart_resumes, child_exits, note_exit, health_tick, note_health, tick_answered,
  push_all, push_socks5_to_worker, set_socks5,
}

-- How many children were started.
abbrev pub launches : List Effect → ℕ
launches [] = 0
launches (launch id port ∷ done) = suc (launches done)
launches (changed w ∷ done) = launches done
launches (stuck w ∷ done) = launches done
launches (kill_tree pid ∷ done) = launches done
launches (kill_child a ∷ done) = launches done
launches (write_socks5 id cfg ∷ done) = launches done
launches (push_socks5 port cfg ∷ done) = launches done
launches (respawn_in id ms ∷ done) = launches done

record Idle (p q : Pool) : Type 0 where
  same_launches : launches q.effects ≡ launches p.effects
  still_down : p.started ≡ false → q.started ≡ false

Idle-refl : (p : Pool) → Idle p p
Idle-refl p = record { same_launches = refl; still_down = λ d. d }

Idle-trans : (p q r : Pool) → Idle p q → Idle q r → Idle p r
Idle-trans p q r e f = record {
  same_launches = cc (e.same_launches, f.same_launches);
  still_down = λ d. f.still_down (e.still_down d);
}

spawn_worker-Idle : (p : Pool) (id : ℕ) → Idle p (spawn_worker p id)
unfolding spawn_worker
spawn_worker-Idle p id = ground arith

spawn_range-Idle : (p : Pool) (from count : ℕ) → Idle p (spawn_range p from count)
unfolding spawn_range
spawn_range-Idle p from zero = Idle-refl p
spawn_range-Idle p from (suc count) =
    let q = spawn_worker p from in
    Idle-trans p q (spawn_range q (from + 1) count) (spawn_worker-Idle p from)
      (spawn_range-Idle q (from + 1) count)

revoke-Idle : (p : Pool) (a : ℕ) → Idle p (revoke p a)
unfolding revoke
revoke-Idle p a = ground arith

kill_worker-Idle : (p : Pool) (a : ℕ) → Idle p (kill_worker p a)
kill_worker-Idle p a = ground arith

revoke_all-Idle : (p : Pool) (addrs : List ℕ) → Idle p (revoke_all p addrs)
unfolding revoke_all
revoke_all-Idle p [] = Idle-refl p
revoke_all-Idle p (a ∷ addrs) =
    Idle-trans p (revoke p a) (revoke_all (revoke p a) addrs) (revoke-Idle p a)
      (revoke_all-Idle (revoke p a) addrs)

kill_all-Idle : (p : Pool) (addrs : List ℕ) → Idle p (kill_all p addrs)
unfolding kill_all
kill_all-Idle p [] = Idle-refl p
kill_all-Idle p (a ∷ addrs) =
    Idle-trans p (kill_worker p a) (kill_all (kill_worker p a) addrs) (kill_worker-Idle p a)
      (kill_all-Idle (kill_worker p a) addrs)

remove_all-Idle : (p : Pool) (addrs : List ℕ) → Idle p (remove_all p addrs)
unfolding remove_all
remove_all-Idle p [] = Idle-refl p
remove_all-Idle p (a ∷ addrs) =
    let q = revoke p a in
    let r = kill_worker q a in
    Idle-trans p q (remove_all r addrs) (revoke-Idle p a)
      (Idle-trans q r (remove_all r addrs) (kill_worker-Idle q a) (remove_all-Idle r addrs))

stop-Idle : (p : Pool) → Idle p (stop p)
unfolding stop
stop-Idle p =
    let addrs = values p.worker_map in
    let q = record p { started = false; health_timer = false } in
    ground (arith, revoke_all-Idle q addrs, kill_all-Idle (revoke_all q addrs) addrs)

resize-Idle : (p : Pool) (size : JsNumber) → Idle p (resize p size)
unfolding resize
resize-Idle p size =
    let next = normalize_pool_size size in
    let q = record p { size = next } in
    ground (arith, spawn_range-Idle q p.size (next - p.size), remove_all-Idle q (removals q next))

drop-Idle : (p : Pool) (a : ℕ) → Idle p (drop p a)
unfolding drop
drop-Idle p a = ground arith

drop_all-Idle : (p : Pool) (addrs : List ℕ) → Idle p (drop_all p addrs)
unfolding drop_all
drop_all-Idle p [] = Idle-refl p
drop_all-Idle p (a ∷ addrs) =
    Idle-trans p (drop p a) (drop_all (drop p a) addrs) (drop-Idle p a)
      (drop_all-Idle (drop p a) addrs)

resize_finishes-Idle : (p : Pool) (n : ℕ) → Idle p (resize_finishes p n)
unfolding resize_finishes
resize_finishes-Idle p n = by_call (take_call n p.shrinking)
  where
    by_call : (call : Option (List ℕ × List (List ℕ))) → Idle p (resize_ended p call)
    by_call none = Idle-refl p
    by_call (some (addrs, rest)) =
        let q = record p { shrinking = rest } in
        Idle-trans p q (drop_all q addrs) (ground arith) (drop_all-Idle q addrs)

push_all-Idle : (p : Pool) (addrs : List ℕ) → Idle p (push_all p addrs)
unfolding push_all
push_all-Idle p [] = Idle-refl p
push_all-Idle p (a ∷ addrs) =
    let q = push_socks5_to_worker p a in
    Idle-trans p q (push_all q addrs) (ground arith) (push_all-Idle q addrs)

maybe_respawn-Idle : (p : Pool) (a now : ℕ) → Idle p (maybe_respawn p a now)
unfolding maybe_respawn
maybe_respawn-Idle p a now = ground arith

-- The effects of the three events whose helpers stay shut.
child_exits-Idle :
    (p : Pool) (a : ℕ) (how : ChildProcess) (now : ℕ) → Idle p (child_exits p a how now)
unfolding child_exits
child_exits-Idle p a how now =
    let q = put p a (record (p.heap a) { proc = some how }) in
    ground (arith, maybe_respawn-Idle (note_exit q a) a now)

continue_spawn-Idle :
    (p : Pool) (id port : ℕ) (launched : Launch) (now : ℕ) (phase : Phase)
    → p.started ≡ false
    → Idle p (continue_spawn p id port launched now phase)
unfolding continue_spawn
continue_spawn-Idle p id port launched now (reserving g e) d = rw (d, continue_spawn) (ground arith)
continue_spawn-Idle p id port launched now (probing a t) d = Idle-refl p
continue_spawn-Idle p id port launched now (sleeping a t) d = Idle-refl p

port_reserved-Idle :
    (p : Pool) (id port : ℕ) (launched : Launch) (now : ℕ)
    → p.started ≡ false
    → Idle p (port_reserved p id port launched now)
unfolding port_reserved
port_reserved-Idle p id port launched now d = elim (Option-cases (get id p.spawning)) [
  | inl e ↦ rw (e, port_reserved) (Idle-refl p)
  | inr (phase, e) ↦ rw (e, port_reserved) (continue_spawn-Idle p id port launched now phase d)
]

module _ (p : Pool) where
  note_health-Idle : (a : ℕ) (ok : Bool) → Idle p (note_health p a ok)
  unfolding note_health
  note_health-Idle a ok = ground arith

tick_answered-Idle : (p : Pool) (n : ℕ) (ok : Bool) → Idle p (tick_answered p n ok)
unfolding tick_answered
tick_answered-Idle p n ok = by_call (take_call n p.ticks)
  where
    by_call : (call : Option (List ℕ × List (List ℕ))) → Idle p (answered p ok call)
    by_call none = Idle-refl p
    by_call (some ([], rest)) = ground arith
    by_call (some (a ∷ addrs, rest)) = ground arith

step-Idle :
    (p : Pool) (now : ℕ) (e : Event) → e ≢ starts → p.started ≡ false → Idle p (step p now e)
unfolding step
step-Idle p now starts h d = absurd (h refl)
step-Idle p now started h d = unfold start_settled in ground arith
step-Idle p now stops h d = stop-Idle p
step-Idle p now stop_ends h d = unfold stop_finishes in ground arith
step-Idle p now (resizes size) h d = resize-Idle p size
step-Idle p now (resize_ends n) h d = resize_finishes-Idle p n
step-Idle p now (restarts id) h d = unfold restart_worker in ground arith
step-Idle p now (resumes a) h d = unfold restart_resumes in ground arith
step-Idle p now (picks skip) h d = ground arith
step-Idle p now (parks id ms) h d = unfold park_worker in ground arith
step-Idle p now (port_comes id port launched) h d = port_reserved-Idle p id port launched now d
step-Idle p now (port_fails id) h d = unfold port_failed in ground arith
step-Idle p now (probe_answers id ok) h d = unfold probe_settled in ground arith
step-Idle p now (sleep_ends id) h d = unfold sleep_settled in ground arith
step-Idle p now (exits a how) h d = child_exits-Idle p a how now
step-Idle p now (timer_fires a) h d = unfold respawn_fires in ground arith
step-Idle p now ticks h d = unfold health_tick in ground arith
step-Idle p now (tick_answers n ok) h d = tick_answered-Idle p n ok
step-Idle p now (sets_socks5 config) h d =
    unfold set_socks5 in
    ground (arith, push_all-Idle (record p { socks5 = config }) (values p.worker_map))

stop-down : (p : Pool) → (stop p).started ≡ false
unfolding stop
stop-down p =
    let addrs = values p.worker_map in
    let q = record p { started = false; health_timer = false } in
    let r = revoke_all q addrs in
    (kill_all-Idle r addrs).still_down ((revoke_all-Idle q addrs).still_down refl)

-- No call of `start` is among the events.
abbrev pub NoStart : List (ℕ × Event) → Type 0
NoStart = All (λ e. e.1 ≢ starts)

down_run :
    (p : Pool) (es : List (ℕ × Event))
    → NoStart es
    → p.started ≡ false
    → launches (run p es).effects ≡ launches p.effects
unfolding run
down_run p [] h d = refl
down_run p ((now, e) ∷ es) h d =
    let first = step-Idle p now e h.0 d in
    down_run (step p now e) es h.1 (first.still_down d) ∙ first.same_launches

-- From the call of `stop` until the next call of `start` no child is started, whatever spawns,
-- respawn timers, restarts, resizes and health checks are still on their way.
pub stop-launches_nothing :
    (p : Pool) (es : List (ℕ × Event))
    → NoStart es
    → launches (run (stop p) es).effects ≡ launches p.effects
stop-launches_nothing p es h = down_run (stop p) es h (stop-down p) ∙ (stop-Idle p).same_launches
