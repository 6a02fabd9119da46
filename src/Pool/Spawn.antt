-- ===== src/Pool/Spawn.antt =====
-- packages/opencode-adapter/src/pool.ts: `spawnWorker`, `spawnWorkerOnce` and `maybeRespawn`, cut
-- at each `await`. A spawn that has not settled has its entry in `spawning` (`spawnPromises`); an
-- entry goes when the promise settles, since there is one promise for each id.
use deepseek_harness.Common.{
  ℕ, ◌+◌, ◌-◌, Bool, true, false, not, ◌&&◌, ◌||◌, Option, none, some, ltb, leb, ◌==◌,
  if◌then◌else◌, nat_eq, List, ◌∷◌,
}
use deepseek_harness.Common.JsMap.{get, set, delete}
use deepseek_harness.Pool.State.{
  starting, ready, unhealthy, stopped, is_unhealthy, is_stopped, ManagedWorker, ChildProcess,
  running, exit_code_null, Phase, reserving, probing, sleeping, kill_tree, stuck, write_socks5,
  launch, respawn_in, Pool, health_timeout_ms, restart_window_ms, restart_budget, backoff_ms,
  to_public, put, perform, emit_change, next_generation, is_current, update, Socks5Config, Effect,
}

abbrev pub has_child : Option ChildProcess → Bool
has_child none = false
has_child (some c) = true

-- `existing && existing.proc && !existing.stopped && status is neither unhealthy nor stopped`.
abbrev pub is_serving : ManagedWorker → Bool
is_serving w =
    has_child w.proc && not w.stopped && not (is_unhealthy w.status) && not (is_stopped w.status)

abbrev pub blocks_spawn : Pool → Option ℕ → Bool
blocks_spawn p none = false
blocks_spawn p (some a) = is_serving (p.heap a)

-- `spawnWorkerOnce` up to `await getFreePort()`.
unfoldable pub spawn_worker_once : Pool → ℕ → Pool
unfolding next_generation
spawn_worker_once p id =
    let existing = get id p.worker_map in
    let (generation, q) = next_generation p id in
    if not p.started || blocks_spawn p existing
    then p
    else record q { spawning = set id (reserving generation existing) q.spawning }

unfoldable pub spawn_worker : Pool → ℕ → Pool
unfolding spawn_worker_once
spawn_worker p id = elim (get id p.spawning) [ some pending ↦ p | none ↦ spawn_worker_once p id ]

abbrev pub settle : Pool → ℕ → Pool
settle p id = record p { spawning = delete id p.spawning }

-- `existing ? existing.restarts + 1 : 0`, read after the port has come.
abbrev pub next_restarts : Pool → Option ℕ → ℕ
next_restarts p none = 0
next_restarts p (some a) = (p.heap a).restarts + 1

abbrev pub new_handle : Pool → ℕ → ℕ → Option ℕ → ℕ → ℕ → ManagedWorker
new_handle p id generation existing port now = record {
  id = id;
  pid = none;
  port = port;
  status = starting;
  started_at = now;
  restarts = next_restarts p existing;
  proc = none;
  generation = generation;
  health_fails = 0;
  last_restart_at = now;
  stopped = false;
  respawn_timer = false;
  parked_until = 0;
}

-- `writeSocks5Config`; the other fields of the file are kept.
abbrev pub write_socks5_config : Option Socks5Config → ℕ → List Effect → List Effect
write_socks5_config none id done = done
write_socks5_config (some cfg) id done = write_socks5 id cfg ∷ done

-- A new handle at the address `p.next`.
unfoldable pub install_handle : Pool → ℕ → ℕ → Option ℕ → ℕ → ℕ → Pool
unfolding emit_change to_public
install_handle p id generation existing port now =
    let w = new_handle p id generation existing port now in
    let q = record p { effects = write_socks5_config p.socks5 id p.effects } in
    emit_change
      (record q {
        heap = update q.heap p.next w;
        next = p.next + 1;
        captured = update q.captured p.next generation;
        worker_map = set id p.next q.worker_map;
      })
      p.next

-- What `spawn(binaryPath, args, …)` does: it throws, or gives a child, perhaps with no pid.
pub data Launch : Type 0 where
  throws : Launch
  child : Option ℕ → Launch

unfoldable pub launch_child : Pool → ℕ → ℕ → ℕ → ℕ → Launch → Pool
unfolding emit_change to_public
launch_child p id a port now throws =
    settle (emit_change (put p a (record (p.heap a) { status = stopped; stopped = true })) a) id
launch_child p id a port now (child pid) =
    let q = perform p (launch id port) in
    let r = put q a (record (q.heap a) { proc = some running; pid = pid }) in
    record r { spawning = set id (probing a (now + health_timeout_ms)) r.spawning }

-- From the port to the first probe; the pending spawn of the id is given.
unfoldable pub continue_spawn : Pool → ℕ → ℕ → Launch → ℕ → Phase → Pool
unfolding install_handle launch_child
continue_spawn p id port launched now (reserving generation existing) =
    if not p.started || not (is_current (get id p.generations) generation)
    then settle p id
    else launch_child (install_handle p id generation existing port now) id p.next port now launched
continue_spawn p id port launched now (probing a deadline) = p
continue_spawn p id port launched now (sleeping a deadline) = p

unfoldable pub port_reserved : Pool → ℕ → ℕ → Launch → ℕ → Pool
unfolding continue_spawn
port_reserved p id port launched now = elim (get id p.spawning) [
  | none ↦ p
  | some phase ↦ continue_spawn p id port launched now phase
]

-- `getFreePort` rejects.
unfoldable pub port_failed : Pool → ℕ → Pool
port_failed p id = elim (get id p.spawning) [
  | some (reserving generation existing) ↦ settle p id
  | _ ↦ p
]

-- `proc.exitCode !== null` of the child that the handle was given.
abbrev pub has_exited : Option ChildProcess → Bool
has_exited none = false
has_exited (some c) = not (exit_code_null c)

-- The answer of `healthOk` inside the readiness loop.
unfoldable pub probe_answered : Pool → ℕ → Bool → Phase → Pool
unfolding emit_change to_public
probe_answered p id ok (probing a deadline) =
    if ok
    then settle (emit_change (put p a (record (p.heap a) { status = ready; health_fails = 0 })) a)
        id
    else record p { spawning = set id (sleeping a deadline) p.spawning }
probe_answered p id ok (reserving generation existing) = p
probe_answered p id ok (sleeping a deadline) = p

-- The end of `sleep(HEALTH_POLL_MS)`: the test of the loop, and its first line.
unfoldable pub sleep_ended : Pool → ℕ → ℕ → Phase → Pool
sleep_ended p id now (sleeping a deadline) =
    let w = p.heap a in
    if ltb now deadline
    then (if not p.started || w.stopped || has_exited w.proc
        then settle p id
        else record p { spawning = set id (probing a deadline) p.spawning })
    else settle (perform p (kill_tree w.pid)) id
sleep_ended p id now (reserving generation existing) = p
sleep_ended p id now (probing a deadline) = p

unfoldable pub probe_settled : Pool → ℕ → Bool → Pool
unfolding probe_answered
probe_settled p id ok = elim (get id p.spawning) [
  | none ↦ p
  | some phase ↦ probe_answered p id ok phase
]

unfoldable pub sleep_settled : Pool → ℕ → ℕ → Pool
unfolding sleep_ended
sleep_settled p id now = elim (get id p.spawning) [
  | none ↦ p
  | some phase ↦ sleep_ended p id now phase
]

-- The guard of the callbacks of a handle: it is not stopped, still in the map, and of the
-- generation that the callback closes over.
abbrev pub is_live : Pool → ℕ → Bool
is_live p a =
    let w = p.heap a in
    not w.stopped && is_current (get w.id p.worker_map) a && w.generation == p.captured a

-- The part of `maybeRespawn` that arms the timer, for the handle `w` as it will be stored.
abbrev pub arm_respawn : Pool → ℕ → ManagedWorker → ℕ → Pool
arm_respawn p a w now =
    perform (put p a (record w { last_restart_at = now; respawn_timer = true }))
      (respawn_in w.id (backoff_ms w.restarts))

abbrev pub give_up : Pool → ℕ → Pool
unfolding emit_change to_public
give_up p a =
    let q = emit_change (put p a (record (p.heap a) { status = unhealthy })) a in
    perform q (stuck (to_public (q.heap a)))

unfoldable pub maybe_respawn : Pool → ℕ → ℕ → Pool
unfolding give_up backoff_ms
maybe_respawn p a now =
    let w = p.heap a in
    if not p.started || not (is_live p a) || w.respawn_timer
    then p
    else if ltb (now - w.last_restart_at) restart_window_ms
    then (if leb restart_budget w.restarts then give_up p a else arm_respawn p a w now)
    else arm_respawn p a (record w { restarts = 0 }) now

-- The callback of the respawn timer; a cleared timer does not fire.
unfoldable pub respawn_fires : Pool → ℕ → Pool
unfolding spawn_worker
respawn_fires p a =
    let q = put p a (record (p.heap a) { respawn_timer = false }) in
    if not (p.heap a).respawn_timer
    then p
    else if not p.started || not (is_live p a)
    then q
    else spawn_worker q (p.heap a).id
