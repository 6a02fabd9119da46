-- ===== src/Pool/Control.antt =====
-- packages/opencode-adapter/src/pool.ts: `start`, `stop`, `resize`, `restartWorker`, the exit
-- handler, `healthTick` and `setSocks5`, cut at each `await`. What the pool waits for (the exit of
-- a child or the end of its grace, the pending spawns, an answer of `/health`) ends at a time that
-- the environment chooses.
use deepseek_harness.Common.{
  ℕ, zero, suc, ◌+◌, ◌-◌, Bool, true, false, not, ◌&&◌, ◌||◌, Option, none, some, List, [], ◌∷◌,
  ◌++◌, filter, contains, ltb, leb, ◌==◌, if◌then◌else◌, nat_eq,
}
use deepseek_harness.Common.JsMap.{get, delete, values}
use deepseek_harness.Pool.State.{
  ready, unhealthy, stopped, is_ready, is_unhealthy, ManagedWorker, ChildProcess, exit_code_null,
  kill_tree, kill_child, push_socks5, Socks5Config, Pool, JsNumber, normalize_pool_size,
  unhealthy_threshold, to_public, put, perform, emit_change, next_generation,
}
use deepseek_harness.Pool.Spawn.{spawn_worker, is_live, maybe_respawn}

-- `for (let i = from; i < from + count; i++) spawnWorker(`w${i}`)`.
unfoldable pub spawn_range : Pool → ℕ → ℕ → Pool
spawn_range p from zero = p
spawn_range p from (suc count) = spawn_range (spawn_worker p from) (from + 1) count

unfoldable pub start : Pool → Pool
start p = if p.started then p else spawn_range (record p { started = true }) 0 p.size

-- `start` after `await Promise.allSettled(spawns)`.
unfoldable pub start_settled : Pool → Pool
start_settled p = record p { health_timer = true }

-- The body of the loops of `stop` and `resize` and the head of `killAndRespawn`: the handle is
-- stopped, its callbacks are out of date and its timer is cleared.
unfoldable pub revoke : Pool → ℕ → Pool
unfolding emit_change to_public next_generation
revoke p a =
    let w = p.heap a in
    let (generation, q) = next_generation p w.id in
    emit_change
      (put q a (record w {
        stopped = true;
        generation = generation;
        respawn_timer = false;
        status = stopped;
      }))
      a

abbrev pub has_pid : Option ℕ → Bool
has_pid none = false
has_pid (some n) = ltb 0 n

-- `if (w.pid > 0) killTree(w.pid)`.
abbrev pub kill_worker : Pool → ℕ → Pool
kill_worker p a = if has_pid (p.heap a).pid then perform p (kill_tree (p.heap a).pid) else p

unfoldable pub revoke_all : Pool → List ℕ → Pool
revoke_all p [] = p
revoke_all p (a ∷ addrs) = revoke_all (revoke p a) addrs

unfoldable pub kill_all : Pool → List ℕ → Pool
kill_all p [] = p
kill_all p (a ∷ addrs) = kill_all (kill_worker p a) addrs

unfoldable pub stop : Pool → Pool
stop p =
    let addrs = values p.worker_map in
    let q =
      kill_all (revoke_all (record p { started = false; health_timer = false }) addrs) addrs in
    record q { stopping = q.stopping + 1 }

-- `stop` after its last `await`.
unfoldable pub stop_finishes : Pool → Pool
stop_finishes p = elim p.stopping [ zero ↦ p | suc n ↦ record p { stopping = n; worker_map = [] } ]

-- The removals of `resize`: revoked and killed one after the other.
unfoldable pub remove_all : Pool → List ℕ → Pool
remove_all p [] = p
remove_all p (a ∷ addrs) = remove_all (kill_worker (revoke p a) a) addrs

abbrev pub removals : Pool → ℕ → List ℕ
removals p next = filter (λ a. leb next (p.heap a).id) (values p.worker_map)

unfoldable pub resize : Pool → JsNumber → Pool
resize p size =
    let next = normalize_pool_size size in
    let previous = p.size in
    let q = record p { size = next } in
    if not p.started || next == previous
    then q
    else if ltb previous next
    then spawn_range q previous (next - previous)
    else let r = remove_all q (removals q next) in
      record r { shrinking = r.shrinking ++ removals q next ∷ [] }

abbrev pub still_runs : Option ChildProcess → Bool
still_runs none = false
still_runs (some c) = exit_code_null c

-- The body of the last loop of `resize`: the id is deleted, whatever handle stands there now.
unfoldable pub drop : Pool → ℕ → Pool
drop p a =
    let w = p.heap a in
    let q = if still_runs w.proc then perform p (kill_child a) else p in
    record q { worker_map = delete w.id q.worker_map }

unfoldable pub drop_all : Pool → List ℕ → Pool
drop_all p [] = p
drop_all p (a ∷ addrs) = drop_all (drop p a) addrs

-- One of the calls that wait, which may end in any order, and the others.
abbrev pub take_call : ℕ → List (List ℕ) → Option (List ℕ × List (List ℕ))
take_call n [] = none
take_call zero (call ∷ calls) = some (call, calls)
take_call (suc n) (call ∷ calls) = elim (take_call n calls) [
  | none ↦ none
  | some (c, rest) ↦ some (c, call ∷ rest)
]

-- `resize` after its last `await`, for one of the calls.
abbrev pub resize_ended : Pool → Option (List ℕ × List (List ℕ)) → Pool
unfolding drop_all
resize_ended p none = p
resize_ended p (some (addrs, rest)) = drop_all (record p { shrinking = rest }) addrs

unfoldable pub resize_finishes : Pool → ℕ → Pool
unfolding drop_all
resize_finishes p n = resize_ended p (take_call n p.shrinking)

-- `killAndRespawn` up to its `await`: `killTree` is called whatever the pid is.
unfoldable pub kill_and_respawn : Pool → ℕ → Pool
unfolding revoke
kill_and_respawn p a =
    let q = revoke p a in
    let r = perform q (kill_tree (q.heap a).pid) in record r { restarting = r.restarting ++ a ∷ [] }

-- `none` is the error `no worker ${id}`.
unfoldable pub restart_worker : Pool → ℕ → Option Pool
unfolding kill_and_respawn
restart_worker p id = elim (get id p.worker_map) [
  | none ↦ none
  | some a ↦ some (kill_and_respawn p a)
]

abbrev pub remove_first : List ℕ → ℕ → List ℕ
remove_first [] a = []
remove_first (b ∷ bs) a = if b == a then bs else b ∷ remove_first bs a

-- `killAndRespawn` after its `await`.
unfoldable pub restart_resumes : Pool → ℕ → Pool
unfolding spawn_worker
restart_resumes p a =
    let q = put p a (record (p.heap a) { stopped = false }) in
    let r = record q { restarting = remove_first p.restarting a } in
    if not (contains p.restarting a)
    then p
    else if p.started
    then spawn_worker r (p.heap a).id
    else r

-- The exit of the child of a handle, and the handler of `exit`.
abbrev pub note_exit : Pool → ℕ → Pool
unfolding emit_change to_public
note_exit p a = emit_change (put p a (record (p.heap a) { status = unhealthy })) a

unfoldable pub child_exits : Pool → ℕ → ChildProcess → ℕ → Pool
unfolding emit_change to_public
child_exits p a how now =
    let q = put p a (record (p.heap a) { proc = some how }) in
    if not (still_runs (p.heap a).proc)
    then p
    else if not (is_live p a)
    then q
    else maybe_respawn (note_exit q a) a now

-- The loop of `healthTick` skips a worker that is neither ready nor unhealthy.
abbrev pub is_probed : Pool → ℕ → Bool
is_probed p a = is_ready (p.heap a).status || is_unhealthy (p.heap a).status

abbrev pub skip_unprobed : Pool → List ℕ → List ℕ
skip_unprobed p [] = []
skip_unprobed p (a ∷ addrs) = if is_probed p a then a ∷ addrs else skip_unprobed p addrs

unfoldable pub health_tick : Pool → Pool
health_tick p =
    if not p.started || not p.health_timer
    then p
    else record p { ticks = p.ticks ++ skip_unprobed p (values p.worker_map) ∷ [] }

-- `w.status === 'unhealthy' && w.proc?.exitCode === null`.
abbrev pub can_recover : ManagedWorker → Bool
can_recover w = is_unhealthy w.status && still_runs w.proc

unfoldable pub note_health : Pool → ℕ → Bool → Pool
unfolding emit_change to_public
note_health p a ok =
    let w = p.heap a in
    let good = record w { health_fails = 0 } in
    let bad = record w { health_fails = w.health_fails + 1 } in
    if ok
    then (if can_recover w
        then emit_change (put p a (record good { status = ready })) a
        else put p a good)
    else if leb unhealthy_threshold bad.health_fails && is_ready w.status
    then perform (emit_change (put p a (record bad { status = unhealthy })) a) (kill_tree w.pid)
    else put p a bad

-- The answer of `/health` for one of the ticks that wait; the order in which they stand has no meaning.
abbrev pub answered : Pool → Bool → Option (List ℕ × List (List ℕ)) → Pool
unfolding note_health
answered p ok none = p
answered p ok (some ([], rest)) = record p { ticks = rest }
answered p ok (some (a ∷ addrs, rest)) =
    let q = note_health p a ok in record q { ticks = skip_unprobed q addrs ∷ rest }

unfoldable pub tick_answered : Pool → ℕ → Bool → Pool
unfolding note_health
tick_answered p n ok = answered p ok (take_call n p.ticks)

-- `pushSocks5ToWorker` posts the stored configuration; a failure of the post is only logged.
abbrev pub push_socks5_to_worker : Pool → ℕ → Pool
push_socks5_to_worker p a =
    if is_ready (p.heap a).status && ltb 0 (p.heap a).port
    then perform p (push_socks5 (p.heap a).port p.socks5)
    else p

unfoldable pub push_all : Pool → List ℕ → Pool
push_all p [] = p
push_all p (a ∷ addrs) = push_all (push_socks5_to_worker p a) addrs

unfoldable pub set_socks5 : Pool → Option Socks5Config → Pool
set_socks5 p config = push_all (record p { socks5 = config }) (values p.worker_map)
