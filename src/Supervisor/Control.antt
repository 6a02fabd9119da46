-- ===== src/Supervisor/Control.antt =====
-- apps/shell/src/main/harness-supervisor.ts: the callbacks of a child and of a timer, and the calls
-- `start`, `stop` and `restart`, which `withLock` runs one after the other.
use deepseek_harness.Common.{
  ℕ, ◌+◌, ◌-◌, Bool, true, false, not, ◌&&◌, ◌||◌, Option, none, some, [], ◌∷◌, leb, ◌==◌, nat_eq,
  if◌then◌else◌, String,
}
use deepseek_harness.Common.JsMap.{JsMap, get, set, delete}
use deepseek_harness.Pool.State.{ChildProcess, running, exit_code_null, update}
use deepseek_harness.Supervisor.Output.{slice_last}
use deepseek_harness.Supervisor.State.{
  Supervisor, launch, kill_tree, became_stuck, respawn_in, stopped, starting, unhealthy,
  is_starting, is_ready, perform, budget, delay_ms, restart_window_ms, tail_kept,
}
use deepseek_harness.Supervisor.Env.{child_env}

-- What a launch meets: `mkdirSync` throws, `launchHidden` throws, or there is a child, perhaps with
-- no pid.
pub data Launch : Type 0 where
  home_fails spawn_fails : Launch
  spawns : Option ℕ → Launch

-- What the world answers: the environment of the shell, and the outcome of each launch.
pub record World : Type 0 where
  pub process_env : JsMap String String
  pub launched : ℕ → Launch

-- `this.proc && this.proc.exitCode === null`.
abbrev pub is_alive : Supervisor → Option ℕ → Bool
is_alive s none = false
is_alive s (some a) = exit_code_null (s.children a).process

abbrev pub is_proc : Option ℕ → ℕ → Bool
is_proc none a = false
is_proc (some b) a = b == a

abbrev pub has_proc : Option ℕ → Bool
has_proc none = false
has_proc (some a) = true

-- `generation !== this.generation || this.proc !== proc`, in a callback of a child.
abbrev pub is_stale : Supervisor → ℕ → Bool
is_stale s a = not ((s.children a).generation == s.generation) || not (is_proc s.proc a)

abbrev pub pid_of : Supervisor → Option ℕ → Option ℕ
pid_of s none = none
pid_of s (some a) = (s.children a).pid

-- From `mkdirSync` to the end of `spawnOnce`.
abbrev pub launch_child : World → Supervisor → ℕ → Launch → Supervisor
launch_child w s now home_fails = record s { next = s.next + 1 }
launch_child w s now spawn_fails = record s {
  next = s.next + 1;
  started_at = now;
  status = unhealthy;
}
launch_child w s now (spawns pid) = record s {
  next = s.next + 1;
  started_at = now;
  proc = some s.next;
  children =
      update s.children s.next (record { pid = pid; process = running; generation = s.generation });
  effects = launch s.next (child_env w.process_env s.cfg) ∷ s.effects;
}

unfoldable pub spawn_once : World → Supervisor → ℕ → Supervisor
unfolding child_env
spawn_once w s now =
    if s.stopping || is_alive s s.proc
    then s
    else launch_child w
        (record s {
          generation = s.generation + 1;
          status = starting;
          url = none;
          out_buffer = [];
          mcp_line_buffer = [];
        })
        now (w.launched s.next)

unfoldable pub spawn : World → Supervisor → ℕ → Supervisor
unfolding spawn_once
spawn w s now = if s.stopping then s else if is_alive s s.proc then s else spawn_once w s now

-- The output tail goes with `onStuck`.
abbrev pub give_up : Supervisor → Supervisor
give_up s = perform s (
    became_stuck (record {
      url = elim s.url [ none ↦ [] | some url ↦ url ];
      pid = none;
      started_at = s.started_at;
      restarts = s.restarts;
      last_output_tail = some (slice_last tail_kept s.out_buffer);
    }))

abbrev pub arm_respawn : Supervisor → ℕ → Supervisor
arm_respawn s generation = record s {
  restarts = s.restarts + 1;
  restart_timer = some s.next_timer;
  timers = set s.next_timer generation s.timers;
  next_timer = s.next_timer + 1;
  effects = respawn_in (delay_ms s.cfg (s.restarts + 1)) ∷ s.effects;
}

unfoldable pub maybe_respawn : Supervisor → ℕ → ℕ → Supervisor
maybe_respawn s generation now =
    let restarts = if leb restart_window_ms (now - s.last_restart_at) then 0 else s.restarts in
    let t = record s { restarts = restarts; last_restart_at = now } in
    if s.stopping || not (generation == s.generation) || has_proc s.proc
    then s
    else if leb (budget s.cfg) restarts
    then give_up t
    else arm_respawn t generation

-- The timer of a respawn; it is gone if it was cleared.
abbrev pub respawn_due : World → Supervisor → ℕ → ℕ → Option ℕ → Supervisor
unfolding spawn
respawn_due w s timer now none = s
respawn_due w s timer now (some generation) =
    let t = record s { timers = delete timer s.timers; restart_timer = none } in
    if s.stopping || not (generation == s.generation) || has_proc s.proc then t else spawn w t now

unfoldable pub respawn_fires : World → Supervisor → ℕ → ℕ → Supervisor
unfolding spawn
respawn_fires w s timer now = respawn_due w s timer now (get timer s.timers)

-- A child ends; then its `exit` callback.
abbrev pub note_exit : Supervisor → ℕ → ChildProcess → Supervisor
note_exit s a how = record s {
  children = update s.children a (record (s.children a) { process = how });
}

unfoldable pub child_exits : Supervisor → ℕ → ChildProcess → ℕ → Supervisor
unfolding maybe_respawn
child_exits s a how now =
    let t = note_exit s a how in
    if s.stopping || is_stale s a
    then t
    else maybe_respawn
        (record t {
          proc = none;
          status = if is_ready s.status then unhealthy else stopped;
          url = none;
        })
        (s.children a).generation now

-- The `error` callback of a child that could not be started.
unfoldable pub child_errs : Supervisor → ℕ → ℕ → Supervisor
unfolding maybe_respawn
child_errs s a now =
    if s.stopping || is_stale s a
    then s
    else maybe_respawn (record s { proc = none; url = none; status = unhealthy })
        (s.children a).generation now

-- The readiness deadline of a child.
unfoldable pub readiness_timeout : Supervisor → ℕ → Supervisor
readiness_timeout s a =
    if not (is_stale s a) && is_starting s.status && exit_code_null (s.children a).process
    then perform s (kill_tree (s.children a).pid)
    else s
