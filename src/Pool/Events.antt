-- ===== src/Pool/Events.antt =====
-- packages/opencode-adapter/src/pool.ts: the pool as a machine. An event is a call of a method, or
-- the end of a wait, at a time.
use deepseek_harness.Common.{ℕ, Bool, Option, none, some, List, [], ◌∷◌, nat_eq}
use deepseek_harness.Pool.State.{ChildProcess, Socks5Config, JsNumber, Pool}
use deepseek_harness.Pool.Select.{pick_healthy, park_worker}
use deepseek_harness.Pool.Spawn.{
  Launch, port_reserved, port_failed, probe_settled, sleep_settled, respawn_fires,
}
use deepseek_harness.Pool.Control.{
  start, start_settled, stop, stop_finishes, resize, resize_finishes, restart_worker,
  restart_resumes, child_exits, health_tick, tick_answered, set_socks5,
}

pub data Event : Type 0 where
  starts started stops stop_ends : Event
  resizes : JsNumber → Event
  resize_ends : ℕ → Event
  restarts resumes : ℕ → Event
  picks : List ℕ → Event
  parks : ℕ → ℕ → Event
  port_comes : ℕ → ℕ → Launch → Event
  port_fails : ℕ → Event
  probe_answers : ℕ → Bool → Event
  sleep_ends : ℕ → Event
  exits : ℕ → ChildProcess → Event
  timer_fires : ℕ → Event
  ticks : Event
  tick_answers : ℕ → Bool → Event
  sets_socks5 : Option Socks5Config → Event

abbrev pub or_same : Pool → Option Pool → Pool
or_same p none = p
or_same p (some q) = q

unfoldable pub step : Pool → ℕ → Event → Pool
unfolding pick_healthy
step p now starts = start p
step p now started = start_settled p
step p now stops = stop p
step p now stop_ends = stop_finishes p
step p now (resizes size) = resize p size
step p now (resize_ends n) = resize_finishes p n
step p now (restarts id) = or_same p (restart_worker p id)
step p now (resumes a) = restart_resumes p a
step p now (picks skip) = (pick_healthy p skip now).1
step p now (parks id ms) = park_worker p id ms now
step p now (port_comes id port launched) = port_reserved p id port launched now
step p now (port_fails id) = port_failed p id
step p now (probe_answers id ok) = probe_settled p id ok
step p now (sleep_ends id) = sleep_settled p id now
step p now (exits a how) = child_exits p a how now
step p now (timer_fires a) = respawn_fires p a
step p now ticks = health_tick p
step p now (tick_answers n ok) = tick_answered p n ok
step p now (sets_socks5 config) = set_socks5 p config

unfoldable pub run : Pool → List (ℕ × Event) → Pool
unfolding step
run p [] = p
run p ((now, e) ∷ es) = run (step p now e) es
