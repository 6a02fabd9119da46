-- ===== src/Supervisor/State.antt =====
-- apps/shell/src/main/harness-supervisor.ts: the constants, the configuration and the state.
--
-- A child is known by the number of its launch, which is its address. Three fields stand for what
-- the code keeps in closures: the generation that a child's callbacks close over, that of a respawn
-- timer, and the calls that wait in `withLock`. `spawnPromise` has no field: `spawnOnce` has no
-- `await`, so the promise has settled before another call can look at it.
use deepseek_harness.Common.{
  Text, ℕ, ◌-◌, ◌*◌, ◌^◌, min, String, Bool, true, false, Option, none, some, List, [], ◌∷◌,
}
use deepseek_harness.Common.JsMap.{JsMap}
use deepseek_harness.Pool.State.{ChildProcess, running}

abbrev pub ready_timeout_ms : ℕ
ready_timeout_ms = 90000

abbrev pub restart_window_ms : ℕ
restart_window_ms = 60000

abbrev pub backoff_max_ms : ℕ
backoff_max_ms = 30000

abbrev pub tail_kept : ℕ
tail_kept = 4000

pub data HarnessStatus : Type 0 where
  stopped starting ready unhealthy : HarnessStatus

abbrev pub is_starting : HarnessStatus → Bool
is_starting starting = true
is_starting _ = false

abbrev pub is_ready : HarnessStatus → Bool
is_ready ready = true
is_ready _ = false

pub record BrowserBridge : Type 0 where
  pub endpoint : String
  pub token : String

pub record HarnessSupervisorConfig : Type 0 where
  pub home_dir : String
  pub lb_url : Option String
  pub extra_env : JsMap String String
  pub browser_bridge : Option BrowserBridge
  pub node_env : JsMap String String
  pub backoff_base_ms : Option ℕ
  pub restart_budget : Option ℕ

abbrev pub or_default : Option ℕ → ℕ → ℕ
or_default none d = d
or_default (some n) d = n

abbrev pub budget : HarnessSupervisorConfig → ℕ
budget cfg = or_default cfg.restart_budget 5

-- The delay before the respawn of that number.
abbrev pub delay_ms : HarnessSupervisorConfig → ℕ → ℕ
delay_ms cfg restarts =
    min (or_default cfg.backoff_base_ms 1000 * 2 ^ (restarts - 1)) backoff_max_ms

pub record HarnessInstance : Type 0 where
  pub url : Text
  pub pid : Option ℕ  -- `none` is -1
  pub started_at : ℕ
  pub restarts : ℕ
  pub last_output_tail : Option Text

pub record Child : Type 0 where
  pub pid : Option ℕ
  pub process : ChildProcess
  pub generation : ℕ

pub data Operation : Type 0 where
  start stop restart : Operation

-- The call that has the lock and waits in `waitForExit`.
pub data Holder : Type 0 where
  nobody stopping_waits restarting_waits : Holder

-- What the supervisor does to the world, the newest first.
pub data Effect : Type 0 where
  launch : ℕ → JsMap String String → Effect
  kill_tree : Option ℕ → Effect
  became_ready : HarnessInstance → Effect
  became_stuck : HarnessInstance → Effect
  parse_mcp_status : Text → Effect
  respawn_in : ℕ → Effect

pub record Supervisor : Type 0 where
  pub cfg : HarnessSupervisorConfig
  pub proc : Option ℕ
  pub status : HarnessStatus
  pub url : Option Text
  pub restarts : ℕ
  pub last_restart_at : ℕ
  pub started_at : ℕ
  pub stopping : Bool
  pub restart_timer : Option ℕ
  pub generation : ℕ
  pub out_buffer : Text
  pub mcp_line_buffer : Text
  pub children : ℕ → Child
  pub next : ℕ  -- the number of launches so far
  pub timers : JsMap ℕ ℕ
  pub next_timer : ℕ
  pub holder : Holder
  pub waiting : List Operation
  pub effects : List Effect

abbrev blank : Child
blank = record { pid = none; process = running; generation = 0 }

abbrev pub new_supervisor : HarnessSupervisorConfig → Supervisor
new_supervisor cfg = record {
  cfg = cfg;
  proc = none;
  status = stopped;
  url = none;
  restarts = 0;
  last_restart_at = 0;
  started_at = 0;
  stopping = false;
  restart_timer = none;
  generation = 0;
  out_buffer = [];
  mcp_line_buffer = [];
  children = λ a. blank;
  next = 0;
  timers = [];
  next_timer = 0;
  holder = nobody;
  waiting = [];
  effects = [];
}

abbrev pub perform : Supervisor → Effect → Supervisor
perform s x = record s { effects = x ∷ s.effects }
