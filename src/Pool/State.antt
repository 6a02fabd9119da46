-- ===== src/Pool/State.antt =====
-- packages/opencode-adapter/src/types.ts, and the state and small helpers of pool.ts.
--
-- A worker id `w${i}` is modelled by its number i: ids are made from numbers only, and `resize`
-- reads the number back. Times are natural numbers of milliseconds. A worker handle is a shared
-- mutable object, so handles live in a heap and `workerMap` holds their addresses.
use deepseek_harness.Common.{
  ℕ, ◌+◌, ◌-◌, ◌*◌, ◌^◌, min, max, String, Bool, true, false, Option, none, some, List, ◌∷◌, ◌==◌,
  if◌then◌else◌, nat_eq, [],
}
use deepseek_harness.Common.JsMap.{JsMap, get, set}

pub data WorkerStatus : Type 0 where
  starting ready unhealthy stopped : WorkerStatus

abbrev pub is_starting : WorkerStatus → Bool
is_starting starting = true
is_starting _ = false

abbrev pub is_ready : WorkerStatus → Bool
is_ready ready = true
is_ready _ = false

abbrev pub is_unhealthy : WorkerStatus → Bool
is_unhealthy unhealthy = true
is_unhealthy _ = false

abbrev pub is_stopped : WorkerStatus → Bool
is_stopped stopped = true
is_stopped _ = false

pub record WorkerHandle : Type 0 where
  pub id : ℕ
  pub pid : Option ℕ  -- `none` is -1
  pub port : ℕ
  pub status : WorkerStatus
  pub started_at : ℕ
  pub restarts : ℕ

pub record Socks5Config : Type 0 where
  pub socks5_proxies : List (String × String)
  pub active_socks5 : String
  pub socks5_paid_direct : Bool

abbrev pub health_timeout_ms : ℕ
health_timeout_ms = 15000

abbrev pub unhealthy_threshold : ℕ
unhealthy_threshold = 3

abbrev pub restart_budget : ℕ
restart_budget = 5

abbrev pub restart_window_ms : ℕ
restart_window_ms = 60000

abbrev pub backoff_base_ms : ℕ
backoff_base_ms = 1000

abbrev pub backoff_max_ms : ℕ
backoff_max_ms = 30000

abbrev pub pool_min_size : ℕ
pool_min_size = 1

abbrev pub pool_max_size : ℕ
pool_max_size = 16

abbrev pub default_pool_size : ℕ
default_pool_size = 6

-- A JavaScript number: its sign, its whole part and what is behind the point.
pub data JsNumber : Type 0 where
  not_finite : JsNumber
  finite : Bool → ℕ → ℕ → JsNumber

-- `Math.trunc` of a negative number is at most 0, and so below the minimum.
unfoldable pub normalize_pool_size : JsNumber → ℕ
normalize_pool_size not_finite = pool_min_size
normalize_pool_size (finite true whole fraction) = pool_min_size
normalize_pool_size (finite false whole fraction) = max pool_min_size (min pool_max_size whole)

unfoldable pub backoff_ms : ℕ → ℕ
backoff_ms attempt = min (backoff_base_ms * 2 ^ (attempt - 1)) backoff_max_ms

-- A child: running, with an `exitCode`, or with a `signalCode` and no `exitCode`.
pub data ChildProcess : Type 0 where
  running exited signaled : ChildProcess

-- `proc.exitCode === null`.
abbrev pub exit_code_null : ChildProcess → Bool
exit_code_null exited = false
exit_code_null _ = true

pub record ManagedWorker : Type 0 where
  pub id : ℕ
  pub pid : Option ℕ
  pub port : ℕ
  pub status : WorkerStatus
  pub started_at : ℕ
  pub restarts : ℕ
  pub proc : Option ChildProcess
  pub generation : ℕ
  pub health_fails : ℕ
  pub last_restart_at : ℕ
  pub stopped : Bool
  pub respawn_timer : Bool
  pub parked_until : ℕ

unfoldable pub to_public : ManagedWorker → WorkerHandle
to_public w = record {
  id = w.id;
  pid = w.pid;
  port = w.port;
  status = w.status;
  started_at = w.started_at;
  restarts = w.restarts;
}

-- A spawn that waits: for its port, for an answer of `/health`, or for the end of a sleep.
pub data Phase : Type 0 where
  reserving : ℕ → Option ℕ → Phase
  probing : ℕ → ℕ → Phase
  sleeping : ℕ → ℕ → Phase

-- What the pool does to the world, the newest first.
pub data Effect : Type 0 where
  changed : WorkerHandle → Effect
  stuck : WorkerHandle → Effect
  kill_tree : Option ℕ → Effect
  kill_child : ℕ → Effect
  write_socks5 : ℕ → Socks5Config → Effect
  push_socks5 : ℕ → Option Socks5Config → Effect
  launch : ℕ → ℕ → Effect
  respawn_in : ℕ → ℕ → Effect

pub record Pool : Type 0 where
  pub size : ℕ
  pub socks5 : Option Socks5Config
  pub heap : ℕ → ManagedWorker
  pub next : ℕ  -- the first free address
  pub captured : ℕ → ℕ  -- the `generation` that the callbacks of a handle close over
  pub worker_map : JsMap ℕ ℕ
  pub rr_index : ℕ
  pub started : Bool
  pub health_timer : Bool
  pub spawning : JsMap ℕ Phase
  pub generations : JsMap ℕ ℕ
  pub effects : List Effect
  -- The calls that wait: `stop`, `killAndRespawn` of a handle, `resize` with its removals, and
  -- `healthTick` with the rest of its snapshot, whose head is being probed.
  pub stopping : ℕ
  pub restarting : List ℕ
  pub shrinking : List (List ℕ)
  pub ticks : List (List ℕ)

abbrev blank : ManagedWorker
blank = record {
  id = 0;
  pid = none;
  port = 0;
  status = stopped;
  started_at = 0;
  restarts = 0;
  proc = none;
  generation = 0;
  health_fails = 0;
  last_restart_at = 0;
  stopped = true;
  respawn_timer = false;
  parked_until = 0;
}

abbrev pub size_or_default : Option JsNumber → ℕ
unfolding normalize_pool_size
size_or_default none = normalize_pool_size (finite false default_pool_size 0)
size_or_default (some value) = normalize_pool_size value

-- The constructor; no address is allocated yet.
unfoldable pub new_pool : Option JsNumber → Option Socks5Config → Pool
unfolding normalize_pool_size
new_pool size socks5 = record {
  size = size_or_default size;
  socks5 = socks5;
  heap = λ a. blank;
  next = 0;
  captured = λ a. 0;
  worker_map = [];
  rr_index = 0;
  started = false;
  health_timer = false;
  spawning = [];
  generations = [];
  effects = [];
  stopping = 0;
  restarting = [];
  shrinking = [];
  ticks = [];
}

abbrev pub update {ℓ} : {A : Type ℓ} → (ℕ → A) → ℕ → A → ℕ → A
update f a v b = if a == b then v else f b

-- A write to a handle.
abbrev pub put : Pool → ℕ → ManagedWorker → Pool
put p a w = record p { heap = update p.heap a w }

abbrev pub perform : Pool → Effect → Pool
perform p x = record p { effects = x ∷ p.effects }

unfoldable pub emit_change : Pool → ℕ → Pool
emit_change p a = perform p (changed (to_public (p.heap a)))

abbrev pub or_zero : Option ℕ → ℕ
or_zero none = 0
or_zero (some n) = n

-- `nextGeneration` returns the number that it stores.
unfoldable pub next_generation : Pool → ℕ → ℕ × Pool
next_generation p id =
    let next = or_zero (get id p.generations) + 1 in
    (next, record p { generations = set id next p.generations })

abbrev pub is_current : Option ℕ → ℕ → Bool
is_current none g = false
is_current (some h) g = h == g
