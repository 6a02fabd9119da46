-- ===== src/Balancer/State.antt =====
-- packages/opencode-adapter/src/lb.ts: the constants, the options and the state of a balancer.
use deepseek_harness.Common.{ℕ, ◌*◌, String, Bool, Option, [], false}
use deepseek_harness.Common.JsMap.{JsMap}

abbrev pub sticky_ttl_ms : ℕ
sticky_ttl_ms = 30 * 60 * 1000

abbrev pub max_attempts : ℕ
max_attempts = 3

abbrev pub park_ms_for_5xx : ℕ
park_ms_for_5xx = 8000

abbrev pub park_ms_for_429 : ℕ
park_ms_for_429 = 0

abbrev pub retry_body_cap_bytes : ℕ
retry_body_cap_bytes = 10 * 1024 * 1024

abbrev pub rate_limit_window_ms : ℕ
rate_limit_window_ms = 30000

pub record StickyEntry : Type 0 where
  pub worker_id : ℕ
  pub last_seen : ℕ

-- `has_alarm`: `onAllWorkersRateLimited` was given.
pub record Options : Type 0 where
  pub auth_header : Option String
  pub has_alarm : Bool

-- `alarms` counts the calls of `onAllWorkersRateLimited`; an exception of it is only logged.
pub record Lb : Type 0 where
  pub sticky : JsMap String StickyEntry
  pub last_rate_limit_at : JsMap ℕ ℕ
  pub all_rate_limited_latched : Bool
  pub alarms : ℕ

abbrev pub new_lb : Lb
new_lb = record {
  sticky = [];
  last_rate_limit_at = [];
  all_rate_limited_latched = false;
  alarms = 0;
}
