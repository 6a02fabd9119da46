-- ===== src/Balancer/RateLimit.antt =====
-- packages/opencode-adapter/src/lb.ts: `noteWorkerOutcome` and `evaluatePoolRateLimit`.
use deepseek_harness.Common.{
  ℕ, ◌+◌, ◌-◌, Bool, true, false, not, ◌||◌, Option, none, some, List, length, filter, every, leb,
  ◌==◌, if◌then◌else◌, nat_eq,
}
use deepseek_harness.Common.JsMap.{JsMap, get, set, delete}
use deepseek_harness.Pool.State.{WorkerHandle, is_ready}
use deepseek_harness.Balancer.State.{Lb, Options, rate_limit_window_ms}

abbrev pub is_fresh : Option ℕ → ℕ → Bool
is_fresh none now = false
is_fresh (some at) now = leb (now - at) rate_limit_window_ms

abbrev pub ready_workers : List WorkerHandle → List WorkerHandle
ready_workers workers = filter (λ w. is_ready w.status) workers

abbrev pub all_freshly_rated : JsMap ℕ ℕ → List WorkerHandle → ℕ → Bool
all_freshly_rated marks ready now = every (λ w. is_fresh (get w.id marks) now) ready

unfoldable pub evaluate_pool_rate_limit : Options → Lb → List WorkerHandle → ℕ → Lb
evaluate_pool_rate_limit opts lb workers now =
    let ready = ready_workers workers in
    if lb.all_rate_limited_latched || not opts.has_alarm
    then lb
    else if length ready == 0
    then lb
    else if all_freshly_rated lb.last_rate_limit_at ready now
    then record lb { all_rate_limited_latched = true; alarms = lb.alarms + 1 }
    else lb

abbrev pub mark_outcome : Lb → ℕ → Bool → ℕ → Lb
mark_outcome lb id true now = record lb { last_rate_limit_at = set id now lb.last_rate_limit_at }
mark_outcome lb id false now = record lb {
  last_rate_limit_at = delete id lb.last_rate_limit_at;
  all_rate_limited_latched = false;
}

unfoldable pub note_worker_outcome : Options → Lb → List WorkerHandle → ℕ → Bool → ℕ → Lb
unfolding evaluate_pool_rate_limit
note_worker_outcome opts lb workers id rate_limited now =
    evaluate_pool_rate_limit opts (mark_outcome lb id rate_limited now) workers now
