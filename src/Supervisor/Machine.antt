-- ===== src/Supervisor/Machine.antt =====
-- apps/shell/src/main/harness-supervisor.ts: the supervisor as a machine. An event is a call of a
-- method, a callback, or the end of a wait, at a time.
use deepseek_harness.Common.{Text, ℕ, List, [], ◌∷◌, String}
use deepseek_harness.Common.JsMap.{JsMap}
use deepseek_harness.Pool.State.{ChildProcess}
use deepseek_harness.Supervisor.State.{Supervisor, Operation}
use deepseek_harness.Supervisor.Control.{
  World, respawn_fires, child_exits, child_errs, readiness_timeout,
}
use deepseek_harness.Supervisor.Calls.{record_output, call, wait_ends}

pub data Event : Type 0 where
  calls : Operation → Event
  wait_is_over : Event
  outputs : ℕ → Text → Event
  exits : ℕ → ChildProcess → Event
  errs : ℕ → Event
  deadline : ℕ → Event
  fires : ℕ → Event
  updates_extra_env : JsMap String String → Event

abbrev pub update_extra_env : Supervisor → JsMap String String → Supervisor
update_extra_env s env = record s { cfg = record s.cfg { extra_env = env } }

unfoldable pub step : World → Supervisor → ℕ → Event → Supervisor
unfolding respawn_fires child_exits child_errs readiness_timeout record_output call wait_ends
step w s now (calls op) = call w s now op
step w s now wait_is_over = wait_ends w s now
step w s now (outputs a text) = record_output s text
step w s now (exits a how) = child_exits s a how now
step w s now (errs a) = child_errs s a now
step w s now (deadline a) = readiness_timeout s a
step w s now (fires timer) = respawn_fires w s timer now
step w s now (updates_extra_env env) = update_extra_env s env

unfoldable pub run : World → Supervisor → List (ℕ × Event) → Supervisor
unfolding step
run w s [] = s
run w s ((now, e) ∷ es) = run w (step w s now e) es
