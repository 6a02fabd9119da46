-- ===== src/Supervisor/Invariant.antt =====
-- apps/shell/src/main/harness-supervisor.ts: what holds of the supervisor after any events.
use deepseek_harness.Common.{
  Text, ℕ, ◌≤◌, ◌≡◌, Bool, true, false, Option, none, some, List, [], ◌∷◌, ◌++◌, length, arith,
  Bool-cases, Option-cases, inl, inr, nat_eq, if◌then◌else◌,
}
use deepseek_harness.Common.JsMap.{get, delete}
use deepseek_harness.Pool.State.{ChildProcess, running}
use deepseek_harness.Supervisor.Output.{match_ready, append_output, buffer_limit, split_lines}
use deepseek_harness.Supervisor.Ready.{IsLaunchUrl, match_ready-IsLaunchUrl, append_output_bounds}
use deepseek_harness.Supervisor.State.{
  Supervisor, Operation, start, stop, restart, Holder, nobody, stopping_waits, restarting_waits,
  HarnessSupervisorConfig, is_ready, budget, new_supervisor, stopped, unhealthy,
}
use deepseek_harness.Supervisor.Control.{
  World, spawn, maybe_respawn, respawn_fires, child_exits, child_errs, readiness_timeout, note_exit,
}
use deepseek_harness.Supervisor.Calls.{
  try_grabs, parse_lines, record_output, call, wait_ends, run_waiting, run_body, take_lock, is_up,
  stop_body, restart_body, revoke, resume,
}
use deepseek_harness.Supervisor.Machine.{
  Event, calls, wait_is_over, outputs, exits, errs, deadline, fires, updates_extra_env, step, run,
}

abbrev pub has_url : Option Text → Bool
has_url none = false
has_url (some url) = true

-- The child that the supervisor holds is running and of the current generation, and the supervisor
-- is not stopping; there is a URL exactly when it is ready, and it is a launch URL; the respawns are
-- within the budget, and the output buffer within its bound.
pub record IsValid (s : Supervisor) : Type 0 where
  pub is_running : (a : ℕ) → s.proc ≡ some a → (s.children a).process ≡ running
  pub is_current : (a : ℕ) → s.proc ≡ some a → (s.children a).generation ≡ s.generation
  pub is_wanted : (a : ℕ) → s.proc ≡ some a → s.stopping ≡ false
  pub has_url : is_ready s.status ≡ has_url s.url
  pub is_launch_url : (url : Text) → s.url ≡ some url → IsLaunchUrl url
  pub in_budget : s.restarts ≤ budget s.cfg
  pub in_buffer : length s.out_buffer ≤ buffer_limit

new_supervisor-IsValid : (cfg : HarnessSupervisorConfig) → IsValid (new_supervisor cfg)
new_supervisor-IsValid cfg = ground arith

spawn-IsValid : (w : World) (s : Supervisor) (now : ℕ) → IsValid s → IsValid (spawn w s now)
unfolding spawn
spawn-IsValid w s now v = ground arith

module _ (s : Supervisor) (v : IsValid s) where
  maybe_respawn-IsValid : (g now : ℕ) → IsValid (maybe_respawn s g now)
  unfolding maybe_respawn
  maybe_respawn-IsValid g now = ground arith

  try_grabs-IsValid : IsValid (try_grabs s)
  unfolding try_grabs
  try_grabs-IsValid = elim (Option-cases (match_ready s.out_buffer)) [
    | inl missing ↦ ground arith
    | inr (url, found) ↦ let good = match_ready-IsLaunchUrl s.out_buffer url found in ground arith
  ]

  readiness_timeout-IsValid : (a : ℕ) → IsValid (readiness_timeout s a)
  unfolding readiness_timeout
  readiness_timeout-IsValid a = ground arith

  stop_body-IsValid : IsValid (stop_body s)
  unfolding stop_body
  stop_body-IsValid = ground arith

parse_lines-IsValid :
    (s : Supervisor) (lines : List Text) → IsValid s → IsValid (parse_lines s lines)
unfolding parse_lines
parse_lines-IsValid s [] v = v
parse_lines-IsValid s (line ∷ lines) v = parse_lines-IsValid _ lines (ground arith)

record_output-IsValid : (s : Supervisor) (text : Text) → IsValid s → IsValid (record_output s text)
unfolding record_output
record_output-IsValid s text v =
    let (lines, last) = split_lines (s.mcp_line_buffer ++ text) in
    let t = record s { out_buffer = append_output s.out_buffer text; mcp_line_buffer = last } in
    let bound = (append_output_bounds s.out_buffer text).0 in
    let kept : IsValid t = ground arith in
    try_grabs-IsValid (parse_lines t lines) (parse_lines-IsValid t lines kept)

child_exits-IsValid :
    (s : Supervisor) (a : ℕ) (how : ChildProcess) (now : ℕ)
    → IsValid s
    → IsValid (child_exits s a how now)
unfolding child_exits
child_exits-IsValid s a how now v =
    let t = note_exit s a how in
    let down : Supervisor = record t {
      proc = none;
      status = if is_ready s.status then unhealthy else stopped;
      url = none;
    } in
    let kept : IsValid down = ground arith in
    let after = maybe_respawn-IsValid down kept (s.children a).generation now in ground arith

child_errs-IsValid : (s : Supervisor) (a now : ℕ) → IsValid s → IsValid (child_errs s a now)
unfolding child_errs
child_errs-IsValid s a now v =
    let down : Supervisor = record s { proc = none; url = none; status = unhealthy } in
    let kept : IsValid down = ground arith in
    let after = maybe_respawn-IsValid down kept (s.children a).generation now in ground arith

respawn_fires-IsValid :
    (w : World) (s : Supervisor) (timer now : ℕ) → IsValid s → IsValid (respawn_fires w s timer now)
unfolding respawn_fires
respawn_fires-IsValid w s timer now v = elim (Option-cases (get timer s.timers)) [
  | inl cleared ↦ rw (cleared, respawn_fires) v
  | inr (g, found) ↦
      let t : Supervisor = record s { timers = delete timer s.timers; restart_timer = none } in
      let kept : IsValid t = ground arith in
      let spawned = spawn-IsValid w t now kept in rw (found, respawn_fires) (ground arith)
]

restart_body-IsValid :
    (w : World) (s : Supervisor) (now : ℕ) → IsValid s → IsValid (restart_body w s now)
unfolding restart_body
restart_body-IsValid w s now v =
    let t = revoke s in
    let u : Supervisor = record t { stopping = false; holder = nobody } in
    elim (Option-cases s.proc) [
      | inl idle ↦
          let kept : IsValid u = ground arith in
          let spawned = spawn-IsValid w u now kept in ground arith
      | inr (a, held) ↦ ground arith
    ]

run_body-IsValid :
    (w : World) (s : Supervisor) (now : ℕ) (op : Operation)
    → IsValid s
    → IsValid (run_body w s now op)
unfolding run_body
run_body-IsValid w s now start v =
    let t : Supervisor = record s { stopping = false } in
    let kept : IsValid t = ground arith in let spawned = spawn-IsValid w t now kept in ground arith
run_body-IsValid w s now stop v = stop_body-IsValid s v
run_body-IsValid w s now restart v = restart_body-IsValid w s now v

queue-IsValid :
    (s : Supervisor) (ops : List Operation) → IsValid s → IsValid (record s { waiting = ops })
queue-IsValid s ops v = ground arith

run_waiting-IsValid :
    (w : World) (s : Supervisor) (now : ℕ) (ops : List Operation)
    → IsValid s
    → IsValid (run_waiting w s now ops)
unfolding run_waiting
run_waiting-IsValid w s now [] v = queue-IsValid s [] v
run_waiting-IsValid w s now (op ∷ ops) v =
    let t = run_body w s now op in
    let kept = run_body-IsValid w s now op v in
    by_holder t (run_waiting w t now ops) kept (run_waiting-IsValid w t now ops kept) t.holder
  where
    by_holder :
        (t rest : Supervisor)
        → IsValid t
        → IsValid rest
        → (h : Holder) → IsValid (elim h [ nobody ↦ rest | _ ↦ record t { waiting = ops } ])
    by_holder t rest kept after nobody = after
    by_holder t rest kept after stopping_waits = queue-IsValid t ops kept
    by_holder t rest kept after restarting_waits = queue-IsValid t ops kept

take_lock-IsValid :
    (w : World) (s : Supervisor) (now : ℕ) (op : Operation)
    → IsValid s
    → IsValid (take_lock w s now op)
unfolding run_waiting
take_lock-IsValid w s now op v = by_holder s.holder
  where
    by_holder :
        (h : Holder)
        → IsValid (elim h [
          | nobody ↦ run_waiting w s now (op ∷ [])
          | _ ↦ record s { waiting = s.waiting ++ (op ∷ []) }
        ])
    by_holder nobody = run_waiting-IsValid w s now (op ∷ []) v
    by_holder stopping_waits = queue-IsValid s _ v
    by_holder restarting_waits = queue-IsValid s _ v

call-IsValid :
    (w : World) (s : Supervisor) (now : ℕ) (op : Operation) → IsValid s → IsValid (call w s now op)
unfolding call
call-IsValid w s now start v = elim (Bool-cases (is_up s)) [
  | inl up ↦ rw (up, call) v
  | inr idle ↦ rw (idle, call) (take_lock-IsValid w s now start v)
]
call-IsValid w s now stop v = take_lock-IsValid w s now stop v
call-IsValid w s now restart v = take_lock-IsValid w s now restart v

wait_ends-IsValid : (w : World) (s : Supervisor) (now : ℕ) → IsValid s → IsValid (wait_ends w s now)
unfolding wait_ends
wait_ends-IsValid w s now v = by_holder s.holder
  where
    by_holder : (h : Holder) → IsValid (resume w s now h)
    by_holder nobody = v
    by_holder stopping_waits = run_waiting-IsValid w _ now s.waiting (ground arith)
    by_holder restarting_waits =
        let t : Supervisor = record s { stopping = false; holder = nobody } in
        let kept : IsValid t = ground arith in
        run_waiting-IsValid w (spawn w t now) now s.waiting (spawn-IsValid w t now kept)

step-IsValid :
    (w : World) (s : Supervisor) (now : ℕ) (e : Event) → IsValid s → IsValid (step w s now e)
unfolding step
step-IsValid w s now (calls op) v = call-IsValid w s now op v
step-IsValid w s now wait_is_over v = wait_ends-IsValid w s now v
step-IsValid w s now (outputs a text) v = record_output-IsValid s text v
step-IsValid w s now (exits a how) v = child_exits-IsValid s a how now v
step-IsValid w s now (errs a) v = child_errs-IsValid s a now v
step-IsValid w s now (deadline a) v = readiness_timeout-IsValid s v a
step-IsValid w s now (fires timer) v = respawn_fires-IsValid w s timer now v
step-IsValid w s now (updates_extra_env env) v = ground arith

pub run_keeps :
    (w : World) (s : Supervisor) (es : List (ℕ × Event)) → IsValid s → IsValid (run w s es)
unfolding run
run_keeps w s [] v = v
run_keeps w s ((now, e) ∷ es) v = run_keeps w (step w s now e) es (step-IsValid w s now e v)

-- Whatever calls, outputs, exits, errors, deadlines and timers come, in any order: the child that the
-- supervisor holds runs and is of the current generation, and only a supervisor that is not stopping
-- holds one; it has a URL exactly when it is ready, which is a loopback URL with a token; its respawns
-- are within the budget; and its output buffer has at most 65,536 units.
pub supervisor_run-IsValid :
    (w : World) (cfg : HarnessSupervisorConfig) (es : List (ℕ × Event))
    → IsValid (run w (new_supervisor cfg) es)
supervisor_run-IsValid w cfg es = run_keeps w (new_supervisor cfg) es (new_supervisor-IsValid cfg)
