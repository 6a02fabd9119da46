-- ===== src/Supervisor/Calls.antt =====
-- apps/shell/src/main/harness-supervisor.ts: `recordOutput`, and the calls `start`, `stop` and
-- `restart`, which `withLock` runs one after the other. A call is cut at `waitForExit`, its only wait.
use deepseek_harness.Common.{
  Text, nat_eq, ℕ, ◌+◌, Bool, true, false, ◌||◌, Option, none, some, List, [], ◌∷◌, ◌++◌,
  if◌then◌else◌,
}
use deepseek_harness.Common.JsMap.{delete}
use deepseek_harness.Supervisor.Output.{append_output, split_lines, match_ready}
use deepseek_harness.Supervisor.State.{
  Supervisor, Operation, start, stop, restart, Holder, nobody, stopping_waits, restarting_waits,
  kill_tree, became_ready, parse_mcp_status, stopped, ready, is_starting, perform,
}
use deepseek_harness.Supervisor.Control.{World, is_alive, pid_of, spawn}

abbrev pub grab : Supervisor → Option Text → Supervisor
grab s none = s
grab s (some url) =
    perform (record s { url = some url; status = ready })
      (became_ready (record {
        url = url;
        pid = pid_of s s.proc;
        started_at = s.started_at;
        restarts = s.restarts;
        last_output_tail = none;
      }))

unfoldable pub try_grabs : Supervisor → Supervisor
try_grabs s = if is_starting s.status then grab s (match_ready s.out_buffer) else s

-- `parseMcpStatus` of each line, in order.
unfoldable pub parse_lines : Supervisor → List Text → Supervisor
parse_lines s [] = s
parse_lines s (line ∷ lines) = parse_lines (perform s (parse_mcp_status line)) lines

-- An output of any child that was started; nothing asks which.
unfoldable pub record_output : Supervisor → Text → Supervisor
unfolding try_grabs parse_lines
record_output s text =
    let (lines, last) = split_lines (s.mcp_line_buffer ++ text) in
    try_grabs (
      parse_lines
        (record s { out_buffer = append_output s.out_buffer text; mcp_line_buffer = last }) lines)

-- `restartTimer` is cleared; a timer that it does not name goes on.
abbrev pub clear_timer : Supervisor → Option ℕ → Supervisor
clear_timer s none = s
clear_timer s (some timer) = record s { restart_timer = none; timers = delete timer s.timers }

-- `stop` and `restart` from the call to the wait: the child is let go, killed and waited for.
abbrev pub revoke : Supervisor → Supervisor
revoke s =
    let t = record s { stopping = true; generation = s.generation + 1 } in
    clear_timer t t.restart_timer

abbrev pub let_go : Supervisor → Supervisor
let_go s = record s { proc = none; status = stopped; url = none }

unfoldable pub stop_body : Supervisor → Supervisor
stop_body s =
    let t = let_go (revoke s) in
    if is_alive s s.proc
    then record (perform t (kill_tree (pid_of s s.proc))) { holder = stopping_waits }
    else t

-- `restart` after its waits.
abbrev pub restart_ends : World → Supervisor → ℕ → Supervisor
unfolding spawn
restart_ends w s now = spawn w (record s { stopping = false; holder = nobody }) now

unfoldable pub restart_body : World → Supervisor → ℕ → Supervisor
unfolding spawn
restart_body w s now =
    let t = revoke s in
    if is_alive s s.proc
    then record (perform (let_go t) (kill_tree (pid_of s s.proc))) { holder = restarting_waits }
    else restart_ends w t now

abbrev pub is_up : Supervisor → Bool
is_up s = is_starting s.status || is_alive s s.proc

-- The body of a call, under the lock, up to its wait.
unfoldable pub run_body : World → Supervisor → ℕ → Operation → Supervisor
unfolding spawn stop_body restart_body
run_body w s now start = if is_up s then s else spawn w (record s { stopping = false }) now
run_body w s now stop = stop_body s
run_body w s now restart = restart_body w s now

-- The calls that wait for the lock, until one of them waits for a child.
unfoldable pub run_waiting : World → Supervisor → ℕ → List Operation → Supervisor
unfolding run_body
run_waiting w s now [] = record s { waiting = [] }
run_waiting w s now (op ∷ ops) =
    let t = run_body w s now op in
    let rest = run_waiting w t now ops in
    elim t.holder [ nobody ↦ rest | _ ↦ record t { waiting = ops } ]

abbrev pub take_lock : World → Supervisor → ℕ → Operation → Supervisor
unfolding run_waiting
take_lock w s now op = elim s.holder [
  | nobody ↦ run_waiting w s now (op ∷ [])
  | _ ↦ record s { waiting = s.waiting ++ (op ∷ []) }
]

-- `start`, `stop` or `restart` is called.
unfoldable pub call : World → Supervisor → ℕ → Operation → Supervisor
unfolding run_waiting
call w s now start = if is_up s then s else take_lock w s now start
call w s now stop = take_lock w s now stop
call w s now restart = take_lock w s now restart

-- `waitForExit` resolves: the child has ended, or five seconds are over.
abbrev pub resume : World → Supervisor → ℕ → Holder → Supervisor
unfolding run_waiting spawn
resume w s now nobody = s
resume w s now stopping_waits = run_waiting w (record s { holder = nobody }) now s.waiting
resume w s now restarting_waits = run_waiting w (restart_ends w s now) now s.waiting

unfoldable pub wait_ends : World → Supervisor → ℕ → Supervisor
unfolding run_waiting spawn
wait_ends w s now = resume w s now s.holder
