-- ===== src/Supervisor/Respawn.antt =====
-- apps/shell/src/main/harness-supervisor.ts: what follows the end of a child.
use deepseek_harness.Common.{
  Text, ℕ, ◌-◌, ◌≡◌, ◌≢◌, refl, true, false, none, some, List, [], ◌∷◌, ◌++◌, arith, nat_eq, leb,
  ◌∙◌, ap, if◌then◌else◌, All,
}
use deepseek_harness.Supervisor.Output.{match_ready, append_output, split_lines}
use deepseek_harness.Supervisor.State.{
  Supervisor, start, starting, ready, unhealthy, restart_window_ms, parse_mcp_status, perform,
}
use deepseek_harness.Supervisor.Control.{World, home_fails, spawn_fails, spawn}
use deepseek_harness.Supervisor.Calls.{call, is_up, record_output, try_grabs, parse_lines}
use deepseek_harness.Supervisor.Machine.{step, calls, outputs, run, Event}

-- The restarts that count when a child ends: none after a minute without one.
abbrev pub counted : Supervisor → ℕ → ℕ
counted s now = if leb restart_window_ms (now - s.last_restart_at) then 0 else s.restarts

-- A launch that throws leaves the supervisor unhealthy with no child, no respawn and no report.
pub failed_launch_not_retried :
    (w : World) (s : Supervisor) (now : ℕ)
    → s.stopping ≡ false
    → s.proc ≡ none
    → w.launched s.next ≡ spawn_fails
    → ((spawn w s now).status ≡ unhealthy)
      × ((spawn w s now).proc ≡ none)
      × ((spawn w s now).timers ≡ s.timers)
      × ((spawn w s now).effects ≡ s.effects)
unfolding spawn
failed_launch_not_retried w s now up idle fails = ground arith

abbrev pub OnlyStarts : List (ℕ × Event) → Type 0
OnlyStarts = All (λ e. e.1 ≡ calls start)

call_up : (w : World) (s : Supervisor) (now : ℕ) → is_up s ≡ true → step w s now (calls start) ≡ s
unfolding step
call_up w s now up = rw (up, call) refl

home_failure-is_starting :
    (w : World) (s : Supervisor) (now : ℕ)
    → s.stopping ≡ false
    → s.proc ≡ none
    → w.launched s.next ≡ home_fails
    → is_up (spawn w s now) ≡ true
unfolding spawn
home_failure-is_starting w s now up idle fails = ground arith

ignores :
    (w : World) (s : Supervisor) (es : List (ℕ × Event))
    → is_up s ≡ true
    → OnlyStarts es
    → run w s es ≡ s
unfolding run
ignores w s [] up starts = refl
ignores w s ((now, e) ∷ es) up starts =
    let same : step w s now e ≡ s = ap (step w s now) starts.0 ∙ call_up w s now up in
    ap (λ t. run w t es) same ∙ ignores w s es up starts.1

-- Once the home directory could not be made, no call of `start` does anything.
home_failure_blocks_start :
    (w : World) (s : Supervisor) (now : ℕ) (es : List (ℕ × Event))
    → s.stopping ≡ false
    → s.proc ≡ none
    → w.launched s.next ≡ home_fails
    → OnlyStarts es
    → run w (spawn w s now) es ≡ spawn w s now
home_failure_blocks_start w s now es up idle fails starts =
    ignores w (spawn w s now) es (home_failure-is_starting w s now up idle fails) starts

parse_lines_keeps :
    (s : Supervisor) (lines : List Text)
    → ((parse_lines s lines).status ≡ s.status) × ((parse_lines s lines).out_buffer ≡ s.out_buffer)
unfolding parse_lines
parse_lines_keeps s [] = (refl, refl)
parse_lines_keeps s (line ∷ lines) = parse_lines_keeps (perform s (parse_mcp_status line)) lines

grab_lem :
    (s : Supervisor) (url : Text)
    → s.status ≡ starting
    → match_ready s.out_buffer ≡ some url
    → ((try_grabs s).status ≡ ready) × ((try_grabs s).url ≡ some url)
unfolding try_grabs
grab_lem s url new found = ground arith

-- The launch URL of any output makes a starting supervisor ready, also that of a child that it no
-- longer holds.
pub stale_output_makes_ready :
    (w : World) (s : Supervisor) (now a : ℕ) (text url : Text)
    → s.status ≡ starting
    → s.proc ≢ some a
    → match_ready (append_output s.out_buffer text) ≡ some url
    → ((step w s now (outputs a text)).status ≡ ready)
      × ((step w s now (outputs a text)).url ≡ some url)
unfolding step record_output
stale_output_makes_ready w s now a text url new other found =
    let (lines, last) = split_lines (s.mcp_line_buffer ++ text) in
    let t : Supervisor = record s {
      out_buffer = append_output s.out_buffer text;
      mcp_line_buffer = last;
    } in
    let parsed = parse_lines_keeps t lines in
    grab_lem (parse_lines t lines) url (parsed.0 ∙ new) (ap match_ready parsed.1 ∙ found)
