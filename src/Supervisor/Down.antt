-- ===== src/Supervisor/Down.antt =====
-- apps/shell/src/main/harness-supervisor.ts: a stopped supervisor stays down.
use deepseek_harness.Common.{
  Text, ℕ, ◌≡◌, ◌≢◌, refl, true, none, List, [], ◌∷◌, ◌++◌, arith, Option-cases, inl, inr, All, ◌∙◌,
  nat_eq, subst, sym,
}
use deepseek_harness.Common.JsMap.{get}
use deepseek_harness.Pool.State.{ChildProcess}
use deepseek_harness.Supervisor.Output.{split_lines, append_output}
use deepseek_harness.Supervisor.State.{
  Supervisor, Operation, start, stop, restart, Holder, nobody, stopping_waits, restarting_waits,
  stopped,
}
use deepseek_harness.Supervisor.Control.{
  World, respawn_fires, child_exits, child_errs, readiness_timeout,
}
use deepseek_harness.Supervisor.Calls.{
  try_grabs, parse_lines, record_output, call, wait_ends, resume, run_waiting, run_body, stop_body,
}
use deepseek_harness.Supervisor.Machine.{
  Event, calls, wait_is_over, outputs, exits, errs, deadline, fires, updates_extra_env, step, run,
}

abbrev IsStop : Operation → Type 0
IsStop op = op ≡ stop

-- Nothing runs, and only calls of `stop` are on their way.
record IsDown (s : Supervisor) : Type 0 where
  is_stopping : s.stopping ≡ true
  no_proc : s.proc ≡ none
  is_stopped : s.status ≡ stopped
  no_url : s.url ≡ none
  not_restarting : s.holder ≢ restarting_waits
  only_stops : All IsStop s.waiting

-- Down, and with as many launches as before.
record StaysDown (s t : Supervisor) : Type 0 where
  is_down : IsDown t
  same_launches : t.next ≡ s.next

module _ (s : Supervisor) (d : IsDown s) where
  StaysDown-refl : StaysDown s s
  StaysDown-refl = record { is_down = d; same_launches = refl }

  try_grabs-StaysDown : StaysDown s (try_grabs s)
  unfolding try_grabs
  try_grabs-StaysDown = ground arith

  child_exits-StaysDown :
      (a : ℕ) (how : ChildProcess) (now : ℕ) → StaysDown s (child_exits s a how now)
  unfolding child_exits
  child_exits-StaysDown a how now = ground arith

  child_errs-StaysDown : (a now : ℕ) → StaysDown s (child_errs s a now)
  unfolding child_errs
  child_errs-StaysDown a now = ground arith

  readiness_timeout-StaysDown : (a : ℕ) → StaysDown s (readiness_timeout s a)
  unfolding readiness_timeout
  readiness_timeout-StaysDown a = ground arith

  respawn_fires-StaysDown : (w : World) (timer now : ℕ) → StaysDown s (respawn_fires w s timer now)
  unfolding respawn_fires
  respawn_fires-StaysDown w timer now = elim (Option-cases (get timer s.timers)) [
    | inl cleared ↦ rw (cleared, respawn_fires) StaysDown-refl
    | inr (g, found) ↦ rw (found, respawn_fires) (ground arith)
  ]

StaysDown-trans : (r s t : Supervisor) → StaysDown r s → StaysDown s t → StaysDown r t
StaysDown-trans r s t a b = record {
  is_down = b.is_down;
  same_launches = b.same_launches ∙ a.same_launches;
}

parse_lines-StaysDown :
    (s : Supervisor) (lines : List Text) → IsDown s → StaysDown s (parse_lines s lines)
unfolding parse_lines
parse_lines-StaysDown s [] d = StaysDown-refl s d
parse_lines-StaysDown s (line ∷ lines) d =
    let kept = parse_lines-StaysDown _ lines (ground arith) in
    record { is_down = kept.is_down; same_launches = kept.same_launches }

record_output-StaysDown :
    (s : Supervisor) (text : Text) → IsDown s → StaysDown s (record_output s text)
unfolding record_output
record_output-StaysDown s text d =
    let (lines, last) = split_lines (s.mcp_line_buffer ++ text) in
    let t = record s { out_buffer = append_output s.out_buffer text; mcp_line_buffer = last } in
    let parsed = parse_lines-StaysDown t lines (ground arith) in
    let grabbed = try_grabs-StaysDown (parse_lines t lines) parsed.is_down in
    record {
      is_down = grabbed.is_down;
      same_launches = grabbed.same_launches ∙ parsed.same_launches;
    }

-- A body of `stop`, whatever ran before.
stop_body_lem :
    (s : Supervisor)
    → s.holder ≢ restarting_waits
    → All IsStop s.waiting
    → StaysDown s (stop_body s)
unfolding stop_body
stop_body_lem s h a = ground arith

queue-StaysDown :
    (s : Supervisor) (ops : List Operation)
    → All IsStop ops
    → IsDown s
    → StaysDown s (record s { waiting = ops })
queue-StaysDown s ops a d = ground arith

run_waiting-StaysDown :
    (w : World) (s : Supervisor) (now : ℕ) (ops : List Operation)
    → All IsStop ops
    → IsDown s
    → StaysDown s (run_waiting w s now ops)
unfolding run_waiting
run_waiting-StaysDown w s now [] a d = queue-StaysDown s [] tt d
run_waiting-StaysDown w s now (start ∷ ops) a d = absurd (cc a.0)
run_waiting-StaysDown w s now (restart ∷ ops) a d = absurd (cc a.0)
run_waiting-StaysDown w s now (stop ∷ ops) a d =
    let t = stop_body s in
    let kept = stop_body_lem s d.not_restarting d.only_stops in
    let after = run_waiting-StaysDown w t now ops a.1 kept.is_down in
    by_holder t (run_waiting w t now ops) kept (StaysDown-trans s t _ kept after) t.holder
  where
    by_holder :
        (t rest : Supervisor)
        → StaysDown s t
        → StaysDown s rest
        → (h : Holder) → StaysDown s (elim h [ nobody ↦ rest | _ ↦ record t { waiting = ops } ])
    by_holder t rest kept after nobody = after
    by_holder t rest kept after stopping_waits =
        StaysDown-trans s t _ kept (queue-StaysDown t ops a.1 kept.is_down)
    by_holder t rest kept after restarting_waits =
        StaysDown-trans s t _ kept (queue-StaysDown t ops a.1 kept.is_down)

All-append : (xs ys : List Operation) → All IsStop xs → All IsStop ys → All IsStop (xs ++ ys)
All-append [] ys a b = b
All-append (x ∷ xs) ys a b = (a.0, All-append xs ys a.1 b)

call-stop-StaysDown :
    (w : World) (s : Supervisor) (now : ℕ) → IsDown s → StaysDown s (call w s now stop)
unfolding call
call-stop-StaysDown w s now d = by_holder s.holder
  where
    by_holder :
        (h : Holder)
        → StaysDown s (elim h [
          | nobody ↦ run_waiting w s now (stop ∷ [])
          | _ ↦ record s { waiting = s.waiting ++ (stop ∷ []) }
        ])
    by_holder nobody = run_waiting-StaysDown w s now (stop ∷ []) (refl, tt) d
    by_holder stopping_waits =
        queue-StaysDown s _ (All-append s.waiting (stop ∷ []) d.only_stops (refl, tt)) d
    by_holder restarting_waits =
        queue-StaysDown s _ (All-append s.waiting (stop ∷ []) d.only_stops (refl, tt)) d

wait_ends-StaysDown :
    (w : World) (s : Supervisor) (now : ℕ) → IsDown s → StaysDown s (wait_ends w s now)
unfolding wait_ends
wait_ends-StaysDown w s now d = by_holder s.holder d.not_restarting
  where
    by_holder : (h : Holder) → h ≢ restarting_waits → StaysDown s (resume w s now h)
    by_holder nobody n = StaysDown-refl s d
    by_holder stopping_waits n =
        let t : Supervisor = record s { holder = nobody } in
        let freed : StaysDown s t = ground arith in
        StaysDown-trans s t _ freed
          (run_waiting-StaysDown w t now s.waiting d.only_stops freed.is_down)
    by_holder restarting_waits n = absurd (n refl)

-- Neither `start` nor `restart` is called.
abbrev pub NoLaunchCall : List (ℕ × Event) → Type 0
NoLaunchCall = All (λ e. (e.1 ≢ calls start) × (e.1 ≢ calls restart))

step-StaysDown :
    (w : World) (s : Supervisor) (now : ℕ) (e : Event)
    → (e ≢ calls start) × (e ≢ calls restart)
    → IsDown s
    → StaysDown s (step w s now e)
unfolding step
step-StaysDown w s now (calls start) n d = absurd (n.0 refl)
step-StaysDown w s now (calls restart) n d = absurd (n.1 refl)
step-StaysDown w s now (calls stop) n d = call-stop-StaysDown w s now d
step-StaysDown w s now wait_is_over n d = wait_ends-StaysDown w s now d
step-StaysDown w s now (outputs a text) n d = record_output-StaysDown s text d
step-StaysDown w s now (exits a how) n d = child_exits-StaysDown s d a how now
step-StaysDown w s now (errs a) n d = child_errs-StaysDown s d a now
step-StaysDown w s now (deadline a) n d = readiness_timeout-StaysDown s d a
step-StaysDown w s now (fires timer) n d = respawn_fires-StaysDown s d w timer now
step-StaysDown w s now (updates_extra_env env) n d = ground arith

run-StaysDown :
    (w : World) (s : Supervisor) (es : List (ℕ × Event))
    → NoLaunchCall es
    → IsDown s
    → StaysDown s (run w s es)
unfolding run
run-StaysDown w s [] n d = StaysDown-refl s d
run-StaysDown w s ((now, e) ∷ es) n d =
    let first = step-StaysDown w s now e n.0 d in
    StaysDown-trans s (step w s now e) _ first
      (run-StaysDown w (step w s now e) es n.1 first.is_down)

first_stop :
    (w : World) (s : Supervisor) (now : ℕ)
    → s.holder ≡ nobody
    → s.waiting ≡ []
    → StaysDown s (call w s now stop)
unfolding call run_waiting run_body
first_stop w s now free idle =
    let t = stop_body s in
    let kept = stop_body_lem s (λ e. absurd (cc (free, e))) (subst (All IsStop) (sym idle) tt) in
    by_lock (by_holder t kept t.holder) s.holder free
  where
    by_lock :
        StaysDown s (run_waiting w s now (stop ∷ []))
        → (h : Holder) → h ≡ nobody
        → StaysDown s (elim h [
          | nobody ↦ run_waiting w s now (stop ∷ [])
          | _ ↦ record s { waiting = s.waiting ++ (stop ∷ []) }
        ])
    by_lock ran nobody e = ran
    by_lock ran stopping_waits e = absurd (cc e)
    by_lock ran restarting_waits e = absurd (cc e)

    by_holder :
        (t : Supervisor)
        → StaysDown s t
        → (h : Holder)
        → StaysDown s
            (elim h [ nobody ↦ record t { waiting = [] } | _ ↦ record t { waiting = [] } ])
    by_holder t kept nobody = StaysDown-trans s t _ kept (queue-StaysDown t [] tt kept.is_down)
    by_holder t kept stopping_waits =
        StaysDown-trans s t _ kept (queue-StaysDown t [] tt kept.is_down)
    by_holder t kept restarting_waits =
        StaysDown-trans s t _ kept (queue-StaysDown t [] tt kept.is_down)

-- After a `stop` that finds the lock free, until `start` or `restart` is called, no child is launched
-- and the supervisor is stopped with no child and no URL, whatever exits, errors, outputs, deadlines
-- and respawn timers are still on their way.
pub stop_stays_down :
    (w : World) (s : Supervisor) (now : ℕ) (es : List (ℕ × Event))
    → s.holder ≡ nobody
    → s.waiting ≡ []
    → NoLaunchCall es
    → ((run w (call w s now stop) es).next ≡ s.next)
      × ((run w (call w s now stop) es).status ≡ stopped)
      × ((run w (call w s now stop) es).proc ≡ none)
      × ((run w (call w s now stop) es).url ≡ none)
stop_stays_down w s now es free idle n =
    let first = first_stop w s now free idle in
    let rest = run-StaysDown w (call w s now stop) es n first.is_down in
    (
      rest.same_launches ∙ first.same_launches,
      rest.is_down.is_stopped,
      rest.is_down.no_proc,
      rest.is_down.no_url,
    )
