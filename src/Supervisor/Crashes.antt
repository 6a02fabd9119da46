-- ===== src/Supervisor/Crashes.antt =====
-- apps/shell/src/main/harness-supervisor.ts: a child that crashes again and again.
use deepseek_harness.Common.{
  ℕ, ◌+◌, ◌*◌, ◌^◌, ◌≤◌, ◌<◌, ◌≡◌, true, none, List, [], ◌∷◌, arith, nat_eq, leb, ◌∙◌, ap,
  if◌then◌else◌, sym, subst, length, min,
}
use deepseek_harness.Pool.State.{ChildProcess}
use deepseek_harness.Supervisor.State.{
  Supervisor, HarnessInstance, became_stuck, budget, delay_ms, or_default,
}
use deepseek_harness.Supervisor.Control.{World, child_exits, arm_respawn, give_up}
use deepseek_harness.Supervisor.Respawn.{counted}
use deepseek_harness.Supervisor.Exits.{
  Crash, child_of, crash, crash_all, IsRunning, Launches, planned, IsQuick, delays, last_crash,
  after_exit, exit_decides, crash-Respawned,
}

quick_counts :
    (s : Supervisor) (now last : ℕ)
    → s.last_restart_at ≡ last
    → now < last + 60000
    → counted s now ≡ s.restarts
quick_counts s now last e h = ground arith

late_counts : (s : Supervisor) (now : ℕ) → s.last_restart_at + 60000 ≤ now → counted s now ≡ 0
late_counts s now h = ground arith

-- A run of crashes within the budget.
record Retried (s t : Supervisor) (last k : ℕ) (plans : List ℕ) : Type 0 where
  still : IsRunning t
  cfg_kept : t.cfg ≡ s.cfg
  count_is : t.restarts ≡ k
  last_is : t.last_restart_at ≡ last
  planned_are : planned t.effects ≡ plans

crash_all-Retried :
    (w : World) (s t : Supervisor) (cs : List Crash) (last k : ℕ) (plans : List ℕ)
    → Launches w
    → Retried s t last k plans
    → IsQuick last cs
    → k + length cs ≤ budget s.cfg
    → Retried s
        (crash_all w t cs)
        (last_crash last cs)
        (k + length cs)
        (delays (or_default s.cfg.backoff_base_ms 1000) k cs plans)
crash_all-Retried w s t [] last k plans launches r quick room = record {
  still = r.still;
  cfg_kept = r.cfg_kept;
  count_is = omega (arith, r.count_is);
  last_is = r.last_is;
  planned_are = r.planned_are;
}
crash_all-Retried w s t (c ∷ cs) last k plans launches r quick room =
    let count = quick_counts t c.at last r.last_is quick.0 ∙ r.count_is in
    let left : k < budget t.cfg =
      subst (λ cfg. k < budget cfg) (sym r.cfg_kept) (omega (arith, room)) in
    let next = crash-Respawned w t c k launches r.still count left in
    let base = or_default s.cfg.backoff_base_ms 1000 in
    let one : Retried s (crash w t c) c.at (k + 1) (min (base * 2 ^ k) 30000 ∷ plans) = record {
      still = next.running;
      cfg_kept = next.same_cfg ∙ r.cfg_kept;
      count_is = next.restarts_are;
      last_is = next.crashed_at;
      planned_are =
          next.plans
          ∙ ap (λ cfg. delay_ms cfg (k + 1) ∷ planned t.effects) r.cfg_kept
          ∙ ap (λ ps. delay_ms s.cfg (k + 1) ∷ ps) r.planned_are
          ∙ ap (λ n. min (base * 2 ^ n) 30000 ∷ plans) (ground arith);
    } in
    let sum : (k + 1) + length cs ≡ k + length (c ∷ cs) = omega arith in
    subst
      (λ n.
        Retried s (crash_all w (crash w t c) cs) (last_crash c.at cs) n
          (delays base (k + 1) cs (min (base * 2 ^ k) 30000 ∷ plans)))
      sum
      (crash_all-Retried w s (crash w t c) cs c.at (k + 1) _ launches one quick.1
        (omega (arith, room)))

-- A harness crashes a minute or more after its last respawn was counted, and again and again, each
-- time less than a minute after the crash before, however long that takes altogether; every launch
-- gives a child. As many respawns as the budget has are made, with delays that start at the base (a
-- second where none is configured) and double each time up to half a minute. At the next such crash
-- the supervisor gives up: it says so, holds no child and sets no timer.
pub crash_loop_gives_up :
    (w : World) (s : Supervisor) (first : Crash) (cs : List Crash) (how : ChildProcess) (now : ℕ)
    → Launches w
    → IsRunning s
    → s.last_restart_at + 60000 ≤ first.at
    → IsQuick first.at cs
    → length (first ∷ cs) ≡ or_default s.cfg.restart_budget 5
    → now < last_crash first.at cs + 60000
    → let t = crash_all w s (first ∷ cs) in
      let u = child_exits t (child_of t.proc) how now in
      (t.restarts ≡ length (first ∷ cs))
      × (planned t.effects
          ≡ delays (or_default s.cfg.backoff_base_ms 1000) 0 (first ∷ cs) (planned s.effects))
      × ((h : HarnessInstance) × (u.effects ≡ became_stuck h ∷ t.effects))
      × (u.proc ≡ none)
      × (u.timers ≡ t.timers)
crash_loop_gives_up w s first cs how now launches r late quick spent soon =
    let base = or_default s.cfg.backoff_base_ms 1000 in
    let start =
      crash-Respawned w s first 0 launches r (late_counts s first.at late) (omega (arith, spent)) in
    let one : Retried s (crash w s first) first.at 1
        (delays base 0 (first ∷ []) (planned s.effects)) =
      record {
        still = start.running;
        cfg_kept = start.same_cfg;
        count_is = start.restarts_are;
        last_is = start.crashed_at;
        planned_are = start.plans;
      } in
    let t = crash_all w (crash w s first) cs in
    let all =
      crash_all-Retried w s (crash w s first) cs first.at 1
        (delays base 0 (first ∷ []) (planned s.effects)) launches one quick
        (omega (arith, spent)) in
    let count = quick_counts t now (last_crash first.at cs) all.last_is soon ∙ all.count_is in
    let spent_now : leb (budget t.cfg) (1 + length cs) ≡ true =
      subst (λ cfg. leb (budget cfg) (1 + length cs) ≡ true) (sym all.cfg_kept) (ground arith) in
    let down = after_exit t all.still.child how now (1 + length cs) in
    let ends : child_exits t (child_of t.proc) how now ≡ give_up down =
      ap (λ o. child_exits t (child_of o) how now) all.still.held
      ∙ exit_decides t all.still.child how now (1 + length cs) all.still.held all.still.not_stopping
          all.still.current count
      ∙ ap (λ b. if b then give_up down else arm_respawn down t.generation) spent_now in
    (
      all.count_is ∙ omega arith,
      all.planned_are,
      (_, ap (λ u. u.effects) ends),
      ap (λ u. u.proc) ends,
      ap (λ u. u.timers) ends,
    )
