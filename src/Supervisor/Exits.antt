-- ===== src/Supervisor/Exits.antt =====
-- apps/shell/src/main/harness-supervisor.ts: what one crash of a child comes to.
use deepseek_harness.Common.{
  ℕ, ◌+◌, ◌*◌, ◌^◌, ◌<◌, ◌≡◌, refl, true, false, Option, none, some, List, [], ◌∷◌, arith, nat_eq,
  ◌==◌, leb, ◌∙◌, ap, if◌then◌else◌, sym, subst, min,
}
use deepseek_harness.Common.JsMap.{get, get-set}
use deepseek_harness.Pool.State.{ChildProcess}
use deepseek_harness.Supervisor.State.{
  Supervisor, Effect, respawn_in, budget, delay_ms, stopped, unhealthy, is_ready,
}
use deepseek_harness.Supervisor.Control.{
  World, spawns, spawn, spawn_once, maybe_respawn, child_exits, note_exit, respawn_fires,
  arm_respawn, give_up,
}
use deepseek_harness.Supervisor.Respawn.{counted}

-- The child exits at a time, and the timer of its respawn fires at another.
pub record Crash : Type 0 where
  pub how : ChildProcess
  pub at : ℕ
  pub due : ℕ

abbrev pub child_of : Option ℕ → ℕ
child_of none = 0
child_of (some a) = a

abbrev pub crash : World → Supervisor → Crash → Supervisor
crash w s c = respawn_fires w (child_exits s (child_of s.proc) c.how c.at) s.next_timer c.due

abbrev pub crash_all : World → Supervisor → List Crash → Supervisor
crash_all w s [] = s
crash_all w s (c ∷ cs) = crash_all w (crash w s c) cs

-- The supervisor holds a child of its generation.
pub record IsRunning (s : Supervisor) : Type 0 where
  pub child : ℕ
  pub held : s.proc ≡ some child
  pub not_stopping : s.stopping ≡ false
  pub current : (s.children child).generation ≡ s.generation

-- Every launch gives a child.
abbrev pub Launches : World → Type 0
Launches w = (n : ℕ) → (pid : Option ℕ) × (w.launched n ≡ spawns pid)

-- The delays of the respawns that were planned, the last first.
abbrev pub planned : List Effect → List ℕ
planned [] = []
planned (respawn_in ms ∷ es) = ms ∷ planned es
planned (e ∷ es) = planned es

-- Each crash comes less than a minute after the one before.
abbrev pub IsQuick : ℕ → List Crash → Type 0
IsQuick last [] = Unit
IsQuick last (c ∷ cs) = (c.at < last + 60000) × IsQuick c.at cs

-- A second, or what is configured, and twice that after each respawn, up to half a minute.
abbrev pub delays : ℕ → ℕ → List Crash → List ℕ → List ℕ
delays base k [] sofar = sofar
delays base k (c ∷ cs) sofar = delays base (k + 1) cs (min (base * 2 ^ k) 30000 ∷ sofar)

abbrev pub last_crash : ℕ → List Crash → ℕ
last_crash last [] = last
last_crash last (c ∷ cs) = last_crash c.at cs

-- The supervisor without its child, after the exit.
abbrev pub after_exit : Supervisor → ℕ → ChildProcess → ℕ → ℕ → Supervisor
after_exit s a how now k = record (note_exit s a how) {
  proc = none;
  status = if is_ready s.status then unhealthy else stopped;
  url = none;
  restarts = k;
  last_restart_at = now;
}

pub exit_decides :
    (s : Supervisor) (a : ℕ) (how : ChildProcess) (now k : ℕ)
    → s.proc ≡ some a
    → s.stopping ≡ false
    → (s.children a).generation ≡ s.generation
    → counted s now ≡ k
    → child_exits s a how now ≡ (
        if leb (budget s.cfg) k
        then give_up (after_exit s a how now k)
        else arm_respawn (after_exit s a how now k) s.generation)
unfolding child_exits maybe_respawn
exit_decides s a how now k held up current count = rw (up, held, current) (ground arith)

-- What one crash with a respawn comes to.
pub record Respawned (s t : Supervisor) (now k : ℕ) : Type 0 where
  pub running : IsRunning t
  pub same_cfg : t.cfg ≡ s.cfg
  pub restarts_are : t.restarts ≡ k + 1
  pub crashed_at : t.last_restart_at ≡ now
  pub plans : planned t.effects ≡ delay_ms s.cfg (k + 1) ∷ planned s.effects

spawned :
    (w : World) (s t : Supervisor) (timer due : ℕ) (pid : Option ℕ)
    → s.stopping ≡ false
    → s.proc ≡ none
    → get timer s.timers ≡ some s.generation
    → w.launched s.next ≡ spawns pid
    → respawn_fires w s timer due ≡ t
    → IsRunning t
      × (t.cfg ≡ s.cfg)
      × (t.restarts ≡ s.restarts)
      × (t.last_restart_at ≡ s.last_restart_at)
      × (planned t.effects ≡ planned s.effects)
unfolding respawn_fires spawn spawn_once
spawned w s t timer due pid up idle found ok e =
    let same : (s.generation == s.generation) ≡ true =
      (nat_eq.decides s.generation s.generation).1 refl in
    subst
      (λ t.
        IsRunning t
        × (t.cfg ≡ s.cfg)
        × (t.restarts ≡ s.restarts)
        × (t.last_restart_at ≡ s.last_restart_at)
        × (planned t.effects ≡ planned s.effects))
      e
      (rw (found, up, idle, same, ok)
        (
          record { child = s.next; held = refl; not_stopping = refl; current = ground arith },
          refl,
          refl,
          refl,
          refl,
        ))

pub crash-Respawned :
    (w : World) (s : Supervisor) (c : Crash) (k : ℕ)
    → Launches w
    → IsRunning s
    → counted s c.at ≡ k
    → k < budget s.cfg
    → Respawned s (crash w s c) c.at k
crash-Respawned w s c k launches r count left =
    let a = r.child in
    let armed = arm_respawn (after_exit s a c.how c.at k) s.generation in
    let within : leb (budget s.cfg) k ≡ false = ground arith in
    let ends : child_exits s a c.how c.at ≡ armed =
      exit_decides s a c.how c.at k r.held r.not_stopping r.current count
      ∙ ap (λ b. if b then give_up (after_exit s a c.how c.at k) else armed) within in
    let here : child_exits s (child_of s.proc) c.how c.at ≡ armed =
      ap (λ o. child_exits s (child_of o) c.how c.at) r.held ∙ ends in
    let (pid, ok) = launches armed.next in
    let found : get s.next_timer armed.timers ≡ some s.generation =
      get-set s.next_timer s.next_timer s.generation s.timers
      ∙ rw ((nat_eq.decides s.next_timer s.next_timer).1 refl) refl in
    let (running, cfg, restarts, last, plans) =
      spawned w armed (crash w s c) s.next_timer c.due pid r.not_stopping refl found ok
        (ap (λ x. respawn_fires w x s.next_timer c.due) (sym here)) in
    record {
      running = running;
      same_cfg = cfg;
      restarts_are = restarts;
      crashed_at = last;
      plans = plans;
    }
