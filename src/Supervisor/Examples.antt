-- ===== src/Supervisor/Examples.antt =====
-- A concrete supervisor: tests of apps/shell/src/main/harness-supervisor.ts, and each theorem at it.
use deepseek_harness.Common.{
  length, arith, Text, ℕ, ◌+◌, ◌≡◌, ◌⊎◌, refl, none, some, List, [], ◌∷◌, nat_eq, String, string_eq,
}
use mathlib.Core.List.{Memᴰ}
use deepseek_harness.Common.JsMap.{JsMap, get}
use deepseek_harness.Pool.State.{exited}
use deepseek_harness.Supervisor.Output.{units, append_output, match_ready}
use deepseek_harness.Supervisor.State.{
  Supervisor, HarnessSupervisorConfig, HarnessInstance, became_stuck, new_supervisor, start, stop,
  restart, ready, stopped,
}
use deepseek_harness.Supervisor.Control.{World, home_fails, spawns, child_exits}
use deepseek_harness.Supervisor.Env.{child_env, safe_env_keys, lb_env, bridge_env}
use deepseek_harness.Supervisor.Calls.{call}
use deepseek_harness.Supervisor.Machine.{
  Event, calls, wait_is_over, outputs, exits, fires, run, step,
}
use deepseek_harness.Supervisor.Invariant.{IsValid, supervisor_run-IsValid}
use deepseek_harness.Supervisor.Down.{stop_stays_down}
use deepseek_harness.Supervisor.Respawn.{stale_output_makes_ready}
use deepseek_harness.Supervisor.Exits.{Crash, crash_all, child_of, IsRunning, planned, delays}
use deepseek_harness.Supervisor.Crashes.{crash_loop_gives_up}
use deepseek_harness.Supervisor.Environment.{child_env_sources, IsCopied}

abbrev cfg : HarnessSupervisorConfig
cfg = record {
  home_dir = "/home/dsh";
  lb_url = some "http://127.0.0.1:4000";
  extra_env = ("FREECODE_PUBLIC_KEY", "public") ∷ [];
  browser_bridge = none;
  node_env = ("ELECTRON_RUN_AS_NODE", "1") ∷ [];
  backoff_base_ms = none;
  restart_budget = none;
}

abbrev process_env : JsMap String String
process_env = ("PATH", "/bin") ∷ ("OPENAI_API_KEY", "secret") ∷ []

abbrev world : World
world = record { process_env = process_env; launched = λ n. spawns (some (100 + n)) }

abbrev homeless : World
homeless = record { process_env = []; launched = λ n. home_fails }

abbrev banner : Text
banner = units "dsh web: http://127.0.0.1:80/?token=ab\n"

abbrev address : Text
address = units "http://127.0.0.1:80/?token=ab"

abbrev boot : List (ℕ × Event)
boot = (1, calls start) ∷ (5, outputs 0 banner) ∷ []

abbrev up : Supervisor
up = run world (new_supervisor cfg) boot

-- A test: the banner makes it ready.
up_ready : (up.status ≡ ready) × (up.url ≡ some address)
unfolding run match_ready append_output
up_ready = (refl, refl)

supervisor_run-IsValid_example : IsValid (run world (new_supervisor cfg) boot)
supervisor_run-IsValid_example = supervisor_run-IsValid world cfg boot

abbrev later : List (ℕ × Event)
later = (20, exits 0 exited) ∷ (21, wait_is_over) ∷ (22, outputs 0 banner) ∷ (9000, fires 0) ∷ []

stop_stays_down_example :
    ((run world (call world up 10 stop) later).next ≡ up.next)
    × ((run world (call world up 10 stop) later).status ≡ stopped)
    × ((run world (call world up 10 stop) later).proc ≡ none)
    × ((run world (call world up 10 stop) later).url ≡ none)
unfolding run match_ready append_output
stop_stays_down_example = stop_stays_down world up 10 later refl refl (
  ((λ e. absurd (cc e)), (λ e. absurd (cc e))),
  (
    ((λ e. absurd (cc e)), (λ e. absurd (cc e))),
    (
      ((λ e. absurd (cc e)), (λ e. absurd (cc e))),
      (((λ e. absurd (cc e)), (λ e. absurd (cc e))), tt),
    ),
  ),
)

-- A child that crashes every 59 seconds, over five minutes.
abbrev crashes : List Crash
crashes =
    record { how = exited; at = 159000; due = 161000 }
    ∷ record { how = exited; at = 218000; due = 222000 }
    ∷ record { how = exited; at = 277000; due = 285000 }
    ∷ record { how = exited; at = 336000; due = 352000 }
    ∷ []

abbrev first_crash : Crash
first_crash = record { how = exited; at = 100000; due = 101000 }

abbrev worn : Supervisor
unfolding run match_ready append_output child_exits
    deepseek_harness.Supervisor.Control.respawn_fires
worn = crash_all world up (first_crash ∷ crashes)

up-IsRunning : IsRunning up
unfolding run match_ready append_output
up-IsRunning = record { child = 0; held = refl; not_stopping = refl; current = refl }

crash_loop_gives_up_example :
    (worn.restarts ≡ length (first_crash ∷ crashes))
    × (planned worn.effects ≡ delays 1000 0 (first_crash ∷ crashes) (planned up.effects))
    × ((h : HarnessInstance) × ((child_exits worn (child_of worn.proc) exited 395000).effects
          ≡ became_stuck h ∷ worn.effects))
    × ((child_exits worn (child_of worn.proc) exited 395000).proc ≡ none)
    × ((child_exits worn (child_of worn.proc) exited 395000).timers ≡ worn.timers)
unfolding run match_ready append_output
crash_loop_gives_up_example =
    crash_loop_gives_up world up first_crash crashes exited 395000 (λ n. (some (100 + n), refl))
      up-IsRunning (omega arith) ((omega arith, (omega arith, (omega arith, (omega arith, tt)))))
      refl (omega arith)

-- A restart whose old child writes once more after the new one was started.
abbrev replaced : Supervisor
replaced = run world up ((10, calls restart) ∷ (5010, wait_is_over) ∷ [])

stale_output_makes_ready_example :
    ((step world replaced 5011 (outputs 0 banner)).status ≡ ready)
    × ((step world replaced 5011 (outputs 0 banner)).url ≡ some address)
unfolding run match_ready append_output
stale_output_makes_ready_example =
    stale_output_makes_ready world replaced 5011 0 banner address refl (λ e. absurd (cc e)) refl

abbrev path_key : String
path_key = "PATH"

abbrev path_value : String
path_value = "/bin"

child_env_sources_example :
    IsCopied process_env safe_env_keys path_key path_value
    ⊎ (((path_key ≡ "DSH_HOME") × (path_value ≡ cfg.home_dir))
        ⊎ (Memᴰ (path_key, path_value) cfg.node_env
            ⊎ (Memᴰ (path_key, path_value) (lb_env cfg.lb_url)
                ⊎ (Memᴰ (path_key, path_value) (bridge_env cfg.browser_bridge)
                    ⊎ Memᴰ (path_key, path_value) cfg.extra_env))))
unfolding child_env
child_env_sources_example = child_env_sources process_env cfg path_key path_value refl

-- A test: a key that is not on the list does not reach the child.
no_leak : get "OPENAI_API_KEY" (child_env process_env cfg) ≡ none
unfolding child_env
no_leak = refl
