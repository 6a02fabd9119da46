-- ===== src/Policy/Examples.antt =====
-- Concrete states and models: tests of backend-state.ts and reasoning-policy.ts, and each theorem at
-- some of them.
use deepseek_harness.Common.{◌≡◌, refl, List, [], ◌∷◌, Text}
use deepseek_harness.Supervisor.Output.{units}
use deepseek_harness.Policy.Backend.{BackendState, ready, down}
use deepseek_harness.Policy.Reasoning.{reasoning_efforts_for_model, off_low_high}

abbrev observed : List BackendState
observed = ready ∷ down ∷ down ∷ []

abbrev mimo : Text
mimo = units "MiMo-V2.5"

-- A test: a thinking model of another family.
qwen_thinks : reasoning_efforts_for_model (units "Qwen3-30b-Thinking") ≡ off_low_high
unfolding reasoning_efforts_for_model
qwen_thinks = refl
