-- ===== src/Policy/Backend.antt =====
-- apps/shell/src/main/backend-state.ts: when a change of a backend's state is shown.
use deepseek_harness.Common.{
  ℕ, ◌+◌, List, [], ◌∷◌, All, ◌≡◌, refl, arith, Bool, true, false, not, ◌||◌, if◌then◌else◌,
}

pub data BackendState : Type 0 where
  unknown ready degraded down : BackendState

abbrev pub same_state : BackendState → BackendState → Bool
same_state unknown unknown = true
same_state ready ready = true
same_state degraded degraded = true
same_state down down = true
same_state _ _ = false

abbrev pub is_unknown : BackendState → Bool
is_unknown unknown = true
is_unknown _ = false

unfoldable pub should_notify_backend_state : BackendState → BackendState → Bool → Bool
should_notify_backend_state previous state shutting_down =
    if shutting_down || same_state previous state then false else not (is_unknown previous)

-- A run of observations, and how many of them are shown while the shell is up.
unfoldable pub shown : BackendState → List BackendState → ℕ
unfolding should_notify_backend_state
shown previous [] = 0
shown previous (state ∷ states) =
    (if should_notify_backend_state previous state false then 1 else 0) + shown state states

abbrev pub IsObserved : BackendState → Type 0
IsObserved state = is_unknown state ≡ false

-- The changes between neighbours.
abbrev pub changes : BackendState → List BackendState → ℕ
changes previous [] = 0
changes previous (state ∷ states) =
    (if same_state previous state then 0 else 1) + changes state states

shown_known :
    (state : BackendState) (states : List BackendState)
    → IsObserved state
    → All IsObserved states
    → shown state states ≡ changes state states
unfolding shown
shown_known state [] h a = refl
shown_known state (next ∷ states) h a = let rest = shown_known next states a.0 a.1 in ground arith

-- Of the states that are observed while the shell is up, the first is not shown, and of the others
-- exactly those that differ from the one before.
shown-changes :
    (first : BackendState) (states : List BackendState)
    → IsObserved first
    → All IsObserved states
    → shown unknown (first ∷ states) ≡ changes first states
unfolding shown
shown-changes first states h a = let rest = shown_known first states h a in ground arith
