-- ===== src/Policy/Reasoning.antt =====
-- apps/shell/src/main/reasoning-policy.ts: the efforts and the wire format of a model. A model id is
-- the list of its UTF-16 units.
use deepseek_harness.Common.{
  Text, text_eq, ℕ, ◌+◌, Bool, true, false, not, ◌&&◌, ◌||◌, Option, none, some, [], ◌∷◌, contains,
  leb, ◌==◌, nat_eq, if◌then◌else◌, ◌≡◌, ◌↔◌, refl, arith, Bool-cases, inl, inr,
}
use deepseek_harness.Supervisor.Output.{units, strip}

-- The flag `i` of a pattern: ASCII letters in lower case.
abbrev pub lower : ℕ → ℕ
lower c = if leb 65 c && leb c 90 then c + 32 else c

abbrev pub lower_all : Text → Text
lower_all [] = []
lower_all (c ∷ cs) = lower c ∷ lower_all cs

-- `(?:-|$)` after a prefix.
abbrev pub ends_word : Option Text → Bool
ends_word none = false
ends_word (some []) = true
ends_word (some (c ∷ cs)) = c == 45

abbrev pub is_family : Text → Text → Bool
is_family name id = ends_word (strip name (lower_all id))

unfoldable pub is_deepseek_model : Text → Bool
is_deepseek_model id = is_family (units "deepseek") id

unfoldable pub is_mimo_model : Text → Bool
is_mimo_model id = is_family (units "mimo") id

-- `.`: no line terminator.
abbrev pub is_line_end : ℕ → Bool
is_line_end c = contains (10 ∷ 13 ∷ 8232 ∷ 8233 ∷ []) c

abbrev pub starts_with : Text → Text → Bool
starts_with prefix text = elim (strip prefix text) [ none ↦ false | some rest ↦ true ]

-- `.*think` from a place on.
abbrev pub finds_think : Text → Bool
finds_think [] = false
finds_think (c ∷ cs) =
    starts_with (units "think") (c ∷ cs) || (not (is_line_end c) && finds_think cs)

unfoldable pub is_thinking_capable_model : Text → Bool
is_thinking_capable_model id = elim (strip (units "qwen") (lower_all id)) [
  | none ↦ false
  | some rest ↦ finds_think rest
]

-- The efforts beside `off` and `high`: `low` and `max`, or none at all.
pub data Efforts : Type 0 where
  no_reasoning : Efforts
  off_high : Efforts
  off_low_high : Efforts
  off_low_high_max : Efforts

unfoldable pub reasoning_efforts_for_model : Text → Efforts
unfolding is_deepseek_model is_mimo_model is_thinking_capable_model
reasoning_efforts_for_model id =
    if is_deepseek_model id
    then off_low_high_max
    else if is_mimo_model id
    then off_high
    else if is_thinking_capable_model id
    then off_low_high
    else no_reasoning

-- Whether the DeepSeek thinking format is set, without an effort field.
unfoldable pub compat_for_model : Text → Bool
unfolding is_mimo_model
compat_for_model id = is_mimo_model id

-- No model id is of both families.
exclusive : (id : Text) → is_mimo_model id ≡ true → is_deepseek_model id ≡ false
unfolding is_mimo_model is_deepseek_model
exclusive [] h = refl
exclusive (c ∷ cs) h = elim (Bool-cases (109 == lower c)) [
  | inl m ↦ ground arith
  | inr n ↦ absurd (ground arith)
]

others :
    (a b : Bool)
    → (if a then off_low_high_max else if b then off_low_high else no_reasoning) ≡ off_high
    → ⊥
others true b h = absurd (cc h)
others false true h = absurd (cc h)
others false false h = absurd (cc h)

-- A model gets the wire format of the binary thinking switch exactly if it is offered `off` and `high`
-- and no other effort.
compat_for_model_iff :
    (id : Text) → (compat_for_model id ≡ true) ↔ (reasoning_efforts_for_model id ≡ off_high)
unfolding compat_for_model reasoning_efforts_for_model
compat_for_model_iff id = elim (Bool-cases (is_mimo_model id)) [
  | inl mimo ↦ let other = exclusive id mimo in rw (mimo, other) ((λ h. refl), λ h. refl)
  | inr not_mimo ↦ rw not_mimo (
    (λ h. absurd (cc h)),
    λ h. absurd (others (is_deepseek_model id) (is_thinking_capable_model id) h),
  )
]
