-- ===== src/Browser/Address.antt =====
-- apps/shell/src/main/embedded-browser.ts: which URLs the browser takes. `protocol` is that of `new URL`,
-- none where it throws.
use deepseek_harness.Common.{
  Text, text_eq, ℕ, Bool, true, false, ◌&&◌, ◌||◌, Option, none, some, [], ◌∷◌, ◌++◌, leb, ◌==◌,
  nat_eq, if◌then◌else◌, ◌≡◌, refl, Bool-cases, inl, inr,
}
use deepseek_harness.Supervisor.Output.{units, is_digit, span}
use deepseek_harness.Policy.Reasoning.{lower}
use deepseek_harness.Update.Version.{trim}

abbrev pub default_url : Text
default_url = units "about:blank"

abbrev pub is_web : Option Text → Bool
is_web none = false
is_web (some protocol) = protocol == units "http:" || protocol == units "https:"

-- `[a-z]` and `[a-z\d+.-]`, with the flag `i`.
abbrev pub is_letter : ℕ → Bool
is_letter c = leb 97 (lower c) && leb (lower c) 122

abbrev pub is_scheme_unit : ℕ → Bool
is_scheme_unit c = is_letter c || is_digit c || c == 43 || c == 46 || c == 45

abbrev pub starts_colon : Text → Bool
starts_colon [] = false
starts_colon (c ∷ cs) = c == 58

-- `/^[a-z][a-z\d+.-]*:/i`.
abbrev pub has_scheme : Text → Bool
has_scheme [] = false
has_scheme (c ∷ cs) = is_letter c && starts_colon (span is_scheme_unit cs).1

module _ (protocol : Text → Option Text) where
  unfoldable pub allowed_url : Text → Bool
  allowed_url value = value == default_url || is_web (protocol value)

  unfoldable pub normalize_address : Text → Text
  normalize_address value =
      let trimmed = trim value in
      if trimmed == [] || allowed_url trimmed
      then trimmed
      else if has_scheme trimmed
      then trimmed
      else units "https://" ++ trimmed

  unfoldable pub safe_url : Text → Text
  safe_url value = if allowed_url value then value else default_url

  pub safe_url-allowed_url : (value : Text) → allowed_url (safe_url value) ≡ true
  unfolding safe_url allowed_url
  safe_url-allowed_url value = elim (Bool-cases (value == default_url || is_web (protocol value))) [
    | inl ok ↦ rw ok ok
    | inr bad ↦ rw bad refl
  ]
