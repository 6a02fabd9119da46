-- ===== src/Preflight/Retry.antt =====
-- apps/shell/src/main/preflight.ts: `awaitHarnessLayout`. The disk is another one at each check; the
-- result has the pauses and the results that `onRetry` was told of. A number of attempts that is none
-- or below one is taken as one, and the pauses are not below 0.
use deepseek_harness.Common.{
  ℕ, zero, suc, ◌+◌, ◌-◌, ◌≤◌, ◌<◌, max, true, false, Option, none, some, List, [], ◌∷◌, ◌≡◌, ◌⊎◌,
  inl, inr, refl, arith, length, ap, sym, subst, ◌∙◌, if◌then◌else◌, Bool-cases, nat_eq,
}
use deepseek_harness.Preflight.Layout.{
  Disk, PreflightOptions, PreflightResult, verify_harness_layout,
}

pub record PreflightRetryOptions : Type 0 where
  pub layout : PreflightOptions
  pub attempts : Option ℕ
  pub delay_ms : Option ℕ

pub record Awaited : Type 0 where
  pub result : PreflightResult
  pub sleeps : List ℕ
  pub retried : List PreflightResult

abbrev pub or_default : Option ℕ → ℕ → ℕ
or_default none n = n
or_default (some m) n = m

abbrev pub attempts_of : PreflightRetryOptions → ℕ
attempts_of o = max 1 (or_default o.attempts 6)

less_or_eq : (i j : ℕ) → i ≤ j → (i < j) ⊎ (i ≡ j)
less_or_eq i j h = ground arith

-- The loop, on the results of the checks, from an attempt on; it has the number of attempts that are
-- left after that one.
module _ (delay : ℕ) (checked : ℕ → PreflightResult) where
  abbrev pub stop_with : PreflightResult → Awaited
  stop_with r = record { result = r; sleeps = []; retried = [] }

  abbrev pub pause_after : PreflightResult → Awaited → Awaited
  pause_after r later = record {
    result = later.result;
    sleeps = delay ∷ later.sleeps;
    retried = r ∷ later.retried;
  }

  unfoldable pub retry : ℕ → ℕ → Awaited
  retry zero attempt = stop_with (checked attempt)
  retry (suc left) attempt =
      let later = retry left (suc attempt) in
      if (checked attempt).ok
      then stop_with (checked attempt)
      else pause_after (checked attempt) later

  -- Where the loop ends.
  abbrev pub EndsAt : ℕ → ℕ → Awaited → Type 0
  EndsAt first last a =
      (a.result ≡ checked last)
      × (first + length a.sleeps ≡ last)
      × (first + length a.retried ≡ last)
      × ((i : ℕ) → first ≤ i → i < last → (checked i).ok ≡ false)

  abbrev pub Ends : ℕ → ℕ → Awaited → Type 0
  Ends first left a =
      (last : ℕ) × EndsAt first last a
      × (last ≤ first + left)
      × (((checked last).ok ≡ true) ⊎ (last ≡ first + left))

  stop_with-Ends :
      (left first : ℕ)
      → ((checked first).ok ≡ true) ⊎ (first ≡ first + left)
      → Ends first left (stop_with (checked first))
  stop_with-Ends left first h =
      (first, (refl, omega arith, omega arith, λ i low high. absurd (omega arith)), omega arith, h)

  pause_after-Ends :
      (left first : ℕ) (later : Awaited)
      → (checked first).ok ≡ false
      → Ends (suc first) left later
      → Ends first (suc left) (pause_after (checked first) later)
  pause_after-Ends left first later bad (last, (result, sleeps, retried, before), high, ends) = (
    last,
    (
      result,
      omega (arith, sleeps),
      omega (arith, retried),
      λ i low below. elim (less_or_eq first i low) [
        | inl after ↦ before i after below
        | inr here ↦ subst (λ j. (checked j).ok ≡ false) here bad
      ],
    ),
    omega (arith, high),
    elim ends [ inl good ↦ inl good | inr at_end ↦ inr (omega (arith, at_end)) ],
  )

  pub retry-Ends : (left first : ℕ) → Ends first left (retry left first)
  unfolding retry
  retry-Ends zero first = stop_with-Ends zero first (inr (omega arith))
  retry-Ends (suc left) first =
      let stops = stop_with (checked first) in
      let pauses = pause_after (checked first) (retry left (suc first)) in
      elim (Bool-cases (checked first).ok) [
        | inl good ↦
            subst (Ends first (suc left)) (ap (λ b. if b then stops else pauses) (sym good))
              (stop_with-Ends (suc left) first (inl good))
        | inr bad ↦
            subst (Ends first (suc left)) (ap (λ b. if b then stops else pauses) (sym bad)) (
              pause_after-Ends left first (retry left (suc first)) bad
                (retry-Ends left (suc first)))
      ]

abbrev pub result_at : PreflightRetryOptions → (ℕ → Disk) → ℕ → PreflightResult
result_at o disks attempt = verify_harness_layout (disks attempt) o.layout

unfoldable pub await_harness_layout : PreflightRetryOptions → (ℕ → Disk) → Awaited
await_harness_layout o disks =
    retry (or_default o.delay_ms 1000) (result_at o disks) (attempts_of o - 1) 0

-- `awaitHarnessLayout` ends within its attempts, whatever becomes of the disk: with the first check that
-- is ok, or with the last one if none is. It has paused and told of a retry once after each check before.
pub await_harness_layout_ends :
    (o : PreflightRetryOptions) (disks : ℕ → Disk)
    → (last : ℕ) × (last < attempts_of o)
      × ((await_harness_layout o disks).result ≡ result_at o disks last)
      × (length (await_harness_layout o disks).sleeps ≡ last)
      × (length (await_harness_layout o disks).retried ≡ last)
      × ((i : ℕ) → i < last → (result_at o disks i).ok ≡ false)
      × (((result_at o disks last).ok ≡ true) ⊎ (last + 1 ≡ attempts_of o))
unfolding await_harness_layout
await_harness_layout_ends o disks =
    let (last, (result, sleeps, retried, before), high, ends) =
      retry-Ends (or_default o.delay_ms 1000) (result_at o disks) (attempts_of o - 1) 0 in
    (
      last,
      omega (arith, high),
      result,
      omega (arith, sleeps),
      omega (arith, retried),
      λ i below. before i (omega arith) below,
      elim ends [ inl good ↦ inl good | inr at_end ↦ inr (omega (arith, at_end)) ],
    )

-- A disk that settles within the attempts is not reported: the result is ok if any of the checks that
-- fit into the attempts would be.
await_harness_layout_settles :
    (o : PreflightRetryOptions) (disks : ℕ → Disk) (attempt : ℕ)
    → attempt < attempts_of o
    → (result_at o disks attempt).ok ≡ true
    → (await_harness_layout o disks).result.ok ≡ true
await_harness_layout_settles o disks attempt within good =
    let (last, bound, result, sleeps, retried, before, ends) = await_harness_layout_ends o disks in
    ap (λ r. r.ok) result ∙ (elim ends [
      | inl ok ↦ ok
      | inr at_end ↦ elim (less_or_eq attempt last (omega (arith, at_end))) [
        | inl later ↦ absurd (cc (before attempt later, good))
        | inr same ↦ subst (λ j. (result_at o disks j).ok ≡ true) same good
      ]
    ])
