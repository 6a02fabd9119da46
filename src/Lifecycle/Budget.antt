-- ===== src/Lifecycle/Budget.antt =====
-- apps/shell/src/main/lifecycle-manager.ts: startups, boot failures and generations.
use deepseek_harness.Common.{
  ℕ, zero, suc, ◌+◌, ◌≤◌, ◌<◌, ◌≡◌, ◌↔◌, refl, true, false, some, List, [], ◌∷◌, arith, nat_eq,
  if◌then◌else◌,
}
use deepseek_harness.Lifecycle.Manager.{
  LifecycleManager, stopped, is_shut, is_failed, new_manager, begin_startup, record_boot_failure,
  mark_ready, mark_second_instance, shutdown_begins, is_current,
}

-- The calls of the methods; `shuts` is the beginning of a shutdown and `shut` its end.
pub data Call : Type 0 where
  begins fails readies seconds shuts shut : Call

unfoldable pub apply : LifecycleManager → Call → LifecycleManager
unfolding begin_startup record_boot_failure mark_ready mark_second_instance shutdown_begins
apply m begins = (begin_startup m).1
apply m fails = (record_boot_failure m).1
apply m readies = mark_ready m
apply m seconds = mark_second_instance m
apply m shuts = (shutdown_begins m).1
apply m shut = record m { state = stopped }

unfoldable pub apply_all : LifecycleManager → List Call → LifecycleManager
unfolding apply
apply_all m [] = m
apply_all m (c ∷ cs) = apply_all (apply m c) cs

-- A manager that is open has failures left.
record InBudget (max : ℕ) (m : LifecycleManager) : Type 0 where
  same_max : m.max_boot_failures ≡ max
  has_left : is_failed m.state ≡ false → is_shut m.state ≡ false → m.boot_failures < max

apply-InBudget :
    (max : ℕ) (m : LifecycleManager) (c : Call)
    → 0 < max
    → InBudget max m
    → InBudget max (apply m c)
unfolding apply
apply-InBudget max m begins h b = ground arith
apply-InBudget max m fails h b = ground arith
apply-InBudget max m readies h b = ground arith
apply-InBudget max m seconds h b = ground arith
apply-InBudget max m shuts h b = ground arith
apply-InBudget max m shut h b = ground arith

apply_all-InBudget :
    (max : ℕ) (m : LifecycleManager) (cs : List Call)
    → 0 < max
    → InBudget max m
    → InBudget max (apply_all m cs)
unfolding apply_all
apply_all-InBudget max m [] h b = b
apply_all-InBudget max m (c ∷ cs) h b =
    apply_all-InBudget max (apply m c) cs h (apply-InBudget max m c h b)

-- Whatever was called before, a startup is begun only with fewer boot failures since the last success
-- than the budget.
begin_startup_in_budget :
    (max : ℕ) (cs : List Call)
    → 0 < max
    → (begin_startup (apply_all (new_manager (some max)) cs)).0 ≡ true
    → (apply_all (new_manager (some max)) cs).boot_failures < max
unfolding begin_startup new_manager
begin_startup_in_budget max cs h begun =
    let start : InBudget max (new_manager (some max)) = ground arith in
    let b = apply_all-InBudget max (new_manager (some max)) cs h start in ground arith

-- So many failures in a row.
abbrev pub fail_times : LifecycleManager → ℕ → LifecycleManager
unfolding record_boot_failure
fail_times m zero = m
fail_times m (suc n) = (record_boot_failure (fail_times m n)).1

fail_times_lem :
    (m : LifecycleManager) (n : ℕ)
    → ((fail_times m n).boot_failures ≡ m.boot_failures + n)
      × ((fail_times m n).max_boot_failures ≡ m.max_boot_failures)
unfolding record_boot_failure
fail_times_lem m zero = (omega arith, refl)
fail_times_lem m (suc n) = let before = fail_times_lem m n in ground arith

-- As many failures in a row as the budget, and at least one, make every later startup be refused.
pub failures_stop_startup :
    (m : LifecycleManager) (n : ℕ)
    → m.max_boot_failures ≤ m.boot_failures + suc n
    → ((record_boot_failure (fail_times m n)).0 ≡ false)
      × (begin_startup (fail_times m (suc n)) ≡ (false, fail_times m (suc n)))
unfolding begin_startup record_boot_failure
failures_stop_startup m n h = let before = fail_times_lem m n in ground arith

-- The startups that were begun.
abbrev pub begun_by : LifecycleManager → Call → ℕ
unfolding begin_startup
begun_by m begins = if (begin_startup m).0 then 1 else 0
begun_by m _ = 0

abbrev pub begun : LifecycleManager → List Call → ℕ
unfolding begin_startup apply
begun m [] = 0
begun m (c ∷ cs) = begun_by m c + begun (apply m c) cs

begun_by_lem :
    (m : LifecycleManager) (c : Call) → (apply m c).generation ≡ m.generation + begun_by m c
unfolding apply begin_startup
begun_by_lem m begins = ground arith
begun_by_lem m fails = ground arith
begun_by_lem m readies = ground arith
begun_by_lem m seconds = ground arith
begun_by_lem m shuts = ground arith
begun_by_lem m shut = ground arith

-- The generation counts the startups that were begun.
pub apply_all-generation :
    (m : LifecycleManager) (cs : List Call)
    → (apply_all m cs).generation ≡ m.generation + begun m cs
unfolding apply_all begin_startup apply
apply_all-generation m [] = omega arith
apply_all-generation m (c ∷ cs) =
    let first = begun_by_lem m c in let rest = apply_all-generation (apply m c) cs in omega arith

-- A token taken from a manager is current after any calls exactly if no startup has been begun since.
is_current_iff :
    (m : LifecycleManager) (cs : List Call)
    → (is_current (apply_all m cs).generation m.generation ≡ true) ↔ (begun m cs ≡ 0)
is_current_iff m cs = let count = apply_all-generation m cs in ground arith
