-- ===== src/Lifecycle/Shutdown.antt =====
-- apps/shell/src/main/lifecycle-manager.ts: `gracefulShutdown`.
use mathlib.Core.List.{Memᴰ}
use deepseek_harness.Common.{
  if◌then◌else◌, ◌==◌, ℕ, ◌≡◌, ◌≢◌, ◌↔◌, refl, Bool, true, false, Option, List, [], ◌∷◌, arith,
  Bool-cases, inl, inr, nat_eq, All, filter, ap, ◌∙◌, sym,
}
use deepseek_harness.Lifecycle.Lock.{absent, held, release_singleton_lock}
use mathlib.Core.List.Memᴰ
use deepseek_harness.Lifecycle.Manager.{
  LifecycleManager, stopped, is_shut, begin_startup, mark_ready, Race, shutdown_begins,
  shutdown_ends,
}
use deepseek_harness.Lifecycle.Budget.{
  Call, begins, fails, readies, seconds, shuts, shut, apply, apply_all,
}

filter_only : (p : ℕ → Bool) (xs : List ℕ) (x : ℕ) → Memᴰ x (filter p xs) → Memᴰ x xs × (p x ≡ true)
filter_only p [] x m = absurd (Memᴰ.not-nil m)
filter_only p (y ∷ xs) x m = elim (Bool-cases (p y)) [
  | inr gone ↦ let rest = filter_only p xs x (rw gone at m) in (Memᴰ.tail rest.0, rest.1)
  | inl kept ↦ elim (Memᴰ.cases_cons {l = filter p xs} (rw kept at m)) [
    | inl here ↦ (Memᴰ.head here, ap p here ∙ kept)
    | inr later ↦ let rest = filter_only p xs x later in (Memᴰ.tail rest.0, rest.1)
  ]
]

filter_all : (p : ℕ → Bool) (xs : List ℕ) (x : ℕ) → Memᴰ x xs → p x ≡ true → Memᴰ x (filter p xs)
filter_all p [] x m h = elim m [ ]
filter_all p (y ∷ xs) x (Memᴰ.head e) h = rw (sym (ap p e) ∙ h) (Memᴰ.head e)
filter_all p (y ∷ xs) x (Memᴰ.tail m) h = elim (Bool-cases (p y)) [
  | inr gone ↦ rw gone (filter_all p xs x m h)
  | inl kept ↦ rw kept (Memᴰ.tail (filter_all p xs x m h))
]

filter_iff :
    (p : ℕ → Bool) (xs : List ℕ) (x : ℕ) → Memᴰ x (filter p xs) ↔ (Memᴰ x xs × (p x ≡ true))
filter_iff p xs x = (filter_only p xs x, λ m. filter_all p xs x m.0 m.1)

abbrev pub IsShutCall : Call → Type 0
IsShutCall c = (c ≢ readies) × (c ≢ fails)

step_shut :
    (m : LifecycleManager) (c : Call)
    → is_shut m.state ≡ true
    → IsShutCall c
    → is_shut (apply m c).state ≡ true
unfolding apply
step_shut m begins h n = ground arith
step_shut m fails h n = absurd (n.1 refl)
step_shut m readies h n = absurd (n.0 refl)
step_shut m seconds h n = ground arith
step_shut m shuts h n = ground arith
step_shut m shut h n = refl

stays_shut :
    (m : LifecycleManager) (cs : List Call)
    → is_shut m.state ≡ true
    → All IsShutCall cs
    → is_shut (apply_all m cs).state ≡ true
unfolding apply_all
stays_shut m [] h a = h
stays_shut m (c ∷ cs) h a = stays_shut (apply m c) cs (step_shut m c h a.0) a.1

-- Once a shutdown has begun no startup is begun, as long as nothing is marked ready or failed.
shutdown_is_final :
    (m : LifecycleManager) (cs : List Call)
    → is_shut m.state ≡ true
    → All IsShutCall cs
    → (begin_startup (apply_all m cs)).0 ≡ false
unfolding begin_startup
shutdown_is_final m cs h a = let after = stays_shut m cs h a in ground arith

shut_for_good :
    (m : LifecycleManager) (cs : List Call)
    → is_shut m.state ≡ true
    → All IsShutCall cs
    → ((shutdown_begins (apply_all m cs)).0 ≡ false) × ((begin_startup (apply_all m cs)).0 ≡ false)
unfolding begin_startup shutdown_begins
shut_for_good m cs h a = let after = stays_shut m cs h a in ground arith

-- A shutdown, whichever way its cleanup ends. From its beginning on and from its end on, through any
-- calls that mark nothing as ready or as failed, no second shutdown and no startup is begun. It kills the
-- processes that are still alive at its end and no others. Where its own lock file can be removed it is
-- gone, and that of another process is left.
pub graceful_shutdown_lem :
    (m : LifecycleManager) (cs : List Call) (cleanup : Option Race) (processes : List ℕ)
    (alive : ℕ → Bool) (unlinks : Bool) (self owner : ℕ)
    → is_shut m.state ≡ false
    → All IsShutCall cs
    → let begun = (shutdown_begins m).1 in
      let end = shutdown_ends begun cleanup processes alive unlinks self (held owner) in
      ((shutdown_begins m).0 ≡ true)
      × ((shutdown_begins (apply_all begun cs)).0 ≡ false)
      × ((begin_startup (apply_all begun cs)).0 ≡ false)
      × ((shutdown_begins (apply_all end.manager cs)).0 ≡ false)
      × ((begin_startup (apply_all end.manager cs)).0 ≡ false)
      × ((pid : ℕ) → Memᴰ pid end.killed ↔ (Memᴰ pid processes × (alive pid ≡ true)))
      × (end.lock_file
          ≡ (if owner == self then (if unlinks then absent else held owner) else held owner))
unfolding shutdown_begins shutdown_ends
graceful_shutdown_lem m cs cleanup processes alive unlinks self owner up a =
    let begun = (shutdown_begins m).1 in
    let stopping_now : is_shut begun.state ≡ true = rw (up, shutdown_begins) refl in
    let first = shut_for_good begun cs stopping_now a in
    let later = shut_for_good (record begun { state = stopped }) cs refl a in
    (
      rw up refl,
      first.0,
      first.1,
      later.0,
      later.1,
      filter_iff alive processes,
      unfold release_singleton_lock in ground arith,
    )

-- A late `markReady` ends the shutdown: a startup is begun after it, also once the manager is stopped.
mark_ready_reopens :
    (m : LifecycleManager)
    → is_shut m.state ≡ true
    → ((begin_startup m).0 ≡ false) × ((begin_startup (mark_ready m)).0 ≡ true)
unfolding begin_startup mark_ready
mark_ready_reopens m h = ground arith
