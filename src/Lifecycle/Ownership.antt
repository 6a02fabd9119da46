-- ===== src/Lifecycle/Ownership.antt =====
-- apps/shell/src/main/lifecycle-manager.ts: who owns the singleton lock.
use deepseek_harness.Common.{
  List, [], ◌∷◌, All, sym, subst, ℕ, ◌<◌, ◌≡◌, ◌≢◌, ◌⊎◌, refl, Bool, true, false, Option, none,
  some, arith, Bool-cases, inl, inr, ◌==◌, nat_eq, ◌&&◌, ltb, not_true,
}
use deepseek_harness.Lifecycle.Lock.{
  LockFile, LockResult, absent, corrupt, no_pid, held, locked, existing, live_owner, check_lock,
  write_lock, acquire_singleton_lock, release_singleton_lock, write_checked,
}

-- Where the lock file can be written, the lock is taken exactly if the file names no live process, and
-- then the file names the taker; else the live process is reported and the file is as before.
acquire_singleton_lock_decides :
    (alive : ℕ → Bool) (unlinks : Bool) (self : ℕ) (file : LockFile)
    → ((live_owner alive file ≡ none)
        × (acquire_singleton_lock alive unlinks true self file ≡ (locked, held self)))
      ⊎ ((pid : ℕ) × (live_owner alive file ≡ some pid)
          × (acquire_singleton_lock alive unlinks true self file ≡ (existing pid, file)))
unfolding acquire_singleton_lock
acquire_singleton_lock_decides alive unlinks self absent = inl (refl, refl)
acquire_singleton_lock_decides alive unlinks self corrupt = inl (refl, refl)
acquire_singleton_lock_decides alive unlinks self no_pid = inl (refl, refl)
acquire_singleton_lock_decides alive unlinks self (held pid) =
    elim (Bool-cases (ltb 0 pid && alive pid)) [
      | inl lives ↦ rw (lives, check_lock) (inr (pid, refl, refl))
      | inr gone ↦ rw (gone, check_lock) (inl (refl, refl))
    ]

acquired_file :
    (checked : Option ℕ × LockFile) (writes : Bool) (self : ℕ)
    → (write_checked writes self checked).0 ≡ locked
    → (write_checked writes self checked).1 ≡ held self
unfolding write_lock
acquired_file (none, file) true self h = refl
acquired_file (none, file) false self h = absurd (cc h)
acquired_file (some pid, file) writes self h = absurd (cc h)

acquire_held :
    (alive : ℕ → Bool) (unlinks writes : Bool) (owner self : ℕ)
    → 0 < owner
    → alive owner ≡ true
    → acquire_singleton_lock alive unlinks writes self (held owner) ≡ (existing owner, held owner)
unfolding acquire_singleton_lock
acquire_held alive unlinks writes owner self pos lives = ground arith

-- A call of another process: what is alive then, whether the file can be removed and written, and
-- the process.
pub record Attempt : Type 0 where
  pub alive : ℕ → Bool
  pub unlinks : Bool
  pub writes : Bool
  pub self : ℕ

abbrev pub acquires : Attempt → LockFile → LockResult × LockFile
acquires t file = acquire_singleton_lock t.alive t.unlinks t.writes t.self file

-- What each of the calls is told, and the file after them.
abbrev pub acquire_all : List Attempt → LockFile → List LockResult × LockFile
acquire_all [] file = ([], file)
acquire_all (t ∷ ts) file =
    let (told, next) = acquires t file in
    let (rest, last) = acquire_all ts next in (told ∷ rest, last)

acquire_all-held :
    (ts : List Attempt) (owner : ℕ)
    → 0 < owner
    → All (λ t. t.alive owner ≡ true) ts
    → All (λ told. told ≡ existing owner) (acquire_all ts (held owner)).0
      × ((acquire_all ts (held owner)).1 ≡ held owner)
acquire_all-held [] owner pos a = (tt, refl)
acquire_all-held (t ∷ ts) owner pos a =
    let first = acquire_held t.alive t.unlinks t.writes owner t.self pos a.0 in
    let rest = acquire_all-held ts owner pos a.1 in
    subst
      (λ out.
        All (λ told. told ≡ existing owner) (out.0 ∷ (acquire_all ts out.1).0)
        × ((acquire_all ts out.1).1 ≡ held owner))
      (sym first) ((refl, rest.0), rest.1)

-- Calls that come one after the other, each as a whole: once one has taken the lock, then as long as
-- its process lives all later ones are told of it, and none changes the file.
pub acquired_is_exclusive :
    (t : Attempt) (ts : List Attempt) (file : LockFile)
    → (acquires t file).0 ≡ locked
    → 0 < t.self
    → All (λ later. later.alive t.self ≡ true) ts
    → All (λ told. told ≡ existing t.self) (acquire_all ts (acquires t file).1).0
      × ((acquire_all ts (acquires t file).1).1 ≡ held t.self)
unfolding acquire_singleton_lock
acquired_is_exclusive t ts file taken pos lives =
    let owned : (acquires t file).1 ≡ held t.self =
      acquired_file (check_lock t.alive t.unlinks file) t.writes t.self taken in
    subst
      (λ f.
        All (λ told. told ≡ existing t.self) (acquire_all ts f).0
        × ((acquire_all ts f).1 ≡ held t.self))
      (sym owned) (acquire_all-held ts t.self pos lives)

-- A release removes the file of the process itself, where the file can be removed, and no other.
pub release_singleton_lock_own :
    (self pid : ℕ)
    → (release_singleton_lock true self (held self) ≡ absent)
      × (pid ≢ self → (unlinks : Bool) → release_singleton_lock unlinks self (held pid) ≡ held pid)
unfolding release_singleton_lock
release_singleton_lock_own self pid = (
  rw ((nat_eq.decides self self).1 refl) refl,
  λ n unlinks. rw (not_true (pid == self) (λ e. n ((nat_eq.decides pid self).0 e))) refl,
)

-- Two processes that check the lock before either writes it both take it.
both_lock :
    (alive : ℕ → Bool) (unlinks : Bool) (first second : ℕ) (file : LockFile)
    → live_owner alive file ≡ none
    → ((check_lock alive unlinks file).0 ≡ none)
      × ((check_lock alive unlinks (check_lock alive unlinks file).1).0 ≡ none)
      × ((write_lock first true (check_lock alive unlinks (check_lock alive unlinks file).1).1).0
          ≡ locked)
      × ((write_lock second true
            (write_lock first true
              (check_lock alive unlinks (check_lock alive unlinks file).1).1).1).0
          ≡ locked)
unfolding check_lock write_lock
both_lock alive unlinks first second absent free = (refl, refl, refl, refl)
both_lock alive unlinks first second corrupt free = elim (Bool-cases unlinks) [
  | inl u ↦ rw u (refl, refl, refl, refl)
  | inr u ↦ rw u (refl, refl, refl, refl)
]
both_lock alive unlinks first second no_pid free = elim (Bool-cases unlinks) [
  | inl u ↦ rw u (refl, refl, refl, refl)
  | inr u ↦ rw u (refl, refl, refl, refl)
]
both_lock alive unlinks first second (held pid) free = elim (Bool-cases unlinks) [
  | inl u ↦ rw (u, free, check_lock) (refl, refl, refl, refl)
  | inr u ↦ rw (u, free, check_lock) (rw free (refl, refl, refl, refl))
]
