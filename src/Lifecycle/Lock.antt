-- ===== src/Lifecycle/Lock.antt =====
-- apps/shell/src/main/lifecycle-manager.ts: the singleton lock file. What the file system answers to
-- a write or a removal, and which processes are alive, are arguments.
use deepseek_harness.Common.{
  ℕ, Bool, true, false, ◌&&◌, Option, none, some, ◌==◌, ltb, nat_eq, if◌then◌else◌,
}

-- The file: absent, not to be parsed, with no positive number as its `pid`, or with that pid.
pub data LockFile : Type 0 where
  absent corrupt no_pid : LockFile
  held : ℕ → LockFile

pub data LockResult : Type 0 where
  locked not_locked : LockResult
  existing : ℕ → LockResult

-- The pid of a live owner.
abbrev pub live_owner : (ℕ → Bool) → LockFile → Option ℕ
live_owner alive (held pid) = if ltb 0 pid && alive pid then some pid else none
live_owner alive _ = none

-- `try { unlinkSync(lockPath) } catch {}`.
abbrev pub unlink : LockFile → Bool → LockFile
unlink file true = absent
unlink file false = file

-- The first half of `acquireSingletonLock`: the check. It finds a live owner, or removes a stale or
-- corrupt file.
abbrev pub remove_stale : Option ℕ → Bool → LockFile → Option ℕ × LockFile
remove_stale (some pid) unlinks file = (some pid, file)
remove_stale none unlinks file = (none, unlink file unlinks)

unfoldable pub check_lock : (ℕ → Bool) → Bool → LockFile → Option ℕ × LockFile
check_lock alive unlinks absent = (none, absent)
check_lock alive unlinks file = remove_stale (live_owner alive file) unlinks file

-- The second half: the write.
unfoldable pub write_lock : ℕ → Bool → LockFile → LockResult × LockFile
write_lock self true file = (locked, held self)
write_lock self false file = (not_locked, file)

abbrev pub write_checked : Bool → ℕ → Option ℕ × LockFile → LockResult × LockFile
unfolding write_lock
write_checked writes self (some pid, file) = (existing pid, file)
write_checked writes self (none, file) = write_lock self writes file

-- `acquireSingletonLock` of the process `self`.
unfoldable pub acquire_singleton_lock :
    (ℕ → Bool) → Bool → Bool → ℕ → LockFile → LockResult × LockFile
unfolding check_lock write_lock
acquire_singleton_lock alive unlinks writes self file =
    write_checked writes self (check_lock alive unlinks file)

-- `releaseSingletonLock` of the process `self`.
unfoldable pub release_singleton_lock : Bool → ℕ → LockFile → LockFile
release_singleton_lock unlinks self (held pid) =
    if pid == self then unlink (held pid) unlinks else held pid
release_singleton_lock unlinks self file = file
