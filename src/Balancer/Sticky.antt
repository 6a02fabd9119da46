-- ===== src/Balancer/Sticky.antt =====
-- packages/opencode-adapter/src/lb.ts: `stickyId`, `resolveSticky` and `commitSticky`. A time before
-- an entry's `lastSeen` gives the age 0, which is no more expired than a negative one.
use deepseek_harness.Common.{
  ℕ, ◌-◌, String, Bool, not, ◌&&◌, Option, none, some, List, [], ◌∷◌, length, filter, find, ltb,
  ◌==◌, if◌then◌else◌, nat_eq, string_eq,
}
use deepseek_harness.Common.JsMap.{JsMap, get, set, delete}
use deepseek_harness.Pool.State.{WorkerHandle, is_ready}
use deepseek_harness.Balancer.State.{Lb, StickyEntry, sticky_ttl_ms}

-- The header `x-dsh-session-id`.
pub data Header : Type 0 where
  absent : Header
  one : String → Header
  many : List String → Header

abbrev first : List String → Option String
first [] = none
first (s ∷ rest) = some s

unfoldable pub sticky_id : Header → Option String
sticky_id absent = none
sticky_id (one sid) = some sid
sticky_id (many sids) = first sids

-- `if (!sidStr) return`: the empty text counts as no session.
abbrev pub session : Option String → Option String
session none = none
session (some sid) = if sid == "" then none else some sid

abbrev pub is_expired : StickyEntry → ℕ → Bool
is_expired entry now = ltb sticky_ttl_ms (now - entry.last_seen)

abbrev pub serves : ℕ → WorkerHandle → Bool
serves id w = w.id == id && is_ready w.status

abbrev pub forget : Lb → String → Lb
forget lb sid = record lb { sticky = delete sid lb.sticky }

abbrev pub resolve_worker : Lb → String → Option WorkerHandle → Option WorkerHandle × Lb
resolve_worker lb sid none = (none, forget lb sid)
resolve_worker lb sid (some w) = (some w, lb)

abbrev pub resolve_entry :
    Lb → List WorkerHandle → String → ℕ → Option StickyEntry → Option WorkerHandle × Lb
resolve_entry lb workers sid now none = (none, lb)
resolve_entry lb workers sid now (some entry) =
    if is_expired entry now
    then (none, forget lb sid)
    else resolve_worker
        (record lb { sticky = set sid (record entry { last_seen = now }) lb.sticky }) sid
        (find (serves entry.worker_id) workers)

abbrev pub resolve_session : Lb → List WorkerHandle → ℕ → Option String → Option WorkerHandle × Lb
resolve_session lb workers now none = (none, lb)
resolve_session lb workers now (some sid) = resolve_entry lb workers sid now (get sid lb.sticky)

unfoldable pub resolve_sticky :
    Lb → List WorkerHandle → Option String → ℕ → Option WorkerHandle × Lb
resolve_sticky lb workers sid now = resolve_session lb workers now (session sid)

-- The sweep of a map with more than a hundred entries.
abbrev pub sweep : JsMap String StickyEntry → ℕ → JsMap String StickyEntry
sweep entries now = filter (λ b. not (is_expired b.1 now)) entries

abbrev pub commit_session : Lb → ℕ → ℕ → Option String → Lb
commit_session lb worker_id now none = lb
commit_session lb worker_id now (some sid) =
    let entries = set sid (record { worker_id = worker_id; last_seen = now }) lb.sticky in
    record lb { sticky = if ltb 100 (length entries) then sweep entries now else entries }

unfoldable pub commit_sticky : Lb → Option String → ℕ → ℕ → Lb
commit_sticky lb sid worker_id now = commit_session lb worker_id now (session sid)
