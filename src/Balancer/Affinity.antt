-- ===== src/Balancer/Affinity.antt =====
-- packages/opencode-adapter/src/lb.ts: a session stays with its worker.
use mathlib.Core.List.{Memᴰ}
use deepseek_harness.Common.{
  sym, subst, not_true, ℕ, ◌+◌, ◌≤◌, ◌≡◌, ◌≢◌, ◌⊎◌, refl, inl, inr, Bool, true, false, not, Option,
  none, some, List, [], ◌∷◌, String, length, find, All, filter-All, arith, Bool-cases, Option-cases,
  ltb, ◌==◌, nat_eq, string_eq, ap, ◌∙◌,
}
use deepseek_harness.Common.JsMap.Entries.{All-mono}
use deepseek_harness.Common.JsMap.{JsMap, get, set, get-set, get-delete}
use deepseek_harness.Pool.State.{WorkerHandle, ready}
use deepseek_harness.Balancer.State.{Lb, StickyEntry, sticky_ttl_ms}
use deepseek_harness.Balancer.Sticky.{
  is_expired, serves, sweep, commit_session, resolve_entry, resolve_worker, resolve_sticky,
  commit_sticky, forget,
}

find-Memᴰ {ℓ} :
    {A : Type ℓ} (p : A → Bool) (xs : List A) {a : A}
    → find p xs ≡ some a
    → Memᴰ a xs × (p a ≡ true)
find-Memᴰ p [] h = absurd (cc h)
find-Memᴰ p (x ∷ xs) {a} h = elim (Bool-cases (p x)) [
  | inl hit ↦
      let same : x ≡ a = cc (rw hit at h) in
      (Memᴰ.head (sym same), subst (λ y. p y ≡ true) same hit)
  | inr miss ↦ let found = find-Memᴰ p xs (rw miss at h) in (Memᴰ.tail found.0, found.1)
]

-- A sweep keeps an entry that is not expired.
get-sweep :
    (sid : String) (m : JsMap String StickyEntry) (now : ℕ) {entry : StickyEntry}
    → get sid m ≡ some entry
    → is_expired entry now ≡ false
    → get sid (sweep m now) ≡ some entry
get-sweep sid [] now h f = absurd (cc h)
get-sweep sid ((k, v) ∷ m) now {entry} h f = elim (Bool-cases (k == sid)) [
  | inl here ↦
      let same : v ≡ entry = cc (rw here at h) in
      let stays : is_expired v now ≡ false = subst (λ x. is_expired x now ≡ false) (sym same) f in
      rw (stays, here) (ap some same)
  | inr there ↦
      let later = get-sweep sid m now (rw there at h) f in
      elim (Bool-cases (is_expired v now)) [
        | inl gone ↦ rw gone later
        | inr kept ↦ rw (kept, there) later
      ]
]

commit_session_found :
    (lb : Lb) (sid : String) (id now : ℕ)
    → get sid (commit_session lb id now (some sid)).sticky
      ≡ some (record { worker_id = id; last_seen = now })
commit_session_found lb sid id now =
    let entry : StickyEntry = record { worker_id = id; last_seen = now } in
    let m = set sid entry lb.sticky in
    let found : get sid m ≡ some entry =
      get-set sid sid entry lb.sticky ∙ rw ((string_eq.decides sid sid).1 refl) in
    elim (Bool-cases (ltb 100 (length m))) [
      | inl many ↦ rw many (get-sweep sid m now found (ground arith))
      | inr few ↦ rw few found
    ]

-- What happens to other sessions: a response of a worker to one, or a look-up for one.
pub data Use : Type 0 where
  commits : Option String → ℕ → ℕ → Use
  resolves : List WorkerHandle → Option String → ℕ → Use

abbrev pub used : Lb → Use → Lb
used lb (commits sid id now) = commit_sticky lb sid id now
used lb (resolves workers sid now) = (resolve_sticky lb workers sid now).1

abbrev pub used_all : Lb → List Use → Lb
used_all lb [] = lb
used_all lb (u ∷ us) = used_all (used lb u) us

-- The use is one of another session; a response comes within half an hour of the given time.
abbrev pub IsOther : String → ℕ → Use → Type 0
IsOther sid seen (commits other id now) = (other ≢ some sid) × (now ≤ seen + sticky_ttl_ms)
IsOther sid seen (resolves workers other now) = other ≢ some sid

module _ (sid : String) (entry : StickyEntry) where
  abbrev Keeps : Lb → Type 0
  Keeps lb = get sid lb.sticky ≡ some entry

  commit_session-Keeps :
      (lb : Lb) (other : String) (id now : ℕ)
      → other ≢ sid
      → is_expired entry now ≡ false
      → Keeps lb
      → Keeps (commit_session lb id now (some other))
  commit_session-Keeps lb other id now ne young h =
      let m = set other (record { worker_id = id; last_seen = now }) lb.sticky in
      let found : get sid m ≡ some entry =
        get-set other sid (record { worker_id = id; last_seen = now }) lb.sticky
        ∙ rw (not_true (other == sid) (λ e. ne ((string_eq.decides other sid).0 e))) h in
      elim (Bool-cases (ltb 100 (length m))) [
        | inl many ↦ rw many (get-sweep sid m now found young)
        | inr few ↦ rw few found
      ]

  forget-Keeps : (lb : Lb) (other : String) → other ≢ sid → Keeps lb → Keeps (forget lb other)
  forget-Keeps lb other ne h =
      get-delete other sid lb.sticky
      ∙ rw (not_true (other == sid) (λ e. ne ((string_eq.decides other sid).0 e))) h

  resolve_worker-Keeps :
      (lb : Lb) (other : String) (o : Option WorkerHandle)
      → other ≢ sid
      → Keeps lb
      → Keeps (resolve_worker lb other o).1
  resolve_worker-Keeps lb other none ne h = forget-Keeps lb other ne h
  resolve_worker-Keeps lb other (some w) ne h = h

  resolve_entry-Keeps :
      (lb : Lb) (workers : List WorkerHandle) (other : String) (now : ℕ) (o : Option StickyEntry)
      → other ≢ sid
      → Keeps lb
      → Keeps (resolve_entry lb workers other now o).1
  resolve_entry-Keeps lb workers other now none ne h = h
  resolve_entry-Keeps lb workers other now (some e) ne h = elim (Bool-cases (is_expired e now)) [
    | inl old ↦ rw old (forget-Keeps lb other ne h)
    | inr young ↦
        let seen : StickyEntry = record e { last_seen = now } in
        rw young (
          resolve_worker-Keeps (record lb { sticky = set other seen lb.sticky }) other
            (find (serves e.worker_id) workers) ne
            (get-set other sid seen lb.sticky
              ∙ rw (not_true (other == sid) (λ e. ne ((string_eq.decides other sid).0 e))) h))
  ]

  used-Keeps :
      (lb : Lb) (u : Use) (seen : ℕ)
      → IsOther sid seen u
      → entry.last_seen ≡ seen
      → Keeps lb
      → Keeps (used lb u)
  unfolding commit_sticky resolve_sticky
  used-Keeps lb (commits none id now) seen o e h = h
  used-Keeps lb (commits (some other) id now) seen o e h = elim (Bool-cases (other == "")) [
    | inl unnamed ↦ rw unnamed h
    | inr named ↦ rw named (
        commit_session-Keeps lb other id now (λ same. o.0 (ap some same)) (ground (arith, e, o.1))
          h)
  ]
  used-Keeps lb (resolves workers none now) seen o e h = h
  used-Keeps lb (resolves workers (some other) now) seen o e h = elim (Bool-cases (other == "")) [
    | inl unnamed ↦ rw (unnamed, used) h
    | inr named ↦
        rw (named, used)
          (resolve_entry-Keeps lb workers other now (get other lb.sticky) (λ same. o (ap some same))
            h)
  ]

  used_all-Keeps :
      (lb : Lb) (us : List Use) (seen : ℕ)
      → All (IsOther sid seen) us
      → entry.last_seen ≡ seen
      → Keeps lb
      → Keeps (used_all lb us)
  used_all-Keeps lb [] seen o e h = h
  used_all-Keeps lb (u ∷ us) seen o e h =
      used_all-Keeps (used lb u) us seen o.1 e (used-Keeps lb u seen o.0 e h)

-- Within half an hour of a response a session is sent to the worker that gave it, as long as a ready
-- worker of that id is in the pool: whatever look-ups for other sessions there are in between, and
-- responses to them within that time, with the sweeps of the map that these make.
pub resolve-commit_sticky :
    (lb : Lb) (workers : List WorkerHandle) (sid : String) (id seen now : ℕ) (w : WorkerHandle)
    (us : List Use)
    → sid ≢ ""
    → now ≤ seen + sticky_ttl_ms
    → All (IsOther sid seen) us
    → find (serves id) workers ≡ some w
    → (resolve_sticky (used_all (commit_sticky lb (some sid) id seen) us) workers (some sid) now).0
      ≡ some w
unfolding resolve_sticky
resolve-commit_sticky lb workers sid id seen now w us ne h others f =
    let named : (sid == "") ≡ false = not_true _ (λ e. ne ((string_eq.decides sid "").0 e)) in
    let entry : StickyEntry = record { worker_id = id; last_seen = seen } in
    let young : is_expired entry now ≡ false = ground arith in
    let start : get sid (commit_sticky lb (some sid) id seen).sticky ≡ some entry =
      unfold commit_sticky in rw named (commit_session_found lb sid id seen) in
    let kept =
      used_all-Keeps sid entry (commit_sticky lb (some sid) id seen) us seen others refl start in
    rw (named, kept, young, f)

resolve_entry_sound :
    (lb : Lb) (workers : List WorkerHandle) (sid : String) (now : ℕ) (w : WorkerHandle)
    (o : Option StickyEntry)
    → (resolve_entry lb workers sid now o).0 ≡ some w
    → (entry : StickyEntry) × (o ≡ some entry)
      × (now ≤ entry.last_seen + sticky_ttl_ms)
      × (w.id ≡ entry.worker_id)
      × (w.status ≡ ready)
      × Memᴰ w workers
resolve_entry_sound lb workers sid now w none h = absurd (cc h)
resolve_entry_sound lb workers sid now w (some entry) h = elim (Bool-cases (is_expired entry now)) [
  | inl old ↦ absurd (cc (rw old at h))
  | inr young ↦ elim (Option-cases (find (serves entry.worker_id) workers)) [
    | inl lost ↦ absurd (cc (rw (young, lost) at h))
    | inr (v, hit) ↦
        let same : v ≡ w = cc (rw (young, hit) at h) in
        let (listed, passed) = find-Memᴰ (serves entry.worker_id) workers (hit ∙ ap some same) in
        (entry, refl, ground arith, ground arith, ground arith, listed)
  ]
]

-- A worker that a session is sent to is in the pool, ready, and the one of an entry for the session
-- that was seen within half an hour.
resolve_sticky_sound :
    (lb : Lb) (workers : List WorkerHandle) (sid : Option String) (now : ℕ) (w : WorkerHandle)
    → (resolve_sticky lb workers sid now).0 ≡ some w
    → (s : String) × (entry : StickyEntry) × (sid ≡ some s)
      × (get s lb.sticky ≡ some entry)
      × (now ≤ entry.last_seen + sticky_ttl_ms)
      × (w.id ≡ entry.worker_id)
      × (w.status ≡ ready)
      × Memᴰ w workers
unfolding resolve_sticky
resolve_sticky_sound lb workers none now w h = absurd (cc h)
resolve_sticky_sound lb workers (some sid) now w h = elim (Bool-cases (sid == "")) [
  | inl unnamed ↦ absurd (cc (rw unnamed at h))
  | inr named ↦
      let h' : (resolve_entry lb workers sid now (get sid lb.sticky)).0 ≡ some w = rw named at h in
      let (entry, found, young, same_id, up, listed) =
        resolve_entry_sound lb workers sid now w (get sid lb.sticky) h' in
      (sid, entry, refl, found, young, same_id, up, listed)
]

-- After the response of a session the map has at most a hundred entries, or only entries that were
-- seen within half an hour.
commit_sticky_bounded :
    (lb : Lb) (sid : String) (id now : ℕ)
    → sid ≢ ""
    → (length (commit_sticky lb (some sid) id now).sticky ≤ 100)
      ⊎ All (λ b. now ≤ b.1.last_seen + sticky_ttl_ms) (commit_sticky lb (some sid) id now).sticky
unfolding commit_sticky
commit_sticky_bounded lb sid id now ne =
    let named : (sid == "") ≡ false = not_true _ (λ e. ne ((string_eq.decides sid "").0 e)) in
    let m = set sid (record { worker_id = id; last_seen = now }) lb.sticky in
    elim (Bool-cases (ltb 100 (length m))) [
      | inl many ↦
          rw (named, many)
            (inr (
              All-mono (sweep m now) (λ b h. ground arith)
                (filter-All (λ b. not (is_expired b.1 now)) m)))
      | inr few ↦ rw (named, few) (inl (ground arith))
    ]
