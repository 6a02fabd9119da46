-- ===== src/Balancer/Alarm.antt =====
-- packages/opencode-adapter/src/lb.ts: when `onAllWorkersRateLimited` is called.
use deepseek_harness.Common.{
  ◌&&◌, ℕ, ◌+◌, ◌≤◌, ◌<◌, ◌≡◌, ◌⊎◌, refl, inl, inr, Bool, true, false, none, some, List, [], ◌∷◌,
  arith, All, length, Bool-cases, nat_eq, ◌==◌, ap, ◌∙◌, if◌then◌else◌,
}
use deepseek_harness.Common.JsMap.{JsMap, get, set, delete, get-set, get-delete}
use deepseek_harness.Common.JsMap.Entries.{All-mono}
use deepseek_harness.Pool.State.{WorkerHandle}
use deepseek_harness.Balancer.State.{Lb, Options}
use deepseek_harness.Balancer.RateLimit.{
  ready_workers, evaluate_pool_rate_limit, mark_outcome, note_worker_outcome,
}
use deepseek_harness.Balancer.Rated.{
  IsRated, evaluate_pool_rate_limit-Rings, RingsOn, mark_outcome-get, RingsOn-iff,
  mark_outcome_alarms, evaluate-marks,
}

-- An outcome calls `onAllWorkersRateLimited` once, if it is handled, the outcome is no 429 or the
-- handler has not been called since the last one that was none, some worker is ready, and each ready
-- worker has this 429, or is another worker whose last 429 is at most half a minute old; else it does
-- not call it. It disarms the alarm in the first case, and arms it in the other if it is no 429. After it
-- the time of the last 429 of the worker is now if it is one, and else forgotten; the others' stay.
pub note_worker_outcome-Rings :
    (opts : Options) (lb : Lb) (workers : List WorkerHandle) (id : ℕ) (limited : Bool) (now : ℕ)
    → ((RingsOn opts lb workers id limited now
          × ((note_worker_outcome opts lb workers id limited now).alarms ≡ lb.alarms + 1)
          × ((note_worker_outcome opts lb workers id limited now).all_rate_limited_latched ≡ true))
        ⊎ ((¬ RingsOn opts lb workers id limited now)
            × ((note_worker_outcome opts lb workers id limited now).alarms ≡ lb.alarms)
            × ((note_worker_outcome opts lb workers id limited now).all_rate_limited_latched
                ≡ (limited && lb.all_rate_limited_latched))))
      × ((j : ℕ)
          → get j (note_worker_outcome opts lb workers id limited now).last_rate_limit_at ≡ (
              if id == j
              then (if limited then some now else none)
              else get j lb.last_rate_limit_at))
unfolding note_worker_outcome
note_worker_outcome-Rings opts lb workers id limited now =
    let marked = mark_outcome lb id limited now in
    let (same, latch) = mark_outcome_alarms lb id limited now in
    let rings = RingsOn-iff opts lb workers id limited now in
    (
      elim (evaluate_pool_rate_limit-Rings opts marked workers now) [
        | inl (r, e) ↦ inl (
          rings.0 r,
          ap (λ b. b.alarms) e ∙ ap (λ n. n + 1) same,
          ap (λ b. b.all_rate_limited_latched) e,
        )
        | inr (q, e) ↦ inr (
          (λ r. q (rings.1 r)),
          ap (λ b. b.alarms) e ∙ same,
          ap (λ b. b.all_rate_limited_latched) e ∙ latch,
        )
      ],
      λ j.
          ap (get j) (evaluate-marks opts marked workers now)
          ∙ mark_outcome-get lb id limited now j,
    )

note_worker_outcome_latches :
    (opts : Options) (lb : Lb) (workers : List WorkerHandle) (id : ℕ) (limited : Bool) (now : ℕ)
    → (((note_worker_outcome opts lb workers id limited now).all_rate_limited_latched ≡ true)
        × ((note_worker_outcome opts lb workers id limited now).alarms ≡ lb.alarms + 1))
      ⊎ ((note_worker_outcome opts lb workers id limited now).alarms ≡ lb.alarms)
unfolding note_worker_outcome
note_worker_outcome_latches opts lb workers id limited now = elim (Bool-cases limited) [
  | inl e ↦
      rw e (elim (evaluate_pool_rate_limit-Rings opts (mark_outcome lb id true now) workers now) [
        | inl (r, e) ↦ inl (ap (λ b. b.all_rate_limited_latched) e, ap (λ b. b.alarms) e)
        | inr (q, e) ↦ inr (ap (λ b. b.alarms) e)
      ])
  | inr e ↦
      rw e (elim (evaluate_pool_rate_limit-Rings opts (mark_outcome lb id false now) workers now) [
        | inl (r, e) ↦ inl (ap (λ b. b.all_rate_limited_latched) e, ap (λ b. b.alarms) e)
        | inr (q, e) ↦ inr (ap (λ b. b.alarms) e)
      ])
]

-- An outcome of a worker: the pool at that time, the worker, whether it was a 429, and the time.
pub record Outcome : Type 0 where
  pub workers : List WorkerHandle
  pub id : ℕ
  pub limited : Bool
  pub now : ℕ

abbrev pub note_all : Options → Lb → List Outcome → Lb
note_all opts lb [] = lb
note_all opts lb (o ∷ os) =
    note_all opts (note_worker_outcome opts lb o.workers o.id o.limited o.now) os

latched_silent :
    (opts : Options) (lb : Lb) (os : List Outcome)
    → lb.all_rate_limited_latched ≡ true
    → All (λ o. o.limited ≡ true) os
    → (note_all opts lb os).alarms ≡ lb.alarms
unfolding note_worker_outcome evaluate_pool_rate_limit
latched_silent opts lb [] h a = refl
latched_silent opts lb (o ∷ os) h a =
    let noted = note_worker_outcome opts lb o.workers o.id o.limited o.now in
    let stays : (noted.all_rate_limited_latched ≡ true) × (noted.alarms ≡ lb.alarms) =
      rw (a.0, h) (refl, refl) in
    latched_silent opts noted os stays.0 a.1 ∙ stays.1

-- However many 429s come in a row, from whichever workers, the alarm is called at most once.
note_all_once :
    (opts : Options) (lb : Lb) (os : List Outcome)
    → All (λ o. o.limited ≡ true) os
    → (note_all opts lb os).alarms ≤ lb.alarms + 1
note_all_once opts lb [] a = omega arith
note_all_once opts lb (o ∷ os) a =
    let noted = note_worker_outcome opts lb o.workers o.id o.limited o.now in
    elim (note_worker_outcome_latches opts lb o.workers o.id o.limited o.now) [
      | inl (latched, more) ↦ let rest = latched_silent opts noted os latched a.1 in omega arith
      | inr same ↦ let rest = note_all_once opts noted os a.1 in omega arith
    ]

set-delete-IsRated :
    (marks : JsMap ℕ ℕ) (id now : ℕ) (xs : List WorkerHandle)
    → All (IsRated marks now) xs
    → All (IsRated (set id now (delete id marks)) now) xs
set-delete-IsRated marks id now xs = All-mono xs (λ w (at, found, young).
    let seen : get w.id (set id now (delete id marks))
        ≡ (if id == w.id then some now else if id == w.id then none else get w.id marks) =
      ground (get-set id w.id now (delete id marks), get-delete id w.id marks, arith) in
    elim (Bool-cases (id == w.id)) [
      | inl same ↦ (now, seen ∙ rw same refl, omega arith)
      | inr other ↦ (at, seen ∙ rw other found, young)
    ])

-- While each ready worker is rated, an answer of a worker other than a 429, such as a 500, followed
-- by a 429 of it calls the alarm once more: it takes no successful response in between.
alarm_repeats :
    (opts : Options) (lb : Lb) (workers : List WorkerHandle) (id now : ℕ)
    → opts.has_alarm ≡ true
    → 0 < length (ready_workers workers)
    → All (IsRated lb.last_rate_limit_at now) (ready_workers workers)
    → (note_all opts lb (
        record { workers = workers; id = id; limited = false; now = now }
        ∷ record { workers = workers; id = id; limited = true; now = now }
        ∷ [])).alarms
      ≡ lb.alarms + 1
unfolding note_worker_outcome
alarm_repeats opts lb workers id now handled busy rated =
    let second =
      λ (b : Lb). evaluate_pool_rate_limit opts (mark_outcome b id true now) workers now in
    elim (evaluate_pool_rate_limit-Rings opts (mark_outcome lb id false now) workers now) [
      | inl (r, e) ↦ ap (λ b. (second b).alarms) e
      | inr (q, e) ↦
          ap (λ b. (second b).alarms) e
          ∙ elim (evaluate_pool_rate_limit-Rings opts
              (mark_outcome (mark_outcome lb id false now) id true now) workers now) [
                | inl (r, e) ↦ ap (λ b. b.alarms) e
                | inr (q, e) ↦ absurd (
                    q (
                      refl,
                      handled,
                      busy,
                      set-delete-IsRated lb.last_rate_limit_at id now (ready_workers workers) rated,
                    ))
              ]
    ]
