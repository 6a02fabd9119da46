-- ===== src/Balancer/Rated.antt =====
-- packages/opencode-adapter/src/lb.ts: which workers are rated, before and after an outcome.
use deepseek_harness.Common.{
  sym, ◌≢◌, ◌&&◌, ℕ, ◌+◌, ◌≤◌, ◌<◌, ◌≡◌, ◌↔◌, ◌⊎◌, refl, inl, inr, Bool, true, false, Option, none,
  some, List, [], ◌∷◌, arith, All, length, Bool-cases, nat_eq, ◌==◌, ap, ◌∙◌, if◌then◌else◌,
}
use deepseek_harness.Common.JsMap.{JsMap, get, get-set, get-delete}
use deepseek_harness.Common.JsMap.Entries.{All-mono}
use deepseek_harness.Pool.State.{WorkerHandle}
use deepseek_harness.Balancer.State.{Lb, Options}
use deepseek_harness.Balancer.RateLimit.{
  is_fresh, ready_workers, all_freshly_rated, evaluate_pool_rate_limit, mark_outcome,
}

-- The last 429 of a worker is known and at most half a minute old.
abbrev pub IsRated : JsMap ℕ ℕ → ℕ → WorkerHandle → Type 0
IsRated marks now w = (at : ℕ) × (get w.id marks ≡ some at) × (now ≤ at + 30000)

is_fresh_iff :
    (o : Option ℕ) (now : ℕ)
    → (is_fresh o now ≡ true) ↔ ((at : ℕ) × (o ≡ some at) × (now ≤ at + 30000))
is_fresh_iff none now = ((λ h. absurd (cc h)), λ h. let (at, e, le) = h in absurd (cc e))
is_fresh_iff (some t) now = (
  (λ h. (t, refl, ground arith)),
  λ h. let (at, e, le) = h in let e' : t ≡ at = cc e in ground arith,
)

all_freshly_rated_iff :
    (marks : JsMap ℕ ℕ) (xs : List WorkerHandle) (now : ℕ)
    → (all_freshly_rated marks xs now ≡ true) ↔ All (IsRated marks now) xs
all_freshly_rated_iff marks [] now = ((λ h. tt), λ h. refl)
all_freshly_rated_iff marks (w ∷ xs) now = elim (Bool-cases (is_fresh (get w.id marks) now)) [
  | inl fresh ↦ rw fresh (
    (λ h. ((is_fresh_iff (get w.id marks) now).0 fresh, (all_freshly_rated_iff marks xs now).0 h)),
    λ h. (all_freshly_rated_iff marks xs now).1 h.1,
  )
  | inr old ↦
      rw old
        ((λ h. absurd (cc h)), λ h. absurd (cc (old, (is_fresh_iff (get w.id marks) now).1 h.0)))
]

-- What makes the alarm ring: it is armed and handled, some worker is ready, and each ready worker is
-- rated.
abbrev pub Rings : Options → Lb → List WorkerHandle → ℕ → Type 0
Rings opts lb workers now =
    (lb.all_rate_limited_latched ≡ false)
    × (opts.has_alarm ≡ true)
    × (0 < length (ready_workers workers))
    × All (IsRated lb.last_rate_limit_at now) (ready_workers workers)

pub evaluate_pool_rate_limit-Rings :
    (opts : Options) (lb : Lb) (workers : List WorkerHandle) (now : ℕ)
    → (Rings opts lb workers now
        × (evaluate_pool_rate_limit opts lb workers now
            ≡ record lb { all_rate_limited_latched = true; alarms = lb.alarms + 1 }))
      ⊎ ((¬ Rings opts lb workers now) × (evaluate_pool_rate_limit opts lb workers now ≡ lb))
unfolding evaluate_pool_rate_limit
evaluate_pool_rate_limit-Rings opts lb workers now =
    let rated_iff = all_freshly_rated_iff lb.last_rate_limit_at (ready_workers workers) now in
    elim (Bool-cases (all_freshly_rated lb.last_rate_limit_at (ready_workers workers) now)) [
      | inl rated ↦ let each = rated_iff.0 rated in ground arith
      | inr fine ↦ inr ((λ r. absurd (cc (fine, rated_iff.1 r.3))), ground arith)
    ]

-- After an outcome of the worker with the id: its own last outcome was this 429, or it is another one
-- whose last 429 is at most half a minute old.
abbrev pub RatedAfter : Lb → ℕ → Bool → ℕ → WorkerHandle → Type 0
RatedAfter lb id limited now w =
    ((w.id ≡ id) × (limited ≡ true)) ⊎ ((w.id ≢ id) × IsRated lb.last_rate_limit_at now w)

-- What an outcome calls the alarm on: it is handled, it has not been called since the last outcome
-- that was no 429, some worker is ready, and each ready worker is rated after the outcome.
abbrev pub RingsOn : Options → Lb → List WorkerHandle → ℕ → Bool → ℕ → Type 0
RingsOn opts lb workers id limited now =
    (opts.has_alarm ≡ true)
    × ((limited ≡ false) ⊎ (lb.all_rate_limited_latched ≡ false))
    × (0 < length (ready_workers workers))
    × All (RatedAfter lb id limited now) (ready_workers workers)

-- The time that is known of the last 429 of each worker after an outcome.
pub mark_outcome-get :
    (lb : Lb) (id : ℕ) (limited : Bool) (now j : ℕ)
    → get j (mark_outcome lb id limited now).last_rate_limit_at
      ≡ (if id == j then (if limited then some now else none) else get j lb.last_rate_limit_at)
mark_outcome-get lb id true now j = get-set id j now lb.last_rate_limit_at ∙ refl
mark_outcome-get lb id false now j = get-delete id j lb.last_rate_limit_at ∙ refl

RatedAfter-other :
    (lb : Lb) (id : ℕ) (limited : Bool) (now : ℕ) (w : WorkerHandle)
    → (id == w.id) ≡ false
    → IsRated (mark_outcome lb id limited now).last_rate_limit_at now w
      ↔ RatedAfter lb id limited now w
RatedAfter-other lb id limited now w other =
    let differs : w.id ≢ id = λ e. absurd (cc (other, (nat_eq.decides id w.id).1 (sym e))) in
    let known = rw other at (mark_outcome-get lb id limited now w.id) in
    (
      (λ (at, e, le). inr (differs, (at, sym known ∙ e, le))),
      λ h. elim h [
        | inl (e, is_429) ↦ absurd (differs e)
        | inr (ne, (at, e, le)) ↦ (at, known ∙ e, le)
      ],
    )

RatedAfter-iff :
    (lb : Lb) (id : ℕ) (limited : Bool) (now : ℕ) (w : WorkerHandle)
    → IsRated (mark_outcome lb id limited now).last_rate_limit_at now w
      ↔ RatedAfter lb id limited now w
RatedAfter-iff lb id true now w = elim (Bool-cases (id == w.id)) [
  | inl same ↦ (
    (λ h. inl (sym ((nat_eq.decides id w.id).0 same), refl)),
    λ h. (now, rw same at (mark_outcome-get lb id true now w.id), omega arith),
  )
  | inr other ↦ RatedAfter-other lb id true now w other
]
RatedAfter-iff lb id false now w = elim (Bool-cases (id == w.id)) [
  | inl same ↦ (
    (λ (at, e, le). absurd (cc (e, rw same at (mark_outcome-get lb id false now w.id)))),
    λ h. elim h [
      | inl (e, is_429) ↦ absurd (cc is_429)
      | inr (ne, rated) ↦ absurd (ne (sym ((nat_eq.decides id w.id).0 same)))
    ],
  )
  | inr other ↦ RatedAfter-other lb id false now w other
]

pub RingsOn-iff :
    (opts : Options) (lb : Lb) (workers : List WorkerHandle) (id : ℕ) (limited : Bool) (now : ℕ)
    → Rings opts (mark_outcome lb id limited now) workers now
      ↔ RingsOn opts lb workers id limited now
RingsOn-iff opts lb workers id true now = (
  (λ r. (
    r.1,
    inr r.0,
    r.2,
    All-mono (ready_workers workers) (λ w h. (RatedAfter-iff lb id true now w).0 h) r.3,
  )),
  λ r. (
    elim r.1 [ inl e ↦ absurd (cc e) | inr e ↦ e ],
    r.0,
    r.2,
    All-mono (ready_workers workers) (λ w h. (RatedAfter-iff lb id true now w).1 h) r.3,
  ),
)
RingsOn-iff opts lb workers id false now = (
  (λ r. (
    r.1,
    inl refl,
    r.2,
    All-mono (ready_workers workers) (λ w h. (RatedAfter-iff lb id false now w).0 h) r.3,
  )),
  λ r. (
    refl,
    r.0,
    r.2,
    All-mono (ready_workers workers) (λ w h. (RatedAfter-iff lb id false now w).1 h) r.3,
  ),
)

pub mark_outcome_alarms :
    (lb : Lb) (id : ℕ) (limited : Bool) (now : ℕ)
    → ((mark_outcome lb id limited now).alarms ≡ lb.alarms)
      × ((mark_outcome lb id limited now).all_rate_limited_latched
          ≡ (limited && lb.all_rate_limited_latched))
mark_outcome_alarms lb id true now = (refl, refl)
mark_outcome_alarms lb id false now = (refl, refl)

pub evaluate-marks :
    (opts : Options) (lb : Lb) (workers : List WorkerHandle) (now : ℕ)
    → (evaluate_pool_rate_limit opts lb workers now).last_rate_limit_at ≡ lb.last_rate_limit_at
evaluate-marks opts lb workers now = elim (evaluate_pool_rate_limit-Rings opts lb workers now) [
  | inl (r, e) ↦ ap (λ b. b.last_rate_limit_at) e
  | inr (q, e) ↦ ap (λ b. b.last_rate_limit_at) e
]
