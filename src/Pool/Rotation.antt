-- ===== src/Pool/Rotation.antt =====
-- packages/opencode-adapter/src/pool.ts: what `pickHealthy` chooses, and in which turn.
use mathlib.Core.Option
use mathlib.Core.List.{Memᴰ}
use mathlib.Core.List.Memᴰ
use native.Mathlib.Nat.{mod-lt, mod-eq_of_lt, add-mul-mod_self_left, mod-add-div}
use native.Mathlib.Decide.{dec_le}
use deepseek_harness.Common.{
  zero_or_pos, ℕ, zero, suc, ◌+◌, ◌-◌, ◌*◌, ◌/◌, ◌%◌, ◌≤◌, ◌<◌, ◌≡◌, ◌↔◌, refl, sym, ◌∙◌, ap, subst,
  get_elem?-All, filter-All, inl, inr, Bool, true, false, none, some, List, [], ◌∷◌, map, arith,
  All, Bool-cases, length, filter, contains, get_elem?, get_elem?-lt, filter-eq-nil_iff, nat_eq,
  ◌==◌,
}
use deepseek_harness.Common.JsMap.{values}
use deepseek_harness.Pool.State.{Pool, ManagedWorker, WorkerHandle, ready, to_public}
use deepseek_harness.Pool.Select.{is_eligible, eligible, pick_healthy}

module _ {ℓ} {A : Type ℓ} where
  get_elem?-Memᴰ : (xs : List A) (i : ℕ) {a : A} → get_elem? xs i ≡ some a → Memᴰ a xs
  get_elem?-Memᴰ [] i h = absurd (cc h)
  get_elem?-Memᴰ (x ∷ xs) zero h = Memᴰ.head (cc h)
  get_elem?-Memᴰ (x ∷ xs) (suc i) h = Memᴰ.tail (get_elem?-Memᴰ xs i h)

  filter-Memᴰ : (p : A → Bool) (xs : List A) {a : A} → Memᴰ a (filter p xs) → Memᴰ a xs
  filter-Memᴰ p [] m = m
  filter-Memᴰ p (x ∷ xs) {a} m = elim (Bool-cases (p x)) [
    | inl kept ↦ elim (Memᴰ.cases_cons {l = filter p xs} (rw kept at m)) [
      | inl here ↦ Memᴰ.head here
      | inr later ↦ Memᴰ.tail (filter-Memᴰ p xs later)
    ]
    | inr gone ↦ Memᴰ.tail (filter-Memᴰ p xs (rw gone at m))
  ]

-- The worker of the map that a pick stands for.
abbrev pub IsPick : Pool → List ℕ → ℕ → WorkerHandle → ManagedWorker → Type 0
IsPick p skip now h w =
    Memᴰ w (map p.heap (values p.worker_map))
    × (h ≡ to_public w)
    × (w.status ≡ ready)
    × (contains skip w.id ≡ false)
    × (w.parked_until ≤ now)

is_eligible-true :
    (skip : List ℕ) (now : ℕ) (w : ManagedWorker)
    → is_eligible skip now w ≡ true
    → (w.status ≡ ready) × (contains skip w.id ≡ false) × (w.parked_until ≤ now)
is_eligible-true skip now w h = ground arith

eligible_at :
    (p : Pool) (skip : List ℕ) (now i : ℕ) (w : ManagedWorker)
    → get_elem? (eligible p skip now) i ≡ some w
    → IsPick p skip now (to_public w) w
eligible_at p skip now i w e =
    let all = map p.heap (values p.worker_map) in
    let test = is_eligible skip now in
    let passed = get_elem?-All (λ v. test v ≡ true) (filter test all) i (filter-All test all) e in
    let parts = is_eligible-true skip now w passed in
    (filter-Memᴰ test all (get_elem?-Memᴰ (filter test all) i e), refl, parts.0, parts.1, parts.2)

-- The turn of a pick, where some worker is eligible.
pick_healthy_turn :
    (p : Pool) (skip : List ℕ) (now : ℕ)
    → 0 < length (eligible p skip now)
    → (w : ManagedWorker) × (get_elem?
          (eligible p skip now)
          (p.rr_index % length (eligible p skip now))
        ≡ some w)
      × (pick_healthy p skip now ≡ (some (to_public w), record p { rr_index = p.rr_index + 1 }))
unfolding pick_healthy
pick_healthy_turn p skip now h =
    let xs = eligible p skip now in
    let (w, e) = get_elem?-lt xs (p.rr_index % length xs) (mod-lt p.rr_index h) in
    let busy : (length xs == 0) ≡ false = ground arith in (w, e, rw (busy, e, pick_healthy))

pick_healthy_idle :
    (p : Pool) (skip : List ℕ) (now : ℕ)
    → length (eligible p skip now) ≡ 0
    → pick_healthy p skip now ≡ (none, p)
unfolding pick_healthy
pick_healthy_idle p skip now h = rw (h, pick_healthy)

-- A worker that is picked is in the map, ready, not to be skipped and not parked any more.
pub pick_healthy_sound :
    (p : Pool) (skip : List ℕ) (now : ℕ) (h : WorkerHandle)
    → (pick_healthy p skip now).0 ≡ some h
    → (w : ManagedWorker) × IsPick p skip now h w
pick_healthy_sound p skip now h e = elim (zero_or_pos (length (eligible p skip now))) [
  | inl none_left ↦ absurd (cc (pick_healthy_idle p skip now none_left))
  | inr some_left ↦
      let (w, at, picked) = pick_healthy_turn p skip now some_left in
      let same : to_public w ≡ h = cc (picked) in
      (w, subst (λ k. IsPick p skip now k w) same (eligible_at p skip now _ w at))
]

-- No worker is picked exactly when none is eligible.
pub pick_healthy-eq-none_iff :
    (p : Pool) (skip : List ℕ) (now : ℕ)
    → ((pick_healthy p skip now).0 ≡ none)
      ↔ All (λ w. is_eligible skip now w ≡ false) (map p.heap (values p.worker_map))
pick_healthy-eq-none_iff p skip now =
    let all = map p.heap (values p.worker_map) in
    let empty_iff = filter-eq-nil_iff (is_eligible skip now) all in
    (
      λ e. elim (zero_or_pos (length (eligible p skip now))) [
        | inl none_left ↦ empty_iff.0 none_left
        | inr some_left ↦ absurd (cc ((pick_healthy_turn p skip now some_left).2))
      ],
      λ a. ap (λ r. r.0) (pick_healthy_idle p skip now (empty_iff.1 a)),
    )

-- The pool after so many picks in a row.
unfoldable pub picked : Pool → List ℕ → ℕ → ℕ → Pool
picked p skip now zero = p
picked p skip now (suc k) = (pick_healthy (picked p skip now k) skip now).1

picked_lem :
    (p : Pool) (skip : List ℕ) (now k : ℕ)
    → 0 < length (eligible p skip now)
    → picked p skip now k ≡ record p { rr_index = p.rr_index + k }
unfolding picked
picked_lem p skip now zero h = ap (λ r. record p { rr_index = r }) (omega arith)
picked_lem p skip now (suc k) h =
    let q = record p { rr_index = p.rr_index + k } in
    let turn = (pick_healthy_turn q skip now h).2 in
    ap (λ s. (pick_healthy s skip now).1) (picked_lem p skip now k h)
    ∙ ap (λ s. s.1) turn
    ∙ ap (λ r. record p { rr_index = r }) (omega arith)

mod_of_round : (x n j q : ℕ) → j < n → x ≡ j + n * q → x % n ≡ j
mod_of_round x n j q h e = rw e (add-mul-mod_self_left j n q ∙ mod-eq_of_lt h)

-- The turn at which a place of the eligible list comes up.
turn_of : (rr n j : ℕ) → j < n → (i : ℕ) × (i < n) × ((rr + i) % n ≡ j)
turn_of rr n j h =
    let r_lt : rr % n < n = mod-lt rr (omega arith) in
    let whole = mod-add-div rr n in
    elim (dec_le (rr % n) j) [
      | yes le ↦ (j - rr % n, omega arith, mod_of_round _ n j (rr / n) h (omega arith))
      | no gt ↦ (j + n - rr % n, omega arith, mod_of_round _ n j (rr / n + 1) h (omega arith))
    ]

-- Round robin: while nothing else changes, each eligible worker is picked within as many picks as
-- there are eligible workers.
pub pick_healthy_fair :
    (p : Pool) (skip : List ℕ) (now j : ℕ)
    → j < length (eligible p skip now)
    → (i : ℕ) × (i < length (eligible p skip now))
      × ((pick_healthy (picked p skip now i) skip now).0
          ≡ Option.map to_public (get_elem? (eligible p skip now) j))
pick_healthy_fair p skip now j h =
    let n = length (eligible p skip now) in
    let (i, i_lt, place) = turn_of p.rr_index n j h in
    let some_left : 0 < n = omega arith in
    let (w, at, pick) =
      pick_healthy_turn (record p { rr_index = p.rr_index + i }) skip now some_left in
    let at_j : get_elem? (eligible p skip now) j ≡ some w =
      subst (λ k. get_elem? (eligible p skip now) k ≡ some w) place at in
    (
      i,
      i_lt,
      ap (λ s. (pick_healthy s skip now).0) (picked_lem p skip now i some_left)
          ∙ ap (λ s. s.0) pick
          ∙ sym (ap (Option.map to_public) at_j),
    )
