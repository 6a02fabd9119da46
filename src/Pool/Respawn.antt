-- ===== src/Pool/Respawn.antt =====
-- packages/opencode-adapter/src/pool.ts: the delays of respawns and the parking of workers.
use native.Mathlib.Nat.{one-le-pow, pow-le-pow_right}
use mathlib.Core.List.{Memᴰ}
use deepseek_harness.Pool.Quiet.{park_worker-Quiet}
use deepseek_harness.Common.{
  ap, ◌∙◌, sym, subst, ℕ, ◌+◌, ◌-◌, ◌≤◌, ◌<◌, ◌≡◌, some, List, [], ◌∷◌, map, arith, All, nat_eq,
}
use deepseek_harness.Common.JsMap.{JsMap, get, values}
use deepseek_harness.Common.JsMap.Entries.{Uniq-All}
use deepseek_harness.Pool.State.{
  Pool, WorkerHandle, backoff_ms, backoff_base_ms, backoff_max_ms, to_public,
}
use deepseek_harness.Pool.Select.{park_worker, pick_healthy}
use deepseek_harness.Pool.Invariant.{IsMapped, IsValid}
use deepseek_harness.Pool.Rotation.{pick_healthy_sound}

-- A delay is from one second to thirty, and does not fall as the attempts grow.
pub backoff_ms_bounds :
    (attempt : ℕ) → (backoff_base_ms ≤ backoff_ms attempt) × (backoff_ms attempt ≤ backoff_max_ms)
unfolding backoff_ms
backoff_ms_bounds attempt = omega (arith, one-le-pow (attempt - 1) 2 (omega arith))

backoff_ms_mono : (m n : ℕ) → m ≤ n → backoff_ms m ≤ backoff_ms n
unfolding backoff_ms
backoff_ms_mono m n h =
    omega (arith, pow-le-pow_right {n = 2} (omega arith) {i = m - 1} {j = n - 1} (omega arith))

Memᴰ-All {ℓ κ} : {A : Type ℓ} (P : A → Type κ) (a : A) (xs : List A) → Memᴰ a xs → All P xs → P a
Memᴰ-All P a xs (Memᴰ.head e) h = subst P (sym e) h.0
Memᴰ-All P a xs (Memᴰ.tail m) h = Memᴰ-All P a _ m h.1

parked_entries :
    (p q : Pool) (id a until : ℕ) (m : JsMap ℕ ℕ)
    → ((b : ℕ) → (q.heap b).id ≡ (p.heap b).id)
    → until ≤ (q.heap a).parked_until
    → All (IsMapped p) m
    → All (λ b. b.0 ≡ id → b.1 ≡ a) m
    → All (λ w. w.id ≡ id → until ≤ w.parked_until) (map q.heap (values m))
parked_entries p q id a until [] f h k u = tt
parked_entries p q id a until ((j, b) ∷ m) f h k u = (
  λ e. subst (λ c. until ≤ (q.heap c).parked_until) (sym (u.0 (cc (k.0.1, f b)))) h,
  parked_entries p q id a until m f h k.1 u.1,
)

park_worker_until :
    (p : Pool) (id a ms now : ℕ)
    → get id p.worker_map ≡ some a
    → 0 < ms
    → now + ms ≤ ((park_worker p id ms now).heap a).parked_until
unfolding park_worker
park_worker_until p id a ms now g m = ground arith

-- A parked worker is not picked before its time, whatever is skipped.
parked_not_picked :
    (p : Pool) (id a ms now later : ℕ) (skip : List ℕ) (h : WorkerHandle)
    → IsValid p
    → get id p.worker_map ≡ some a
    → 0 < ms
    → (pick_healthy (park_worker p id ms now) skip later).0 ≡ some h
    → h.id ≡ id
    → now + ms ≤ later
parked_not_picked p id a ms now later skip h v g m e same =
    let q = park_worker p id ms now in
    let quiet = park_worker-Quiet p id ms now in
    let (w, picked) = pick_healthy_sound q skip later h e in
    let entries =
      parked_entries p q id a (now + ms) p.worker_map quiet.same_id
        (park_worker_until p id a ms now g m) v.mapped (Uniq-All id p.worker_map v.uniq g) in
    let listed : Memᴰ w (map q.heap (values p.worker_map)) =
      subst (λ m. Memᴰ w (map q.heap (values m))) quiet.same_map picked.0 in
    let waits = Memᴰ-All (λ u. u.id ≡ id → now + ms ≤ u.parked_until) w _ listed entries in
    let its_id : w.id ≡ id = unfold to_public in (ap (λ k. k.id) (sym picked.1) ∙ same) in
    omega (arith, waits its_id, picked)
