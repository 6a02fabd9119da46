-- ===== src/Pool/Invariant/Loops.antt =====
-- packages/opencode-adapter/src/pool.ts: the loops of the pool keep its invariant.
use deepseek_harness.Common.{
  ℕ, ◌<◌, ◌≡◌, refl, Bool, List, [], ◌∷◌, arith, All, filter, nat_eq, if◌then◌else◌,
}
use deepseek_harness.Common.JsMap.{JsMap, delete, values, Uniq}
use deepseek_harness.Common.JsMap.Entries.{delete-Uniq, delete-All, values-All}
use deepseek_harness.Pool.State.{Pool, kill_child, perform}
use deepseek_harness.Pool.Control.{
  drop, revoke, kill_worker, revoke_all, kill_all, remove_all, drop_all, still_runs,
}
use deepseek_harness.Pool.Quiet.{Quiet, Quiet-refl}
use deepseek_harness.Pool.Invariant.{
  IsMapped, IsValid, Advances, Advances-refl, Advances-trans, Quiet-Advances, revoke-Advances,
}

-- A map with fewer entries is as good.
pub shrink-Advances :
    (p : Pool) (m : JsMap ℕ ℕ)
    → IsValid p
    → Uniq m
    → All (IsMapped p) m
    → Advances p (record p { worker_map = m })
shrink-Advances p m v u h = record {
  valid = record {
    at_least = v.at_least;
    at_most = v.at_most;
    uniq = u;
    mapped = h;
    fresh = v.fresh;
    bound = v.bound;
  };
  grows = omega arith;
  same_captured = λ a k. refl;
  newer = λ a k. omega arith;
}

-- The addresses that a loop goes over are allocated.
abbrev pub Known : Pool → List ℕ → Type 0
Known p addrs = All (λ a. a < p.next) addrs

pub values-Known : (p : Pool) → IsValid p → Known p (values p.worker_map)
values-Known p v = values-All (IsMapped p) p.worker_map (λ k a h. h.0) v.mapped

pub filter-Known :
    (p : Pool) (keep : ℕ → Bool) (addrs : List ℕ) → Known p addrs → Known p (filter keep addrs)
filter-Known p keep [] h = tt
filter-Known p keep (a ∷ addrs) h = ground (arith, filter-Known p keep addrs h.1)

pub revoke-next : (p : Pool) (a : ℕ) → (revoke p a).next ≡ p.next
unfolding revoke
revoke-next p a = refl

pub kill_worker-Quiet : (p : Pool) (a : ℕ) → Quiet p (kill_worker p a)
kill_worker-Quiet p a = ground arith

pub kill_all-Quiet : (p : Pool) (addrs : List ℕ) → Quiet p (kill_all p addrs)
unfolding kill_all
kill_all-Quiet p [] = Quiet-refl p
kill_all-Quiet p (a ∷ addrs) = ground (arith, kill_all-Quiet (kill_worker p a) addrs)

pub revoke_all-Advances :
    (p : Pool) (addrs : List ℕ) → IsValid p → Known p addrs → Advances p (revoke_all p addrs)
unfolding revoke_all
revoke_all-Advances p [] v h = Advances-refl p v
revoke_all-Advances p (a ∷ addrs) v h =
    let q = revoke p a in
    let first = revoke-Advances p a v h.0 in
    Advances-trans p q _ first (revoke_all-Advances q addrs first.valid (rw (revoke-next p a) h.1))

pub remove_all-Advances :
    (p : Pool) (addrs : List ℕ) → IsValid p → Known p addrs → Advances p (remove_all p addrs)
unfolding remove_all
remove_all-Advances p [] v h = Advances-refl p v
remove_all-Advances p (a ∷ addrs) v h =
    let q = revoke p a in
    let r = kill_worker q a in
    let revoked = revoke-Advances p a v h.0 in
    let killed = Quiet-Advances q r revoked.valid (kill_worker-Quiet q a) in
    let same : r.next ≡ p.next = cc ((kill_worker-Quiet q a).same_next, revoke-next p a) in
    Advances-trans p q _ revoked
      (Advances-trans q r _ killed (remove_all-Advances r addrs killed.valid (rw same h.1)))

pub delete-Advances :
    (p : Pool) (id : ℕ) → IsValid p → Advances p (record p { worker_map = delete id p.worker_map })
delete-Advances p id v =
    shrink-Advances p (delete id p.worker_map) v (delete-Uniq id p.worker_map v.uniq)
      (delete-All (IsMapped p) id p.worker_map v.mapped)

drop-Advances : (p : Pool) (a : ℕ) → IsValid p → Advances p (drop p a)
unfolding drop
drop-Advances p a v =
    let q = if still_runs (p.heap a).proc then perform p (kill_child a) else p in
    let killed : Advances p q = Quiet-Advances p q v (ground arith) in
    Advances-trans p q (drop p a) killed (delete-Advances q (p.heap a).id killed.valid)

pub drop_all-Advances : (p : Pool) (addrs : List ℕ) → IsValid p → Advances p (drop_all p addrs)
unfolding drop_all
drop_all-Advances p [] v = Advances-refl p v
drop_all-Advances p (a ∷ addrs) v =
    let q = drop p a in
    let dropped = drop-Advances p a v in
    Advances-trans p q (drop_all q addrs) dropped (drop_all-Advances q addrs dropped.valid)
