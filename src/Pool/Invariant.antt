-- ===== src/Pool/Invariant.antt =====
-- packages/opencode-adapter/src/pool.ts: what holds of the pool between two events, and that every
-- event keeps it.
pub mod Loops
pub mod Steps
use deepseek_harness.Common.{ℕ, ◌+◌, ◌≤◌, ◌<◌, ◌≡◌, refl, Option, some, arith, All, nat_eq, ap}
use deepseek_harness.Common.JsMap.{get, get-set, Uniq}
use deepseek_harness.Common.JsMap.Entries.{All-mono, set-Uniq, set-All}
use deepseek_harness.Pool.State.{Pool, or_zero, pool_min_size, pool_max_size}
use deepseek_harness.Pool.Spawn.{install_handle}
use deepseek_harness.Pool.Control.{revoke}
use deepseek_harness.Pool.Quiet.{Quiet}

abbrev pub IsMapped : Pool → ℕ × ℕ → Type 0
IsMapped p b = (b.1 < p.next) × ((p.heap b.1).id ≡ b.0)

pub record IsValid (p : Pool) : Type 0 where
  pub at_least : pool_min_size ≤ p.size
  pub at_most : p.size ≤ pool_max_size
  pub uniq : Uniq p.worker_map
  pub mapped : All (IsMapped p) p.worker_map
  pub fresh :
      (a : ℕ) → a < p.next → (p.heap a).generation ≤ or_zero (get (p.heap a).id p.generations)
  pub bound : (a : ℕ) → a < p.next → p.captured a ≤ (p.heap a).generation

-- From one valid pool to the next: no handle is lost, its callbacks keep the generation that they
-- close over, and its own generation does not fall.
pub record Advances (p q : Pool) : Type 0 where
  pub valid : IsValid q
  pub grows : p.next ≤ q.next
  pub same_captured : (a : ℕ) → a < p.next → q.captured a ≡ p.captured a
  pub newer : (a : ℕ) → a < p.next → (p.heap a).generation ≤ (q.heap a).generation

pub Advances-refl : (p : Pool) → IsValid p → Advances p p
Advances-refl p v = record {
  valid = v;
  grows = omega arith;
  same_captured = λ a h. refl;
  newer = λ a h. omega arith;
}

pub Advances-trans : (p q r : Pool) → Advances p q → Advances q r → Advances p r
Advances-trans p q r e f = record {
  valid = f.valid;
  grows = omega (arith, e.grows, f.grows);
  same_captured = λ a h. cc (e.same_captured a h, f.same_captured a (omega (arith, e.grows)));
  newer = λ a h. omega (arith, e.newer a h, f.newer a (omega (arith, e.grows)));
}

Quiet-IsMapped :
    (p q : Pool) → Quiet p q → All (IsMapped p) p.worker_map → All (IsMapped q) q.worker_map
Quiet-IsMapped p q e h =
    rw e.same_map
      (All-mono p.worker_map (λ b k. (omega (arith, k.0, e.same_next), cc (e.same_id b.1, k.1))) h)

-- An event that is quiet keeps the invariant.
pub Quiet-Advances : (p q : Pool) → IsValid p → Quiet p q → Advances p q
Quiet-Advances p q v e = record {
  valid = record {
    at_least = omega (arith, v.at_least, e.same_size);
    at_most = omega (arith, v.at_most, e.same_size);
    uniq = rw e.same_map v.uniq;
    mapped = Quiet-IsMapped p q e v.mapped;
    fresh = λ a h.
        ground (
          arith,
          v.fresh a,
          e.same_next,
          e.same_id a,
          e.same_generation a,
          e.advances (p.heap a).id,
        );
    bound = λ a h. ground (arith, v.bound a, e.same_next, e.same_captured a, e.same_generation a);
  };
  grows = omega (arith, e.same_next);
  same_captured = λ a h. e.same_captured a;
  newer = λ a h. omega (arith, e.same_generation a);
}

pub revoke-Advances : (p : Pool) (a : ℕ) → IsValid p → a < p.next → Advances p (revoke p a)
unfolding revoke
revoke-Advances p a v h = record {
  valid = record {
    at_least = v.at_least;
    at_most = v.at_most;
    uniq = v.uniq;
    mapped = All-mono p.worker_map (λ b k. ground arith) v.mapped;
    fresh = λ b k. ground (
      arith,
      v.fresh b,
      get-set (p.heap a).id (p.heap b).id (or_zero (get (p.heap a).id p.generations) + 1)
          p.generations,
      get-set (p.heap a).id (p.heap a).id (or_zero (get (p.heap a).id p.generations) + 1)
          p.generations,
    );
    bound = λ b k. ground (arith, v.bound b, v.fresh b);
  };
  grows = omega arith;
  same_captured = λ b k. refl;
  newer = λ b k. ground (arith, v.fresh b);
}

pub install_handle-Advances :
    (p : Pool) (id generation : ℕ) (existing : Option ℕ) (port now : ℕ)
    → IsValid p
    → get id p.generations ≡ some generation
    → Advances p (install_handle p id generation existing port now)
unfolding install_handle
install_handle-Advances p id generation existing port now v g = record {
  valid = record {
    at_least = v.at_least;
    at_most = v.at_most;
    uniq = set-Uniq id p.next p.worker_map v.uniq;
    mapped =
        set-All (IsMapped (install_handle p id generation existing port now)) id p.next p.worker_map
          (ground arith) (All-mono p.worker_map (λ b k. ground arith) v.mapped);
    fresh = λ b k. ground (arith, v.fresh b, ap or_zero g);
    bound = λ b k. ground (arith, v.bound b);
  };
  grows = omega arith;
  same_captured = λ b k. ground arith;
  newer = λ b k. ground arith;
}
