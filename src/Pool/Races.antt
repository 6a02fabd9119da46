-- ===== src/Pool/Races.antt =====
-- packages/opencode-adapter/src/pool.ts: orders of events that the guards do not cover.
use deepseek_harness.Common.{
  ℕ, ◌+◌, ◌≤◌, ◌<◌, ◌≡◌, ◌≢◌, inl, inr, Bool, true, false, Option, none, some, List, [], ◌∷◌, arith,
  All, nat_eq, Bool-cases, subst, sym, ap, ◌∙◌, leb, filter,
}
use deepseek_harness.Common.JsMap.{JsMap, get, get-set, get-delete, values}
use deepseek_harness.Common.JsMap.Entries.{All-mono}
use deepseek_harness.Pool.State.{
  Pool, JsNumber, Effect, kill_tree, ChildProcess, running, exited, stopped, Phase, reserving,
  probing, sleeping, or_zero, normalize_pool_size,
}
use deepseek_harness.Pool.Spawn.{probe_settled, sleep_settled, child, port_reserved}
use deepseek_harness.Pool.Control.{
  revoke, kill_worker, remove_all, removals, resize, restart_worker, kill_and_respawn,
  restart_resumes, child_exits,
}
use deepseek_harness.Pool.Events.{step, run, exits, resumes, probe_answers, sleep_ends}
use deepseek_harness.Pool.Invariant.{IsValid, IsMapped}
use deepseek_harness.Pool.Ownership.{restart_worker-eq}
use deepseek_harness.Pool.Launches.{launches}

-- `restartWorker` of a worker without a pid calls `killTree` with -1, as the last thing that it does.
restart_kills_unknown_pid :
    (p q : Pool) (id a : ℕ)
    → get id p.worker_map ≡ some a
    → (p.heap a).pid ≡ none
    → restart_worker p id ≡ some q
    → (rest : List Effect) × (q.effects ≡ kill_tree none ∷ rest)
unfolding restart_worker
restart_kills_unknown_pid p q id a h n e =
    let same = restart_worker-eq p q id a h e in
    subst (λ r. (rest : List Effect) × (r.effects ≡ kill_tree none ∷ rest)) same
      ((revoke p a).effects, ground arith)

-- What the removals of `resize` leave alone for an id that none of them has.
record Leaves (id : ℕ) (p q : Pool) : Type 0 where
  same_started : q.started ≡ p.started
  same_next : q.next ≡ p.next
  same_size : q.size ≡ p.size
  same_spawning : q.spawning ≡ p.spawning
  same_ids : (a : ℕ) → (q.heap a).id ≡ (p.heap a).id
  same_generation : get id q.generations ≡ get id p.generations

revoke-Leaves :
    (id : ℕ) (p : Pool) (a : ℕ) → (p.heap a).id ≢ id → Leaves id p (kill_worker (revoke p a) a)
unfolding revoke
revoke-Leaves id p a h =
    ground (
      arith,
      get-set (p.heap a).id id (or_zero (get (p.heap a).id p.generations) + 1) p.generations,
    )

Leaves-trans : (id : ℕ) (p q r : Pool) → Leaves id p q → Leaves id q r → Leaves id p r
Leaves-trans id p q r e f = record {
  same_started = cc (e.same_started, f.same_started);
  same_next = cc (e.same_next, f.same_next);
  same_size = cc (e.same_size, f.same_size);
  same_spawning = cc (e.same_spawning, f.same_spawning);
  same_ids = λ a. cc (e.same_ids a, f.same_ids a);
  same_generation = cc (e.same_generation, f.same_generation);
}

remove_all-Leaves :
    (id : ℕ) (p : Pool) (addrs : List ℕ)
    → All (λ a. (p.heap a).id ≢ id) addrs
    → Leaves id p (remove_all p addrs)
unfolding remove_all
remove_all-Leaves id p [] h = ground arith
remove_all-Leaves id p (a ∷ addrs) h =
    let q = kill_worker (revoke p a) a in
    let first = revoke-Leaves id p a h.0 in
    Leaves-trans id p q (remove_all q addrs) first
      (remove_all-Leaves id q addrs (All-mono addrs (λ b k e. k (sym (first.same_ids b) ∙ e)) h.1))

port_reserved_installs :
    (p : Pool) (id generation port now : ℕ) (pid : Option ℕ)
    → p.started ≡ true
    → get id p.spawning ≡ some (reserving generation none)
    → get id p.generations ≡ some generation
    → let q = port_reserved p id port (child pid) now in
      (q.size ≡ p.size)
      × (get id q.worker_map ≡ some p.next)
      × ((q.heap p.next).proc ≡ some running)
unfolding port_reserved
port_reserved_installs p id generation port now pid s w g =
    rw (w, port_reserved) (ground (arith, get-set id id p.next p.worker_map))

-- The handles of the map have other ids than one that the map lacks.
others-ne :
    (p : Pool) (id : ℕ) (m : JsMap ℕ ℕ)
    → All (IsMapped p) m
    → get id m ≡ none
    → All (λ a. (p.heap a).id ≢ id) (values m)
others-ne p id [] v h = tt
others-ne p id ((k, a) ∷ m) v h = ((λ e. ground arith), others-ne p id m v.1 (ground arith))

filter-All-of {ℓ} :
    {A : Type ℓ} (P : A → Type 0) (keep : A → Bool) (xs : List A)
    → All P xs
    → All P (filter keep xs)
filter-All-of P keep [] h = tt
filter-All-of P keep (x ∷ xs) h = elim (Bool-cases (keep x)) [
  | inl kept ↦ rw kept (h.0, filter-All-of P keep xs h.1)
  | inr gone ↦ rw gone (filter-All-of P keep xs h.1)
]

resize-Leaves :
    (p : Pool) (size : JsNumber) (id : ℕ)
    → IsValid p
    → p.started ≡ true
    → get id p.worker_map ≡ none
    → normalize_pool_size size < p.size
    → Leaves id (record p { size = normalize_pool_size size }) (resize p size)
unfolding resize
resize-Leaves p size id v s m small =
    let q = record p { size = normalize_pool_size size } in
    let others =
      filter-All-of (λ a. (p.heap a).id ≢ id) (λ a. leb q.size (q.heap a).id) (values p.worker_map)
        (others-ne p id p.worker_map v.mapped m) in
    ground (arith, remove_all-Leaves id q (removals q q.size) others)

-- `resize` to fewer workers does not revoke a spawn that waits for its port and has no handle yet:
-- when the port comes, the child starts all the same, under an id that the new size excludes.
pub resize_misses_pending_spawn :
    (p : Pool) (size : JsNumber) (id generation port now : ℕ) (pid : Option ℕ)
    → IsValid p
    → p.started ≡ true
    → get id p.spawning ≡ some (reserving generation none)
    → get id p.generations ≡ some generation
    → get id p.worker_map ≡ none
    → normalize_pool_size size < p.size
    → normalize_pool_size size ≤ id
    → let q = port_reserved (resize p size) id port (child pid) now in
      (q.size ≤ id) × (get id q.worker_map ≡ some p.next) × ((q.heap p.next).proc ≡ some running)
resize_misses_pending_spawn p size id generation port now pid v s w g m small out =
    let r = resize p size in
    let kept = resize-Leaves p size id v s m small in
    let (sized, mapped, runs) =
      port_reserved_installs r id generation port now pid (kept.same_started ∙ s)
        (ap (get id) kept.same_spawning ∙ w) (kept.same_generation ∙ g) in
    (
      omega (arith, sized, kept.same_size),
      mapped ∙ ap some kept.same_next,
      subst (λ b. ((port_reserved r id port (child pid) now).heap b).proc ≡ some running)
          kept.same_next runs,
    )

-- A restart that has lost its spawn, on its way: what is pending, which restarts wait, and the child.
record Losing (id a : ℕ) (phase : Option Phase) (waiting : List ℕ) (held : Bool)
    (held_child : ChildProcess) (p q : Pool) : Type 0 where
  up : q.started ≡ true
  mapped : get id q.worker_map ≡ some a
  its_id : (q.heap a).id ≡ id
  down : (q.heap a).status ≡ stopped
  no_timer : (q.heap a).respawn_timer ≡ false
  pending : get id q.spawning ≡ phase
  waits : q.restarting ≡ waiting
  held_back : (q.heap a).stopped ≡ held
  its_child : (q.heap a).proc ≡ some held_child
  no_launch : launches q.effects ≡ launches p.effects

module _ (id a deadline now : ℕ) (p : Pool) where
  restart-Losing :
      p.started ≡ true
      → get id p.worker_map ≡ some a
      → (p.heap a).id ≡ id
      → (p.heap a).proc ≡ some running
      → get id p.spawning ≡ some (probing a deadline)
      → p.restarting ≡ []
      → Losing id a (some (probing a deadline)) (a ∷ []) true running p (kill_and_respawn p a)
  unfolding kill_and_respawn
  restart-Losing s h i c w l = ground arith

  exits-Losing :
      (q : Pool)
      → Losing id a (some (probing a deadline)) (a ∷ []) true running p q
      → Losing id a (some (probing a deadline)) (a ∷ []) true exited p (child_exits q a exited now)
  unfolding child_exits
  exits-Losing q l = ground arith

  resumes-Losing :
      (q : Pool)
      → Losing id a (some (probing a deadline)) (a ∷ []) true exited p q
      → Losing id a (some (probing a deadline)) [] false exited p (restart_resumes q a)
  unfolding restart_resumes
  resumes-Losing q l = ground arith

  probe-Losing :
      (q : Pool)
      → Losing id a (some (probing a deadline)) [] false exited p q
      → Losing id a (some (sleeping a deadline)) [] false exited p (probe_settled q id false)
  unfolding probe_settled
  probe-Losing q l =
      rw (l.pending, probe_settled) (ground (arith, get-set id id (sleeping a deadline) q.spawning))

  sleep-Losing :
      (q : Pool)
      → now < deadline
      → Losing id a (some (sleeping a deadline)) [] false exited p q
      → Losing id a none [] false exited p (sleep_settled q id now)
  unfolding sleep_settled
  sleep-Losing q t l = rw (l.pending, sleep_settled) (ground (arith, get-delete id id q.spawning))

-- `restartWorker` of a worker that is still being probed: its child exits, and the restart joins the
-- spawn that is pending. That spawn then ends by itself: the worker stays stopped, no child is
-- started, and nothing is pending that would start one.
restart_lost_while_probing :
    (p q : Pool) (id a deadline now : ℕ)
    → p.started ≡ true
    → get id p.worker_map ≡ some a
    → (p.heap a).id ≡ id
    → (p.heap a).proc ≡ some running
    → get id p.spawning ≡ some (probing a deadline)
    → now < deadline
    → p.restarting ≡ []
    → restart_worker p id ≡ some q
    → let r = run q (
        (now, exits a exited)
        ∷ (now, resumes a)
        ∷ (now, probe_answers id false)
        ∷ (now, sleep_ends id)
        ∷ []) in
      ((r.heap a).status ≡ stopped)
      × ((r.heap a).respawn_timer ≡ false)
      × (get id r.worker_map ≡ some a)
      × (get id r.spawning ≡ none)
      × (r.restarting ≡ [])
      × (launches r.effects ≡ launches p.effects)
unfolding run step
restart_lost_while_probing p q id a deadline now s h i c w t l e =
    let r = kill_and_respawn p a in
    let same : r ≡ q = restart_worker-eq p q id a h e in
    let lost = sleep-Losing id a deadline now p _ t (
      probe-Losing id a deadline now p _ (
        resumes-Losing id a deadline now p _
          (exits-Losing id a deadline now p r (restart-Losing id a deadline now p s h i c w l)))) in
    subst
      (λ q.
        let r = run q (
          (now, exits a exited)
          ∷ (now, resumes a)
          ∷ (now, probe_answers id false)
          ∷ (now, sleep_ends id)
          ∷ []) in
        ((r.heap a).status ≡ stopped)
        × ((r.heap a).respawn_timer ≡ false)
        × (get id r.worker_map ≡ some a)
        × (get id r.spawning ≡ none)
        × (r.restarting ≡ [])
        × (launches r.effects ≡ launches p.effects))
      same (lost.down, lost.no_timer, lost.mapped, lost.pending, lost.waits, lost.no_launch)
