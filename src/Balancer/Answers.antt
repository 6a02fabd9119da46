-- ===== src/Balancer/Answers.antt =====
-- packages/opencode-adapter/src/lb.ts: how every request is answered.
use deepseek_harness.Common.{
  subst, ℕ, zero, suc, ◌+◌, ◌≤◌, ◌≡◌, ◌⊎◌, ◌↔◌, refl, inl, inr, true, false, [], length, arith,
  nat_eq, ap, sym,
}
use deepseek_harness.Balancer.Interface.{PoolApi}
use deepseek_harness.Balancer.State.{Options, max_attempts}
use deepseek_harness.Balancer.Http.{
  Request, pristine, piped, no_healthy_worker, send_json, Buffered, can_retry, buffered_body,
}
use deepseek_harness.Balancer.Handler.{
  World, Answer, Locals, first_locals, Verdict, returns, breaks, continues, exhausted, attempt_once,
  attempts, handle_request,
}
use deepseek_harness.Balancer.Retry.{
  Distinct, workers_of, Running, IsCommitted, Returned, Outcome, attempt_once-Outcome,
}

pub record Answered (body : Buffered) (l : Locals) : Type 0 where
  pub one_head : length l.res.heads ≡ 1
  pub ids : workers_of l.sent ≡ l.tried
  pub distinct : Distinct l.tried
  pub few : length l.tried ≤ max_attempts
  pub once : can_retry body ≡ false → length l.tried ≤ 1
  pub unserved : (l.res ≡ send_json pristine 503 no_healthy_worker) ↔ (l.tried ≡ [])
  pub committed : (id : ℕ) → l.res.body ≡ piped id → IsCommitted body (length l.tried) l id

exhausted_idle :
    (tries : ℕ) (l : Locals)
    → Running tries l
    → l.tried ≡ []
    → exhausted l ≡ send_json pristine 503 no_healthy_worker
unfolding exhausted
exhausted_idle tries l r e = ground (arith, r.so_far.untouched, r.silent e)

exhausted_tried :
    (tries : ℕ) (l : Locals)
    → Running tries l
    → exhausted l ≡ send_json pristine 503 no_healthy_worker
    → l.tried ≡ []
unfolding exhausted send_json
exhausted_tried tries l r e = ground (arith, r.so_far.untouched, r.told)

exhausted_parts :
    (tries : ℕ) (l : Locals)
    → Running tries l
    → (length (exhausted l).heads ≡ 1) × ((id : ℕ) → (exhausted l).body ≡ piped id → ⊥)
unfolding exhausted send_json
exhausted_parts tries l r =
    (ground (arith, r.so_far.untouched), λ id e. ground (arith, r.so_far.untouched))

exhausted-Answered :
    (body : Buffered) (tries : ℕ) (l : Locals)
    → tries ≤ max_attempts
    → (can_retry body ≡ false → tries ≤ 1)
    → Running tries l
    → Answered body (record l { res = exhausted l })
exhausted-Answered body tries l h k r = record {
  one_head = (exhausted_parts tries l r).0;
  ids = r.so_far.ids;
  distinct = r.so_far.distinct;
  few = omega (arith, r.so_far.count);
  once = λ c. omega (arith, k c, r.so_far.count);
  unserved = (exhausted_tried tries l r, exhausted_idle tries l r);
  committed = λ id e. absurd ((exhausted_parts tries l r).1 id e);
}

Returned-Answered :
    (body : Buffered) (tries : ℕ) (l : Locals)
    → tries ≤ max_attempts
    → (can_retry body ≡ false → tries ≤ 1)
    → Returned body tries l
    → Answered body l
unfolding send_json
Returned-Answered body tries l h k r =
    let (i, (status, headers, rest, res, tried, why)) = r.committed in
    let same : (id : ℕ) → l.res.body ≡ piped id → i ≡ id = λ id e. cc (res, e) in
    record {
      one_head = ap (λ s. length s.heads) res;
      ids = r.ids;
      distinct = r.distinct;
      few = omega (arith, r.count);
      once = λ c. omega (arith, k c, r.count);
      unserved = ((λ e. ground arith), λ e. ground arith);
      committed = λ id e.
          subst (λ j. IsCommitted body (length l.tried) l j) (same id e)
            (subst (λ n. IsCommitted body n l i) (sym r.count)
              (status, headers, rest, res, tried, why));
    }

module _ (api : PoolApi) (opts : Options) (req : Request) where
  attempts-Answered :
      (body : Buffered) (left tries : ℕ) (answers : ℕ → Answer api.State) (l : Locals)
      (w : World api.State)
      → tries + left ≡ max_attempts
      → (tries ≡ 0) ⊎ (can_retry body ≡ true)
      → Running tries l
      → Answered body (attempts api opts req body left tries answers l w).0
  unfolding attempts
  attempts-Answered body zero tries answers l w h c r =
      exhausted-Answered body tries l (omega arith) (λ no. ground arith) r
  attempts-Answered body (suc left) tries answers l w h c r =
      by_verdict (attempt_once api opts req body tries (answers tries) l w)
        (attempt_once-Outcome api opts req body tries (answers tries) l w r)
        (attempts-Answered body left (tries + 1) answers)
    where
      by_verdict :
          (v : Verdict api.State)
          → Outcome body tries v
          → ((l' : Locals) (w' : World api.State)
              → tries + 1 + left ≡ max_attempts
              → (tries + 1 ≡ 0) ⊎ (can_retry body ≡ true)
              → Running (tries + 1) l'
              → Answered body (attempts api opts req body left (tries + 1) answers l' w').0)
          → Answered body
              (elim v as (λ _. Locals × World api.State) [
                | returns l' w' ↦ (l', w')
                | breaks l' w' ↦ (record l' { res = exhausted l' }, w')
                | continues l' w' ↦ attempts api opts req body left (tries + 1) answers l' w'
              ]).0
      by_verdict (returns l' w') o next =
          Returned-Answered body (tries + 1) l' (omega arith) (λ no. ground arith) o
      by_verdict (breaks l' w') (inl o) next =
          exhausted-Answered body tries l' (omega arith) (λ no. ground arith) o
      by_verdict (breaks l' w') (inr (cannot, o)) next =
          exhausted-Answered body (tries + 1) l' (omega arith) (λ no. ground arith) o
      by_verdict (continues l' w') (can, o) next = next l' w' (omega arith) (inr can) o

  -- Every request gets exactly one response head, whatever the pool, other requests and the workers
  -- do meanwhile. At most three requests are sent upstream, each to another worker, and at most one
  -- where the body was too large to buffer. The answer is the 503 "no healthy worker available"
  -- exactly when no worker was asked. A response is passed on only from the last worker that was
  -- asked, and its status is one to retry only after the third attempt or where the body is gone.
  pub handle_request-Answered :
      (answers : ℕ → Answer api.State) (w : World api.State)
      → Answered (buffered_body req) (handle_request api opts req answers w).0
  unfolding handle_request
  handle_request-Answered answers w =
      attempts-Answered (buffered_body req) max_attempts 0 answers first_locals w refl (inl refl)
        (record {
          so_far = record { untouched = refl; ids = refl; distinct = tt; count = refl };
          told = inl refl;
          silent = λ e. (refl, refl);
        })
