-- ===== src/Balancer/Retry.antt =====
-- packages/opencode-adapter/src/lb.ts: what the retry loop of `handleRequest` keeps and how it ends.
use deepseek_harness.Common.{
  ap, ℕ, zero, suc, ◌+◌, ◌≤◌, ◌≡◌, ◌⊎◌, refl, inl, inr, true, false, Option, none, some, List, [],
  ◌∷◌, map, length, contains, arith, nat_eq, Bool-cases, String,
}
use deepseek_harness.Pool.State.{WorkerHandle}
use deepseek_harness.Balancer.Interface.{PoolApi}
use deepseek_harness.Balancer.State.{Options, max_attempts}
use deepseek_harness.Balancer.Http.{
  headers_sent, Headers, Request, UpstreamRequest, pristine, piped, Buffered, can_retry,
  upstream_request, Reply, failed, responded, retryable_statuses, status_of,
}
use deepseek_harness.Balancer.Handler.{
  World, Answer, Locals, Verdict, returns, breaks, continues, pick, choose, on_error, on_response,
  ask, on_reply, is_retryable, attempt_once,
}

abbrev pub Distinct : List ℕ → Type 0
Distinct [] = Unit {0}
Distinct (x ∷ xs) = (contains xs x ≡ false) × Distinct xs

abbrev pub workers_of : List UpstreamRequest → List ℕ
workers_of sent = map (λ r. r.worker_id) sent

-- What is so of the local variables once a worker is on the list of those tried.
pub record Tried (tries : ℕ) (l : Locals) : Type 0 where
  pub untouched : l.res ≡ pristine
  pub ids : workers_of l.sent ≡ l.tried
  pub distinct : Distinct l.tried
  pub count : length l.tried ≡ tries

-- What is so before each pass, and after a `break`: a failure is known where a worker was tried.
pub record Running (tries : ℕ) (l : Locals) : Type 0 where
  pub so_far : Tried tries l
  pub told : (l.tried ≡ []) ⊎ ((l.last_peek ≡ true) ⊎ ((e : String) × (l.last_error ≡ some e)))
  pub silent : l.tried ≡ [] → (l.last_peek ≡ false) × (l.last_error ≡ none)

-- A response that is passed on: the worker is the last one tried, and its status is no reason, or
-- there is no way, to try another.
abbrev pub IsCommitted : Buffered → ℕ → Locals → ℕ → Type 0
IsCommitted body tries l id =
    (status : ℕ) × (headers : Headers) × (rest : List ℕ) × (l.res
      ≡ record { heads = (status, headers) ∷ []; body = piped id })
    × (l.tried ≡ id ∷ rest)
    × ((contains retryable_statuses status ≡ false)
        ⊎ ((max_attempts ≤ tries) ⊎ (can_retry body ≡ false)))

pub record Returned (body : Buffered) (tries : ℕ) (l : Locals) : Type 0 where
  pub ids : workers_of l.sent ≡ l.tried
  pub distinct : Distinct l.tried
  pub count : length l.tried ≡ tries
  pub committed : (id : ℕ) × IsCommitted body tries l id

abbrev pub Outcome : Buffered → ℕ → {S : Type 0} → Verdict S → Type 0
Outcome body tries (returns l w) = Returned body (tries + 1) l
Outcome body tries (breaks l w) =
    Running tries l ⊎ ((can_retry body ≡ false) × Running (tries + 1) l)
Outcome body tries (continues l w) = (can_retry body ≡ true) × Running (tries + 1) l

module _ (api : PoolApi) (opts : Options) (req : Request) where
  on_error-Outcome :
      (body : Buffered) (tries id : ℕ) (error : String) (now : ℕ) (l : Locals) (w : World api.State)
      → Tried (tries + 1) l
      → Outcome body tries (on_error api opts req body id error now l w)
  on_error-Outcome body tries id error now l w r =
      let unsent : headers_sent l.res ≡ false = ground arith in
      let told : Running (tries + 1) (record l { last_error = some error }) = record {
        so_far = record {
          untouched = r.untouched;
          ids = r.ids;
          distinct = r.distinct;
          count = r.count;
        };
        told = inr (inr (error, refl));
        silent = λ e. absurd (omega (arith, ap length e, r.count));
      } in
      elim (Bool-cases (can_retry body)) [
        | inl can ↦ rw (unsent, can) (can, told)
        | inr cannot ↦ rw (unsent, cannot) (inr (cannot, told))
      ]

  on_response-Outcome :
      (body : Buffered) (tries id status : ℕ) (headers : Headers) (now : ℕ) (l : Locals)
      (w : World api.State) (rest : List ℕ)
      → l.tried ≡ id ∷ rest
      → Tried (tries + 1) l
      → Outcome body tries (on_response api opts req body tries id status headers now l w)
  on_response-Outcome body tries id status headers now l w rest e r =
      elim (Bool-cases (is_retryable api opts req body tries status l)) [
        | inl again ↦ rw again (
          ground arith,
          record {
            so_far = record {
              untouched = r.untouched;
              ids = r.ids;
              distinct = r.distinct;
              count = r.count;
            };
            told = inr (inl refl);
            silent = λ n. absurd (omega (arith, ap length n, r.count));
          },
        )
        | inr commits ↦ rw commits (record {
          ids = r.ids;
          distinct = r.distinct;
          count = r.count;
          committed = (id, (status, headers, rest, ground arith, e, ground arith));
        })
      ]

  ask-Outcome :
      (body : Buffered) (tries : ℕ) (answer : Answer api.State) (l : Locals) (worker : WorkerHandle)
      (w : World api.State)
      → contains l.tried worker.id ≡ false
      → Running tries l
      → Outcome body tries (ask api opts req body tries answer l (some worker, w))
  unfolding upstream_request
  ask-Outcome body tries answer l worker w new r = by_reply answer.reply
    where
      l' : Locals
      l' = record l {
        tried = worker.id ∷ l.tried;
        sent = upstream_request opts.auth_header worker req body ∷ l.sent;
      }

      one_more : Tried (tries + 1) l'
      one_more = record {
        untouched = r.so_far.untouched;
        ids = ap (◌∷◌ worker.id) r.so_far.ids;
        distinct = (new, r.so_far.distinct);
        count = omega (arith, r.so_far.count);
      }

      by_reply :
          (reply : Reply)
          → Outcome body tries (
              on_reply api opts req body tries worker.id answer.answered l'
                (answer.meanwhile w)
                reply)
      by_reply (failed error) =
          on_error-Outcome body tries worker.id error answer.answered l' _ one_more
      by_reply (responded status headers) =
          on_response-Outcome body tries worker.id (status_of status) headers answer.answered l' _
            l.tried refl one_more

  pick_new :
      (w : World api.State) (tried : List ℕ) (now : ℕ) (worker : WorkerHandle)
      → (pick api opts req w tried now).0 ≡ some worker
      → contains tried worker.id ≡ false
  pick_new w tried now worker e = api.pick_new w.pool tried now worker e

  -- Whatever worker is chosen was not tried before.
  choose_new :
      (tries : ℕ) (w : World api.State) (tried : List ℕ) (now : ℕ) (worker : WorkerHandle)
      → length tried ≡ tries
      → (choose api opts req tries w tried now).0 ≡ some worker
      → contains tried worker.id ≡ false
  unfolding choose
  choose_new zero w [] now worker n e = refl
  choose_new zero w (x ∷ tried) now worker n e = absurd (omega (arith, n))
  choose_new (suc tries) w tried now worker n e = pick_new w tried now worker e

  pub attempt_once-Outcome :
      (body : Buffered) (tries : ℕ) (answer : Answer api.State) (l : Locals) (w : World api.State)
      → Running tries l
      → Outcome body tries (attempt_once api opts req body tries answer l w)
  unfolding attempt_once
  attempt_once-Outcome body tries answer l w r =
      by_choice (choose api opts req tries w l.tried answer.asked) refl
    where
      by_choice :
          (c : Option WorkerHandle × World api.State)
          → choose api opts req tries w l.tried answer.asked ≡ c
          → Outcome body tries (ask api opts req body tries answer l c)
      by_choice (none, w') e = inl r
      by_choice (some worker, w') e =
          ask-Outcome body tries answer l worker w'
            (choose_new tries w l.tried answer.asked worker r.so_far.count (ap (λ c. c.0) e)) r
