-- ===== src/Balancer/Handler.antt =====
-- packages/opencode-adapter/src/lb.ts: `handleRequest` and the routes of the server.
use deepseek_harness.Common.{
  ℕ, zero, suc, ◌+◌, ◌-◌, String, Bool, true, false, not, ◌&&◌, Option, none, some, List, [], ◌∷◌,
  length, filter, contains, ltb, ◌==◌, if◌then◌else◌, nat_eq, string_eq,
}
use deepseek_harness.Pool.State.{WorkerHandle, is_ready}
use deepseek_harness.Balancer.Interface.{PoolApi}
use deepseek_harness.Balancer.State.{Lb, Options, max_attempts, park_ms_for_5xx, park_ms_for_429}
use deepseek_harness.Balancer.Sticky.{sticky_id, resolve_sticky, commit_sticky}
use deepseek_harness.Balancer.RateLimit.{note_worker_outcome}
use deepseek_harness.Balancer.Http.{
  Headers, text, Request, UpstreamRequest, upstream_error, no_healthy_worker, pool_status, ended,
  ended_text, piped, destroyed, Response, pristine, headers_sent, write_head, send_json, Buffered,
  buffered_body, can_retry, upstream_request, Reply, failed, responded, status_of,
  retryable_statuses,
}

-- The balancer and its pool.
pub record World (S : Type 0) : Type 0 where
  pub lb : Lb
  pub pool : S

-- One attempt as the environment plays it: when a worker is asked for, what comes back and when,
-- and what other requests and the pool do while the request waits.
pub record Answer (S : Type 0) : Type 0 where
  pub asked : ℕ
  pub reply : Reply
  pub answered : ℕ
  pub meanwhile : World S → World S

-- The local variables of `handleRequest`, its response, and the requests that it has sent.
pub record Locals : Type 0 where
  pub tried : List ℕ
  pub last_status : ℕ
  pub last_headers : Headers
  pub last_error : Option String
  pub last_peek : Bool
  pub res : Response
  pub sent : List UpstreamRequest

abbrev pub first_locals : Locals
first_locals = record {
  tried = [];
  last_status = 502;
  last_headers = [];
  last_error = none;
  last_peek = false;
  res = pristine;
  sent = [];
}

-- How a pass of the loop ends: by `return`, `break` or `continue`.
pub data Verdict (S : Type 0) : Type 0 where
  returns : Locals → World S → Verdict S
  breaks : Locals → World S → Verdict S
  continues : Locals → World S → Verdict S

-- After the loop: the last upstream status where one was seen, else an error.
unfoldable pub exhausted : Locals → Response
unfolding send_json
exhausted l =
    if l.last_peek && not (headers_sent l.res)
    then record (write_head l.res l.last_status l.last_headers) { body = ended }
    else if headers_sent l.res
    then l.res
    else elim l.last_error [
      | some detail ↦ send_json l.res 502 (upstream_error detail)
      | none ↦ send_json l.res 503 no_healthy_worker
    ]

module _ (api : PoolApi) (opts : Options) (req : Request) where
  abbrev pub note : World api.State → ℕ → Bool → ℕ → World api.State
  note w id rated now = record w {
    lb = note_worker_outcome opts w.lb (api.workers w.pool) id rated now;
  }

  abbrev pub park : World api.State → ℕ → ℕ → ℕ → World api.State
  park w id ms now = record w { pool = api.park_worker w.pool id ms now }

  abbrev pub pick : World api.State → List ℕ → ℕ → Option WorkerHandle × World api.State
  pick w tried now =
      let (worker, pool) = api.pick_healthy w.pool tried now in (worker, record w { pool = pool })

  -- `resolveSticky(sidStr) ?? pool.pickHealthy(tried)`.
  abbrev pub prefer :
      World api.State
      → List ℕ
      → ℕ
      → Option WorkerHandle × Lb
      → Option WorkerHandle × World api.State
  prefer w tried now (some worker, lb) = (some worker, record w { lb = lb })
  prefer w tried now (none, lb) = pick (record w { lb = lb }) tried now

  unfoldable pub choose : ℕ → World api.State → List ℕ → ℕ → Option WorkerHandle × World api.State
  choose zero w tried now =
      prefer w tried now
        (resolve_sticky w.lb (api.workers w.pool) (sticky_id req.session_header) now)
  choose (suc attempt) w tried now = pick w tried now

  -- The upstream could not be reached.
  abbrev pub on_error : Buffered → ℕ → String → ℕ → Locals → World api.State → Verdict api.State
  on_error body id error now l w =
      let l' = record l { last_error = some error } in
      let w' = park w id park_ms_for_5xx now in
      if headers_sent l.res
      then returns (record l' { res = record l'.res { body = destroyed } }) w'
      else if not (can_retry body)
      then breaks l' w'
      else continues l' w'

  abbrev pub is_retryable : Buffered → ℕ → ℕ → Locals → Bool
  is_retryable body attempt status l =
      contains retryable_statuses status
      && not (headers_sent l.res)
      && ltb attempt (max_attempts - 1)
      && can_retry body

  abbrev pub commit : ℕ → ℕ → Headers → ℕ → Locals → World api.State → Verdict api.State
  commit id status headers now l w =
      returns (record l { res = record (write_head l.res status headers) { body = piped id } })
        (record w { lb = commit_sticky w.lb (sticky_id req.session_header) id now })

  -- The upstream has answered with a head.
  abbrev pub on_response :
      Buffered → ℕ → ℕ → ℕ → Headers → ℕ → Locals → World api.State → Verdict api.State
  on_response body attempt id status headers now l w =
      let w' = note w id (status == 429) now in
      if is_retryable body attempt status l
      then continues (record l { last_status = status; last_headers = headers; last_peek = true })
          (park w' id (if status == 429 then park_ms_for_429 else park_ms_for_5xx) now)
      else commit id status headers now l w'

  abbrev pub on_reply : Buffered → ℕ → ℕ → ℕ → Locals → World api.State → Reply → Verdict api.State
  on_reply body attempt id now l w (failed error) = on_error body id error now l w
  on_reply body attempt id now l w (responded status headers) =
      on_response body attempt id (status_of status) headers now l w

  abbrev pub ask :
      Buffered
      → ℕ
      → Answer api.State
      → Locals
      → Option WorkerHandle × World api.State
      → Verdict api.State
  ask body attempt answer l (none, w) = breaks l w
  ask body attempt answer l (some worker, w) =
      let l' = record l {
        tried = worker.id ∷ l.tried;
        sent = upstream_request opts.auth_header worker req body ∷ l.sent;
      } in
      on_reply body attempt worker.id answer.answered l' (answer.meanwhile w) answer.reply

  -- One pass of the loop.
  unfoldable pub attempt_once :
      Buffered → ℕ → Answer api.State → Locals → World api.State → Verdict api.State
  unfolding choose
  attempt_once body attempt answer l w =
      ask body attempt answer l (choose attempt w l.tried answer.asked)

  -- The end of the loop, or its next pass.
  unfoldable pub attempts :
      Buffered
      → ℕ
      → ℕ
      → (ℕ → Answer api.State)
      → Locals
      → World api.State
      → Locals × World api.State
  unfolding attempt_once exhausted
  attempts body zero attempt answers l w = (record l { res = exhausted l }, w)
  attempts body (suc left) attempt answers l w =
      elim (attempt_once body attempt (answers attempt) l w) [
        | returns l' w' ↦ (l', w')
        | breaks l' w' ↦ (record l' { res = exhausted l' }, w')
        | continues l' w' ↦ attempts body left (attempt + 1) answers l' w'
      ]

  unfoldable pub handle_request :
      (ℕ → Answer api.State) → World api.State → Locals × World api.State
  unfolding attempts buffered_body
  handle_request answers w = attempts (buffered_body req) max_attempts 0 answers first_locals w

  abbrev pub is_route : String → Bool
  is_route url = elim req.url [
    | none ↦ false
    | some u ↦ elim req.method [ none ↦ false | some m ↦ u == url && m == "GET" ]
  ]

  abbrev pub health : List WorkerHandle → Response
  health workers =
      let healthy = length (filter (λ w. is_ready w.status) workers) in
      record (write_head pristine (if ltb 0 healthy then 200 else 503)
        (("content-type", text "text/plain") ∷ [])) {
          body = ended_text (if ltb 0 healthy then "OK" else "no ready workers");
        }

  -- The handler of the server; what it does when `handleRequest` rejects is left out.
  unfoldable pub serve : (ℕ → Answer api.State) → World api.State → Response × World api.State
  unfolding handle_request send_json
  serve answers w =
      if is_route "/pool/status"
      then (send_json pristine 200 (pool_status (api.workers w.pool)), w)
      else if is_route "/health"
      then (health (api.workers w.pool), w)
      else ((handle_request answers w).0.res, (handle_request answers w).1)
