-- ===== src/Balancer/Examples.antt =====
-- Concrete requests: tests of packages/opencode-adapter/src/lb.ts, and each theorem at one of them.
use deepseek_harness.Common.{
  String, ◌==◌, if◌then◌else◌, ℕ, ◌+◌, ◌≤◌, ◌≡◌, ◌↔◌, ◌⊎◌, refl, true, false, Option, none, some,
  List, [], ◌∷◌, arith, length, nat_eq, string_eq, find, contains, not, Bool-cases, subst, inl, inr,
  suc, zero, ◌∙◌, ap,
}
use mathlib.Core.List.{append-nil}
use deepseek_harness.Common.JsMap.{get}
use deepseek_harness.Pool.State.{WorkerHandle, ready}
use deepseek_harness.Balancer.Interface.{PoolApi}
use deepseek_harness.Balancer.State.{Lb, Options, new_lb, retry_body_cap_bytes}
use deepseek_harness.Balancer.Sticky.{one, resolve_sticky, commit_sticky, serves}
use deepseek_harness.Balancer.RateLimit.{note_worker_outcome}
use deepseek_harness.Balancer.Http.{
  Request, responded, buffered_body, buffer_request_body, whole, concat,
}
use deepseek_harness.Balancer.Handler.{World, Answer, handle_request}
use deepseek_harness.Balancer.Answers.{Answered, handle_request-Answered}
use deepseek_harness.Balancer.Bodies.{buffer_request_body_iff}
use deepseek_harness.Balancer.Affinity.{Use, commits, resolves, used_all, resolve-commit_sticky}
use deepseek_harness.Balancer.Rated.{RingsOn}
use deepseek_harness.Balancer.Alarm.{note_worker_outcome-Rings, Outcome}

abbrev worker : ℕ → WorkerHandle
worker id = record {
  id = id;
  pid = some id;
  port = 4100 + id;
  status = ready;
  started_at = 0;
  restarts = 0;
}

abbrev opts : Options
opts = record { auth_header = none; has_alarm = true }

-- A pool whose state is the list of its workers; a pick takes the first that is not to be skipped.
abbrev pick_first : List WorkerHandle → List ℕ → Option WorkerHandle
pick_first workers skip = find (λ w. not (contains skip w.id)) workers

pick_first_new :
    (workers : List WorkerHandle) (skip : List ℕ) (w : WorkerHandle)
    → pick_first workers skip ≡ some w
    → contains skip w.id ≡ false
pick_first_new [] skip w h = absurd (cc h)
pick_first_new (v ∷ workers) skip w h = elim (Bool-cases (contains skip v.id)) [
  | inl tried ↦ pick_first_new workers skip w (rw tried at h)
  | inr new ↦
      let same : v ≡ w = cc (rw new at h) in subst (λ u. contains skip u.id ≡ false) same new
]

abbrev list_pool : PoolApi
list_pool = record {
  State = List WorkerHandle;
  workers = λ s. s;
  pick_healthy = λ s skip now. (pick_first s skip, s);
  park_worker = λ s id ms now. s;
  pick_new = λ s skip now w h. pick_first_new s skip w h;
}

abbrev workers : List WorkerHandle
workers = worker 0 ∷ worker 1 ∷ []

abbrev request : Request
request = record {
  method = some "POST";
  url = some "/v1/chat/completions";
  session_header = one "s";
  headers = [];
  chunks = (1 ∷ 2 ∷ []) ∷ (3 ∷ []) ∷ [];
}

-- The first worker is rate-limited, and the second answers.
abbrev answers : ℕ → Answer (List WorkerHandle)
answers zero = record {
  asked = 1;
  reply = responded (some 429) [];
  answered = 2;
  meanwhile = λ w. w;
}
answers (suc n) = record {
  asked = 3;
  reply = responded (some 200) [];
  answered = 4;
  meanwhile = λ w. w;
}

abbrev world : World (List WorkerHandle)
world = record { lb = new_lb; pool = workers }

-- A test: the second worker's response is passed on.
served_by_second : (handle_request list_pool opts request answers world).0.tried ≡ 1 ∷ 0 ∷ []
unfolding handle_request resolve_sticky deepseek_harness.Balancer.Sticky.sticky_id
served_by_second = refl

handle_request-Answered_example :
    Answered (buffered_body request) (handle_request list_pool opts request answers world).0
handle_request-Answered_example = handle_request-Answered list_pool opts request answers world

buffer_request_body_iff_example :
    (buffer_request_body request ≡ whole (concat request.chunks))
    ↔ (length (concat request.chunks) ≤ retry_body_cap_bytes)
buffer_request_body_iff_example = buffer_request_body_iff request

-- A body of one byte more than the cap, in two chunks.
repeat : ℕ → List ℕ
repeat zero = []
repeat (suc n) = 0 ∷ repeat n

length-repeat : (n : ℕ) → length (repeat n) ≡ n
unfolding repeat
length-repeat zero = refl
length-repeat (suc n) = ap suc (length-repeat n)

abbrev large : Request
large = record request { chunks = repeat 10485761 ∷ [] }

large_length : length (concat large.chunks) ≡ 10485761
large_length = ap length (append-nil (repeat 10485761)) ∙ length-repeat 10485761

abbrev text_of : Option String → String
text_of none = ""
text_of (some text) = text

-- In between another session is answered, and a third is looked up.
abbrev others : List Use
others = commits (some "t") 0 1500 ∷ resolves workers (some "u") 9999 ∷ []

resolve-commit_sticky_example :
    (resolve_sticky
      (used_all (commit_sticky new_lb (some "s") 1 1000) others)
      workers
      (some "s")
      2000).0
    ≡ some (worker 1)
resolve-commit_sticky_example =
    resolve-commit_sticky new_lb workers "s" 1 1000 2000 (worker 1) others (λ e. absurd (cc e))
      (omega arith)
      (
        ((λ e. absurd (cc ((string_eq.decides "t" "s").1 (ap text_of e)))), omega arith),
        ((λ e. absurd (cc ((string_eq.decides "u" "s").1 (ap text_of e)))), tt),
      )
      refl

-- Both workers are rate-limited.
abbrev limited : List Outcome
limited =
    record { workers = workers; id = 0; limited = true; now = 10 }
    ∷ record { workers = workers; id = 1; limited = true; now = 20 }
    ∷ record { workers = workers; id = 0; limited = true; now = 30 }
    ∷ []

abbrev rated : Lb
rated = record new_lb { last_rate_limit_at = (0, 10) ∷ (1, 20) ∷ [] }

note_worker_outcome-Rings_example :
    ((RingsOn opts rated workers 1 true 20
        × ((note_worker_outcome opts rated workers 1 true 20).alarms ≡ 0 + 1)
        × ((note_worker_outcome opts rated workers 1 true 20).all_rate_limited_latched ≡ true))
      ⊎ ((¬ RingsOn opts rated workers 1 true 20)
          × ((note_worker_outcome opts rated workers 1 true 20).alarms ≡ 0)
          × ((note_worker_outcome opts rated workers 1 true 20).all_rate_limited_latched ≡ false)))
    × ((j : ℕ)
        → get j (note_worker_outcome opts rated workers 1 true 20).last_rate_limit_at
          ≡ (if 1 == j then (if true then some 20 else none) else get j ((0, 10) ∷ (1, 20) ∷ [])))
note_worker_outcome-Rings_example = note_worker_outcome-Rings opts rated workers 1 true 20
