-- ===== src/Balancer/Http.antt =====
-- packages/opencode-adapter/src/lb.ts: requests, responses, and `bufferRequestBody`.
use deepseek_harness.Common.{
  ℕ, ◌+◌, String, Bool, true, false, not, ◌&&◌, Option, none, some, List, [], ◌∷◌, ◌++◌, length,
  ltb, ◌==◌, if◌then◌else◌, nat_eq, string_eq,
}
use deepseek_harness.Common.JsMap.{JsMap, set}
use deepseek_harness.Pool.State.{WorkerHandle}
use deepseek_harness.Balancer.State.{retry_body_cap_bytes}
use deepseek_harness.Balancer.Sticky.{Header}

-- `loopback port` is the text `127.0.0.1:${port}`.
pub data HeaderValue : Type 0 where
  text : String → HeaderValue
  texts : List String → HeaderValue
  loopback : ℕ → HeaderValue

abbrev pub Headers : Type 0
Headers = JsMap String HeaderValue

-- The body comes in chunks of bytes.
pub record Request : Type 0 where
  pub method : Option String
  pub url : Option String
  pub session_header : Header
  pub headers : Headers
  pub chunks : List (List ℕ)

pub record UpstreamRequest : Type 0 where
  pub worker_id : ℕ
  pub port : ℕ
  pub path : String
  pub method : String
  pub headers : Headers
  pub body : List ℕ

pub data Json : Type 0 where
  upstream_error : String → Json
  no_healthy_worker : Json
  pool_status : List WorkerHandle → Json

pub data Body : Type 0 where
  unwritten : Body
  ended : Body
  ended_text : String → Body
  ended_json : Json → Body
  piped : ℕ → Body
  destroyed : Body

-- The heads that were written, the newest first.
pub record Response : Type 0 where
  pub heads : List (ℕ × Headers)
  pub body : Body

abbrev pub pristine : Response
pristine = record { heads = []; body = unwritten }

abbrev pub headers_sent : Response → Bool
headers_sent res = not (length res.heads == 0)

abbrev pub write_head : Response → ℕ → Headers → Response
write_head res status headers = record res { heads = (status, headers) ∷ res.heads }

unfoldable pub send_json : Response → ℕ → Json → Response
send_json res status obj =
    record (write_head res status (("content-type", text "application/json") ∷ [])) {
      body = ended_json obj;
    }

-- The whole body, or the chunks that were not read when the cap was passed.
pub data Buffered : Type 0 where
  whole : List ℕ → Buffered
  too_large : List (List ℕ) → Buffered

unfoldable pub buffer_chunks : ℕ → List ℕ → List (List ℕ) → Buffered
buffer_chunks total bytes [] = whole bytes
buffer_chunks total bytes (chunk ∷ chunks) =
    let rest = buffer_chunks (total + length chunk) (bytes ++ chunk) chunks in
    if ltb retry_body_cap_bytes (total + length chunk) then too_large chunks else rest

unfoldable pub buffer_request_body : Request → Buffered
unfolding buffer_chunks
buffer_request_body req = buffer_chunks 0 [] req.chunks

abbrev pub reads_body : Option String → Bool
reads_body none = false
reads_body (some method) = not (method == "") && not (method == "GET") && not (method == "HEAD")

unfoldable pub buffered_body : Request → Buffered
unfolding buffer_request_body
buffered_body req = if reads_body req.method then buffer_request_body req else whole []

abbrev pub can_retry : Buffered → Bool
can_retry (whole bytes) = true
can_retry (too_large chunks) = false

abbrev pub concat : List (List ℕ) → List ℕ
concat [] = []
concat (chunk ∷ chunks) = chunk ++ concat chunks

-- What is sent: the buffered bytes, or by `req.pipe` nothing, since leaving the loop over the chunks
-- has destroyed the request.
abbrev pub sent_bytes : Buffered → List ℕ
sent_bytes (whole bytes) = bytes
sent_bytes (too_large chunks) = []

abbrev or_text : Option String → String → String
or_text none d = d
or_text (some s) d = s

abbrev with_auth : Option String → Headers → Headers
with_auth none headers = headers
with_auth (some auth) headers =
    if auth == "" then headers else set "authorization" (text auth) headers

-- The request of `attemptRequest`.
unfoldable pub upstream_request :
    Option String → WorkerHandle → Request → Buffered → UpstreamRequest
upstream_request auth worker req body = record {
  worker_id = worker.id;
  port = worker.port;
  path = or_text req.url "/";
  method = or_text req.method "GET";
  headers = with_auth auth (set "host" (loopback worker.port) req.headers);
  body = sent_bytes body;
}

pub data Reply : Type 0 where
  failed : String → Reply
  responded : Option ℕ → Headers → Reply

-- `upRes.statusCode ?? 502`.
abbrev pub status_of : Option ℕ → ℕ
status_of none = 502
status_of (some status) = status

abbrev pub retryable_statuses : List ℕ
retryable_statuses = 429 ∷ 500 ∷ 502 ∷ 503 ∷ 504 ∷ []
