-- ===== src/Balancer/Bodies.antt =====
-- packages/opencode-adapter/src/lb.ts: what becomes of a request's body.
use mathlib.Core.List.{append_assoc, append-nil}
use deepseek_harness.Common.{
  refl, ltb→lt, ℕ, ◌+◌, ◌≤◌, ◌<◌, ◌≡◌, ◌↔◌, inl, inr, List, [], ◌∷◌, ◌++◌, length, length-append,
  arith, Bool-cases, ltb, ap, ◌∙◌, sym,
}
use deepseek_harness.Balancer.State.{retry_body_cap_bytes}
use deepseek_harness.Balancer.Http.{
  Request, Buffered, whole, too_large, buffer_chunks, buffer_request_body, concat, sent_bytes,
}

-- All is read within the cap; else what is left misses at least the bytes of the cap.
abbrev Buffers : ℕ → List ℕ → List (List ℕ) → Buffered → Type 0
Buffers total bytes chunks (whole all) =
    (all ≡ bytes ++ concat chunks) × (total + length (concat chunks) ≤ retry_body_cap_bytes)
Buffers total bytes chunks (too_large rest) =
    retry_body_cap_bytes + length (concat rest) < total + length (concat chunks)

buffer_chunks-Buffers :
    (total : ℕ) (bytes : List ℕ) (chunks : List (List ℕ))
    → total ≤ retry_body_cap_bytes
    → Buffers total bytes chunks (buffer_chunks total bytes chunks)
unfolding buffer_chunks
buffer_chunks-Buffers total bytes [] h = (sym (append-nil bytes), omega arith)
buffer_chunks-Buffers total bytes (chunk ∷ chunks) h =
    elim (Bool-cases (ltb retry_body_cap_bytes (total + length chunk))) [
      | inl over ↦ rw over (omega (arith, ltb→lt _ _ over, length-append chunk (concat chunks)))
      | inr fits ↦ rw fits (
          by_rest (buffer_chunks (total + length chunk) (bytes ++ chunk) chunks)
            (buffer_chunks-Buffers (total + length chunk) (bytes ++ chunk) chunks (ground arith)))
    ]
  where
    by_rest :
        (r : Buffered)
        → Buffers (total + length chunk) (bytes ++ chunk) chunks r
        → Buffers total bytes (chunk ∷ chunks) r
    by_rest (whole all) (e, n) = (
      e ∙ append_assoc bytes chunk (concat chunks),
      omega (arith, length-append chunk (concat chunks)),
    )
    by_rest (too_large rest) n = omega (arith, length-append chunk (concat chunks))

-- A body is buffered, whole and in order, exactly when it is no longer than the cap.
pub buffer_request_body_iff :
    (req : Request)
    → (buffer_request_body req ≡ whole (concat req.chunks))
      ↔ (length (concat req.chunks) ≤ retry_body_cap_bytes)
unfolding buffer_request_body
buffer_request_body_iff req =
    by_result (buffer_chunks 0 [] req.chunks) (buffer_chunks-Buffers 0 [] req.chunks (omega arith))
  where
    by_result :
        (r : Buffered)
        → Buffers 0 [] req.chunks r
        → (r ≡ whole (concat req.chunks)) ↔ (length (concat req.chunks) ≤ retry_body_cap_bytes)
    by_result (whole all) (e, n) = ((λ _. omega (arith, n)), λ _. ap whole e)
    by_result (too_large rest) n = ((λ e. absurd (cc e)), λ k. absurd (omega (arith, n, k)))

-- Of a longer body nothing is sent on.
oversize_body_lost :
    (req : Request)
    → retry_body_cap_bytes < length (concat req.chunks)
    → sent_bytes (buffer_request_body req) ≡ []
unfolding buffer_request_body
oversize_body_lost req h =
    by_result (buffer_chunks 0 [] req.chunks) (buffer_chunks-Buffers 0 [] req.chunks (omega arith))
  where
    by_result : (r : Buffered) → Buffers 0 [] req.chunks r → sent_bytes r ≡ []
    by_result (whole all) (e, n) = absurd (omega (arith, h, n))
    by_result (too_large rest) n = refl
