-- ===== src/Readiness/Queries.antt =====
-- apps/shell/src/main/mcp-readiness.ts: what the queries of the tracker answer.
use mathlib.Core.List.{append_assoc, append-nil}
use native.Mathlib.Nat.{mod-lt, mod-add-div}
use deepseek_harness.Common.{
  Text, text_eq, drop, ℕ, suc, ◌+◌, ◌-◌, ◌*◌, ◌%◌, ◌≤◌, ◌<◌, ◌≡◌, refl, true, false, none, some,
  List, [], ◌∷◌, ◌++◌, length, length-append, filter, All, arith, map, Bool-cases, inl, inr, ap,
  ◌∙◌, sym, ◌==◌, ltb, if◌then◌else◌, ◌⊎◌, zero_or_pos, nat_eq,
}
use deepseek_harness.Readiness.Tracker.{
  McpReadinessTracker, McpCallRecord, new_tracker, record_call, trim_call_record, shift, is_of,
  ring_buffer_max, get_calls, get_last_call, last_of, get_call_stats, sum_durations, round_div,
  is_success, is_failure,
}
use deepseek_harness.Readiness.Bounds.{
  IsTrimmed, Update, update_all, update_all-IsBounded, length-shift,
}

-- A run of calls is recorded.
abbrev pub record_all : McpReadinessTracker → List McpCallRecord → McpReadinessTracker
record_all t [] = t
record_all t (call ∷ calls) = record_all (record_call t call) calls

length-map : (calls : List McpCallRecord) → length (map trim_call_record calls) ≡ length calls
length-map [] = refl
length-map (c ∷ calls) = omega (arith, length-map calls)

drop-shift :
    (n : ℕ) (xs ys : List McpCallRecord)
    → 0 < length xs
    → drop n (shift xs ++ ys) ≡ drop (suc n) (xs ++ ys)
drop-shift n [] ys h = absurd (omega arith)
drop-shift n (x ∷ xs) ys h = refl

-- The buffer holds the last 500 of the calls, in order.
ring :
    (t : McpReadinessTracker) (calls : List McpCallRecord)
    → length t.calls ≤ ring_buffer_max
    → (record_all t calls).calls
      ≡ drop
          (length t.calls + length calls - ring_buffer_max)
          (t.calls ++ map trim_call_record calls)
unfolding record_call
ring t [] h =
    let none_gone : length t.calls + 0 - ring_buffer_max ≡ 0 = omega arith in
    sym (rw none_gone (append-nil t.calls))
ring t (call ∷ calls) h =
    let c = trim_call_record call in
    let pushed = t.calls ++ (c ∷ []) in
    let rest = map trim_call_record calls in
    let size : length pushed ≡ length t.calls + 1 = length-append t.calls (c ∷ []) in
    let joined : pushed ++ rest ≡ t.calls ++ (c ∷ rest) = append_assoc t.calls (c ∷ []) rest in
    let n = length calls in
    elim (Bool-cases (ltb ring_buffer_max (length pushed))) [
      | inr fits ↦
          let q : McpReadinessTracker = record t { calls = pushed } in
          let same : record_call t call ≡ q =
            ap (λ b. record t { calls = if b then shift pushed else pushed }) fits in
          let small : length pushed ≤ ring_buffer_max = ground arith in
          let gone : length pushed + n - ring_buffer_max
              ≡ length t.calls + suc n - ring_buffer_max =
            omega arith in
          ap (λ r. (record_all r calls).calls) same
          ∙ ring q calls small
          ∙ ap (λ k. drop k (pushed ++ rest)) gone
          ∙ ap (drop (length t.calls + suc n - ring_buffer_max)) joined
      | inl over ↦
          let q : McpReadinessTracker = record t { calls = shift pushed } in
          let same : record_call t call ≡ q =
            ap (λ b. record t { calls = if b then shift pushed else pushed }) over in
          let shorter = length-shift pushed in
          let full : ring_buffer_max < length pushed = ground arith in
          let gone : suc (length (shift pushed) + n - ring_buffer_max)
              ≡ length t.calls + suc n - ring_buffer_max =
            omega arith in
          ap (λ r. (record_all r calls).calls) same
          ∙ ring q calls (omega arith)
          ∙ drop-shift (length (shift pushed) + n - ring_buffer_max) pushed rest (omega arith)
          ∙ ap (λ k. drop k (pushed ++ rest)) gone
          ∙ ap (drop (length t.calls + suc n - ring_buffer_max)) joined
    ]

-- The buffer of a new tracker holds the last 500 of the calls that were recorded, in order and each
-- trimmed.
pub record_all_keeps_last :
    (calls : List McpCallRecord)
    → get_calls (record_all new_tracker calls) none
      ≡ drop (length calls - 500) (map trim_call_record calls)
unfolding get_calls
record_all_keeps_last calls =
    let count : 0 + length calls - 500 ≡ length calls - 500 = omega arith in
    ring new_tracker calls (omega arith) ∙ ap (λ k. drop k (map trim_call_record calls)) count

last_of_cases :
    (server : Text) (calls : List McpCallRecord)
    → ((last_of server calls ≡ none) × (filter (is_of server) calls ≡ []))
      ⊎ ((call : McpCallRecord) × (earlier : List McpCallRecord) × (last_of server calls
            ≡ some call)
          × (filter (is_of server) calls ≡ earlier ++ (call ∷ [])))
last_of_cases server [] = inl (refl, refl)
last_of_cases server (c ∷ calls) = elim (last_of_cases server calls) [
  | inl (nothing, empty) ↦ elim (Bool-cases (is_of server c)) [
    | inl here ↦ rw (nothing, here, empty) (inr (c, [], refl, refl))
    | inr there ↦ rw (nothing, there, empty) (inl (refl, refl))
  ]
  | inr (call, earlier, last, all) ↦ elim (Bool-cases (is_of server c)) [
    | inl here ↦ rw (last, here, all) (inr (call, c ∷ earlier, refl, refl))
    | inr there ↦ rw (last, there, all) (inr (call, earlier, refl, refl))
  ]
]

-- The last call of a server is the last of its calls, and there is none exactly when it has no calls.
pub get_last_call-get_calls :
    (t : McpReadinessTracker) (server : Text)
    → ((get_last_call t server ≡ none) × (get_calls t (some server) ≡ []))
      ⊎ ((call : McpCallRecord) × (earlier : List McpCallRecord) × (get_last_call t server
            ≡ some call)
          × (get_calls t (some server) ≡ earlier ++ (call ∷ [])))
unfolding get_last_call get_calls
get_last_call-get_calls t server = last_of_cases server t.calls

counts_lem :
    (calls : List McpCallRecord)
    → length (filter (λ c. is_success c.status) calls)
        + length (filter (λ c. is_failure c.status) calls)
      ≡ length calls
counts_lem [] = omega arith
counts_lem (c ∷ calls) = let rest = counts_lem calls in ground arith

no_durations : (calls : List McpCallRecord) → length calls ≡ 0 → sum_durations calls ≡ 0
no_durations [] h = refl
no_durations (c ∷ calls) h = absurd (omega arith)

round_div_bounds :
    (sum total : ℕ)
    → 0 < total
    → (2 * total * round_div sum total ≤ 2 * sum + total)
      × (2 * sum ≤ 2 * total * round_div sum total + total)
round_div_bounds sum total h =
    let n = 2 * total in
    let low : (2 * sum + total) % n < n = mod-lt (2 * sum + total) (omega arith) in
    let whole = mod-add-div (2 * sum + total) (2 * total) in (omega arith, omega arith)

-- The counts of the stats add up, and the average is the mean duration, rounded to the nearest whole.
get_call_stats_adds_up :
    (t : McpReadinessTracker) (server : Text)
    → ((get_call_stats t server).total ≡ length (get_calls t (some server)))
      × ((get_call_stats t server).success + (get_call_stats t server).failed
          ≡ (get_call_stats t server).total)
      × (2 * (get_call_stats t server).total * (get_call_stats t server).avg_duration_ms
          ≤ 2 * sum_durations (get_calls t (some server)) + (get_call_stats t server).total)
      × (2 * sum_durations (get_calls t (some server))
          ≤ 2 * (get_call_stats t server).total * (get_call_stats t server).avg_duration_ms
            + (get_call_stats t server).total)
unfolding get_call_stats get_calls
get_call_stats_adds_up t server =
    let calls = filter (is_of server) t.calls in
    elim (zero_or_pos (length calls)) [
      | inl empty ↦
          let no_calls : (length calls == 0) ≡ true = ground arith in
          let no_time : sum_durations calls ≡ 0 = no_durations calls empty in
          rw no_calls (sym empty, omega arith, omega arith, omega arith)
      | inr busy ↦
          let some_calls : (length calls == 0) ≡ false = ground arith in
          let (low, high) = round_div_bounds (sum_durations calls) (length calls) busy in
          rw some_calls (refl, counts_lem calls, low, high)
    ]

none_of :
    (calls : List McpCallRecord) (server : Text)
    → 1024 < length server
    → All IsTrimmed calls
    → filter (is_of server) calls ≡ []
none_of [] server long a = refl
none_of (c ∷ calls) server long a = elim (Bool-cases (is_of server c)) [
  | inl same ↦
      let e : c.server_id ≡ server = (text_eq.decides c.server_id server).0 same in
      let short : length c.server_id ≤ 1024 = a.0.1 in
      let size : length c.server_id ≡ length server = ap length e in absurd (omega arith)
  | inr other ↦ rw other (none_of calls server long a.1)
]

-- The calls of a server with a name above 1,024 units are never found under that name.
long_server_not_found :
    (us : List Update) (server : Text)
    → 1024 < length server
    → get_calls (update_all new_tracker us) (some server) ≡ []
unfolding get_calls
long_server_not_found us server long = none_of _ server long ((update_all-IsBounded us).1)
