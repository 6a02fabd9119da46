-- ===== src/Readiness/Tracker.antt =====
-- apps/shell/src/main/mcp-readiness.ts: the records, the tracker and its methods. A text is the list
-- of its UTF-16 units, and a duration a whole number of milliseconds.
use deepseek_harness.Common.{
  Text, text_eq, take, ℕ, ◌+◌, ◌*◌, ◌/◌, Bool, true, false, not, Option, none, some, List, [], ◌∷◌,
  ◌++◌, length, filter, contains, ltb, leb, ◌==◌, nat_eq, if◌then◌else◌,
}
use deepseek_harness.Common.JsMap.{JsMap, get, set, delete}

abbrev pub max_string_length : ℕ
max_string_length = 1024

abbrev pub ring_buffer_max : ℕ
ring_buffer_max = 500

pub data McpCallStatus : Type 0 where
  success failed timeout cancelled : McpCallStatus

abbrev pub is_success : McpCallStatus → Bool
is_success success = true
is_success _ = false

-- `status === 'failed' || status === 'timeout' || status === 'cancelled'`.
abbrev pub is_failure : McpCallStatus → Bool
is_failure success = false
is_failure failed = true
is_failure timeout = true
is_failure cancelled = true

pub record McpCallRecord : Type 0 where
  pub request_id : Text
  pub server_id : Text
  pub tool_name : Option Text
  pub attempt : ℕ
  pub status : McpCallStatus
  pub start_time : ℕ
  pub duration_ms : ℕ
  pub error : Option Text

unfoldable pub trim_string : Text → Text
trim_string value =
    if leb (length value) max_string_length then value else take max_string_length value

abbrev pub trim_optional : Option Text → Option Text
trim_optional none = none
trim_optional (some value) = some (trim_string value)

unfoldable pub trim_call_record : McpCallRecord → McpCallRecord
trim_call_record call = record {
  request_id = trim_string call.request_id;
  server_id = trim_string call.server_id;
  tool_name = trim_optional call.tool_name;
  attempt = call.attempt;
  status = call.status;
  start_time = call.start_time;
  duration_ms = call.duration_ms;
  error = trim_optional call.error;
}

pub record McpReadinessTracker : Type 0 where
  pub calls : List McpCallRecord
  pub tool_rosters : JsMap Text (List Text)

abbrev pub new_tracker : McpReadinessTracker
new_tracker = record { calls = []; tool_rosters = [] }

-- `calls.shift()`.
abbrev pub shift : List McpCallRecord → List McpCallRecord
shift [] = []
shift (call ∷ calls) = calls

abbrev pub push_call : List McpCallRecord → McpCallRecord → List McpCallRecord
push_call calls call =
    let pushed = calls ++ (trim_call_record call ∷ []) in
    if ltb ring_buffer_max (length pushed) then shift pushed else pushed

unfoldable pub record_call : McpReadinessTracker → McpCallRecord → McpReadinessTracker
record_call t call = record t { calls = push_call t.calls call }

abbrev pub is_of : Text → McpCallRecord → Bool
is_of server call = call.server_id == server

unfoldable pub get_calls : McpReadinessTracker → Option Text → List McpCallRecord
get_calls t none = t.calls
get_calls t (some server) = filter (is_of server) t.calls

-- The loop from the end: the last call of the server.
abbrev pub last_of : Text → List McpCallRecord → Option McpCallRecord
last_of server [] = none
last_of server (call ∷ calls) =
    let later = last_of server calls in
    elim later [ some found ↦ some found | none ↦ if is_of server call then some call else none ]

unfoldable pub get_last_call : McpReadinessTracker → Text → Option McpCallRecord
get_last_call t server = last_of server t.calls

abbrev pub or_empty : Option (List Text) → List Text
or_empty none = []
or_empty (some roster) = roster

unfoldable pub register_tool : McpReadinessTracker → Text → Text → McpReadinessTracker
unfolding trim_string
register_tool t server tool =
    let roster = or_empty (get (trim_string server) t.tool_rosters) in
    if contains roster (trim_string tool) then t else record t {
      tool_rosters = set (trim_string server) (roster ++ (trim_string tool ∷ [])) t.tool_rosters;
    }

unfoldable pub is_tool_registered : McpReadinessTracker → Text → Text → Bool
unfolding trim_string
is_tool_registered t server tool = elim (get (trim_string server) t.tool_rosters) [
  | none ↦ false
  | some roster ↦ contains roster (trim_string tool)
]

unfoldable pub get_tool_roster : McpReadinessTracker → Text → List Text
unfolding trim_string
get_tool_roster t server = or_empty (get (trim_string server) t.tool_rosters)

unfoldable pub reset_server : McpReadinessTracker → Text → McpReadinessTracker
unfolding trim_string
reset_server t server = record t {
  calls = filter (λ call. not (is_of (trim_string server) call)) t.calls;
  tool_rosters = delete (trim_string server) t.tool_rosters;
}

pub record CallStats : Type 0 where
  pub total : ℕ
  pub success : ℕ
  pub failed : ℕ
  pub avg_duration_ms : ℕ

abbrev pub sum_durations : List McpCallRecord → ℕ
sum_durations [] = 0
sum_durations (call ∷ calls) = call.duration_ms + sum_durations calls

-- `Math.round(sum / total)`, halves up.
abbrev pub round_div : ℕ → ℕ → ℕ
round_div sum total = (2 * sum + total) / (2 * total)

unfoldable pub get_call_stats : McpReadinessTracker → Text → CallStats
get_call_stats t server =
    let calls = filter (is_of server) t.calls in
    if length calls == 0
    then record { total = 0; success = 0; failed = 0; avg_duration_ms = 0 }
    else record {
      total = length calls;
      success = length (filter (λ c. is_success c.status) calls);
      failed = length (filter (λ c. is_failure c.status) calls);
      avg_duration_ms = round_div (sum_durations calls) (length calls);
    }
