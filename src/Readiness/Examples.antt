-- ===== src/Readiness/Examples.antt =====
-- Concrete calls: tests of apps/shell/src/main/mcp-readiness.ts, and each theorem at some of them.
use deepseek_harness.Common.{
  Text, text_eq, ℕ, zero, suc, ◌-◌, ◌≡◌, refl, none, List, [], ◌∷◌, length, map, drop, ap,
}
use deepseek_harness.Readiness.Tracker.{
  McpReadinessTracker, McpCallRecord, new_tracker, success, get_calls, get_call_stats,
  trim_call_record,
}
use deepseek_harness.Readiness.Bounds.{
  Update, records, registers, update_all, IsBounded, update_all-IsBounded,
}
use deepseek_harness.Readiness.Queries.{record_all, record_all_keeps_last}

abbrev files : Text
files = 102 ∷ []

abbrev web : Text
web = 119 ∷ []

abbrev call_to : Text → ℕ → McpCallRecord
call_to server duration = record {
  request_id = 1 ∷ [];
  server_id = server;
  tool_name = none;
  attempt = 1;
  status = success;
  start_time = 0;
  duration_ms = duration;
  error = none;
}

abbrev updates : List Update
updates =
    records (call_to files 10)
    ∷ registers files web
    ∷ records (call_to web 3)
    ∷ records (call_to files 13)
    ∷ []

abbrev tracker : McpReadinessTracker
tracker = update_all new_tracker updates

-- A test: the mean of 10 and 13 is rounded up.
rounded : (get_call_stats tracker files).avg_duration_ms ≡ 12
unfolding get_call_stats update_all trim_call_record
rounded = refl

update_all-IsBounded_example : IsBounded (update_all new_tracker updates)
update_all-IsBounded_example = update_all-IsBounded updates

record_all_keeps_last_example :
    get_calls (record_all new_tracker (call_to files 10 ∷ call_to web 3 ∷ [])) none
    ≡ drop (2 - 500) (map trim_call_record (call_to files 10 ∷ call_to web 3 ∷ []))
record_all_keeps_last_example = record_all_keeps_last (call_to files 10 ∷ call_to web 3 ∷ [])

-- A server with a name of 1,025 units.
name_of_length : ℕ → Text
name_of_length zero = []
name_of_length (suc n) = 97 ∷ name_of_length n

name_of_length_lem : (n : ℕ) → length (name_of_length n) ≡ n
unfolding name_of_length
name_of_length_lem zero = refl
name_of_length_lem (suc n) = ap suc (name_of_length_lem n)
