-- ===== src/Readiness/Bounds.antt =====
-- apps/shell/src/main/mcp-readiness.ts: the tracker stays small, and its buffer is a ring.
use deepseek_harness.Common.{
  contains-snoc, Text, text_eq, length-take, ◌-◌, ◌≤◌, ◌≡◌, refl, Bool, true, false, not, Option,
  none, some, List, [], ◌∷◌, ◌++◌, length, length-append, filter, contains, All, arith, Bool-cases,
  Option-cases, inl, inr, ◌∙◌, sym, ◌==◌, leb, length-filter-le, ltb, ◌||◌, not_true,
}
use deepseek_harness.Common.JsMap.{JsMap, get}
use deepseek_harness.Common.JsMap.Entries.{set-All, delete-All, get-All}
use deepseek_harness.Readiness.Tracker.{
  McpReadinessTracker, McpCallRecord, new_tracker, record_call, register_tool, reset_server,
  trim_string, trim_optional, trim_call_record, shift, is_of, or_empty, ring_buffer_max,
  max_string_length,
}

pub trim_string_bounds : (value : Text) → length (trim_string value) ≤ 1024
unfolding trim_string
trim_string_bounds value = elim (Bool-cases (leb (length value) max_string_length)) [
  | inl fits ↦ rw fits (ground arith)
  | inr long ↦ rw long (let e = length-take max_string_length value in omega arith)
]

abbrev pub IsShort : Text → Type 0
IsShort value = length value ≤ 1024

abbrev pub IsShortOption : Option Text → Type 0
IsShortOption none = Unit
IsShortOption (some value) = IsShort value

-- The texts of a record are short.
abbrev pub IsTrimmed : McpCallRecord → Type 0
IsTrimmed call =
    IsShort call.request_id
    × IsShort call.server_id
    × IsShortOption call.tool_name
    × IsShortOption call.error

-- No tool stands twice.
abbrev pub NoTwice : List Text → Type 0
NoTwice [] = Unit
NoTwice (tool ∷ tools) = (contains tools tool ≡ false) × NoTwice tools

-- A roster under a short name: short tools, none twice.
abbrev pub IsRoster : Text × List Text → Type 0
IsRoster b = IsShort b.0 × All IsShort b.1 × NoTwice b.1

abbrev pub IsBounded : McpReadinessTracker → Type 0
IsBounded t =
    (length t.calls ≤ ring_buffer_max) × All IsTrimmed t.calls × All IsRoster t.tool_rosters

trim_optional_lem : (o : Option Text) → IsShortOption (trim_optional o)
trim_optional_lem none = tt
trim_optional_lem (some value) = trim_string_bounds value

trim_call_record-IsTrimmed : (call : McpCallRecord) → IsTrimmed (trim_call_record call)
unfolding trim_call_record
trim_call_record-IsTrimmed call = (
  trim_string_bounds call.request_id,
  trim_string_bounds call.server_id,
  trim_optional_lem call.tool_name,
  trim_optional_lem call.error,
)

module _ {ℓ κ} {A : Type ℓ} (P : A → Type κ) where
  snoc-All : (xs : List A) (x : A) → All P xs → P x → All P (xs ++ (x ∷ []))
  snoc-All [] x a h = (h, tt)
  snoc-All (y ∷ xs) x a h = (a.0, snoc-All xs x a.1 h)

  filter-All-of : (p : A → Bool) (xs : List A) → All P xs → All P (filter p xs)
  filter-All-of p [] a = tt
  filter-All-of p (x ∷ xs) a = elim (Bool-cases (p x)) [
    | inl kept ↦ rw kept (a.0, filter-All-of p xs a.1)
    | inr gone ↦ rw gone (filter-All-of p xs a.1)
  ]

shift-All : (xs : List McpCallRecord) → All IsTrimmed xs → All IsTrimmed (shift xs)
shift-All [] a = tt
shift-All (x ∷ xs) a = a.1

pub length-shift : (xs : List McpCallRecord) → length (shift xs) ≡ length xs - 1
length-shift [] = omega arith
length-shift (x ∷ xs) = omega arith

or_false : (a b : Bool) → (a || b) ≡ false → (a ≡ false) × (b ≡ false)
or_false true b h = absurd (cc h)
or_false false b h = (refl, h)

text_beq_flip : (a b : Text) → (a == b) ≡ true → (b == a) ≡ true
text_beq_flip a b e = (text_eq.decides b a).1 (sym ((text_eq.decides a b).0 e))

snoc-NoTwice :
    (xs : List Text) (x : Text) → NoTwice xs → contains xs x ≡ false → NoTwice (xs ++ (x ∷ []))
snoc-NoTwice [] x n h = (refl, tt)
snoc-NoTwice (y ∷ xs) x n h =
    let (other, later) = or_false (y == x) (contains xs x) h in
    (
      contains-snoc xs x y
          ∙ (rw (n.0, not_true (x == y) (λ e. absurd (cc (other, text_beq_flip x y e)))) refl),
      snoc-NoTwice xs x n.1 later,
    )

record_call-IsBounded :
    (t : McpReadinessTracker) (call : McpCallRecord) → IsBounded t → IsBounded (record_call t call)
unfolding record_call
record_call-IsBounded t call b =
    let pushed = t.calls ++ (trim_call_record call ∷ []) in
    let all =
      snoc-All IsTrimmed t.calls (trim_call_record call) b.1 (trim_call_record-IsTrimmed call) in
    let size = length-append t.calls (trim_call_record call ∷ []) in
    elim (Bool-cases (ltb ring_buffer_max (length pushed))) [
      | inl over ↦ rw over (let s = length-shift pushed in omega arith, shift-All pushed all, b.2)
      | inr fits ↦ rw fits (ground arith, all, b.2)
    ]

or_empty-get-IsRoster :
    (m : JsMap Text (List Text)) (server : Text)
    → IsShort server
    → All IsRoster m
    → IsRoster (server, or_empty (get server m))
or_empty-get-IsRoster m server short a = elim (Option-cases (get server m)) [
  | inl missing ↦ rw missing (short, tt, tt)
  | inr (roster, found) ↦ rw found (get-All IsRoster server m a found)
]

register_tool-IsBounded :
    (t : McpReadinessTracker) (server tool : Text)
    → IsBounded t
    → IsBounded (register_tool t server tool)
unfolding register_tool
register_tool-IsBounded t server tool b =
    let roster = or_empty (get (trim_string server) t.tool_rosters) in
    let old =
      or_empty-get-IsRoster t.tool_rosters (trim_string server) (trim_string_bounds server) b.2 in
    elim (Bool-cases (contains roster (trim_string tool))) [
      | inl known ↦ rw known b
      | inr new ↦ rw new (
        b.0,
        b.1,
        set-All IsRoster _ _ t.tool_rosters
            (
              old.0,
              snoc-All IsShort roster (trim_string tool) old.1 (trim_string_bounds tool),
              snoc-NoTwice roster (trim_string tool) old.2 new,
            )
            b.2,
      )
    ]

reset_server-IsBounded :
    (t : McpReadinessTracker) (server : Text) → IsBounded t → IsBounded (reset_server t server)
unfolding reset_server
reset_server-IsBounded t server b =
    let p = λ (call : McpCallRecord). not (is_of (trim_string server) call) in
    let size = length-filter-le p t.calls in
    (
      omega (arith, b.0),
      filter-All-of IsTrimmed p t.calls b.1,
      delete-All IsRoster (trim_string server) t.tool_rosters b.2,
    )

pub data Update : Type 0 where
  records : McpCallRecord → Update
  registers : Text → Text → Update
  resets : Text → Update

unfoldable pub update_all : McpReadinessTracker → List Update → McpReadinessTracker
unfolding record_call register_tool reset_server
update_all t [] = t
update_all t (records call ∷ us) = update_all (record_call t call) us
update_all t (registers server tool ∷ us) = update_all (register_tool t server tool) us
update_all t (resets server ∷ us) = update_all (reset_server t server) us

update_all-keeps :
    (t : McpReadinessTracker) (us : List Update) → IsBounded t → IsBounded (update_all t us)
unfolding update_all
update_all-keeps t [] b = b
update_all-keeps t (records call ∷ us) b =
    update_all-keeps (record_call t call) us (record_call-IsBounded t call b)
update_all-keeps t (registers server tool ∷ us) b =
    update_all-keeps (register_tool t server tool) us (register_tool-IsBounded t server tool b)
update_all-keeps t (resets server ∷ us) b =
    update_all-keeps (reset_server t server) us (reset_server-IsBounded t server b)

-- After any calls of the methods the tracker has at most 500 records, each text in it has at most
-- 1,024 units, and no server has a tool twice.
pub update_all-IsBounded : (us : List Update) → IsBounded (update_all new_tracker us)
update_all-IsBounded us = update_all-keeps new_tracker us (omega arith, tt, tt)
