-- ===== src/Readiness/Rosters.antt =====
-- apps/shell/src/main/mcp-readiness.ts: the tools of the servers, and what a reset forgets.
use deepseek_harness.Common.{
  contains-snoc, Text, text_eq, ◌≡◌, ◌≢◌, refl, Bool, true, false, not, none, some, List, [], ◌∷◌,
  ◌++◌, filter, contains, Bool-cases, Option-cases, inl, inr, ap, ◌∙◌, sym, subst, ◌==◌,
  if◌then◌else◌, ◌||◌, ◌&&◌, not_true, nat_eq,
}
use deepseek_harness.Common.JsMap.{JsMap, get, set, delete, get-set, get-delete}
use deepseek_harness.Readiness.Tracker.{
  McpReadinessTracker, McpCallRecord, register_tool, reset_server, trim_string, is_tool_registered,
  is_of, or_empty, get_calls, get_tool_roster,
}

or_right : (x : Bool) → (x || false) ≡ x
or_right true = refl
or_right false = refl

has_tool : JsMap Text (List Text) → Text → Text → Bool
has_tool m a b = contains (or_empty (get a m)) b

has_tool_iff :
    (t : McpReadinessTracker) (server tool : Text)
    → is_tool_registered t server tool
      ≡ has_tool t.tool_rosters (trim_string server) (trim_string tool)
unfolding is_tool_registered has_tool
has_tool_iff t server tool = elim (Option-cases (get (trim_string server) t.tool_rosters)) [
  | inl e ↦ rw (e, is_tool_registered) refl
  | inr (r, e) ↦ rw (e, is_tool_registered) refl
]

module _ (m : JsMap Text (List Text)) (a b c d : Text) where
  known_lem : has_tool m a b ≡ true → has_tool m c d ≡ (has_tool m c d || ((a == c) && (b == d)))
  known_lem h = elim (Bool-cases (a == c)) [
    | inr other ↦ rw other (sym (or_right (has_tool m c d)))
    | inl same ↦ elim (Bool-cases (b == d)) [
      | inr other ↦ rw (same, other) (sym (or_right (has_tool m c d)))
      | inl equal ↦
          let found : has_tool m c d ≡ true =
            cc (h, (text_eq.decides a c).0 same, (text_eq.decides b d).0 equal) in
          rw (same, equal, found) refl
    ]
  ]

  added_lem :
      has_tool (set a (or_empty (get a m) ++ (b ∷ [])) m) c d
      ≡ (has_tool m c d || ((a == c) && (b == d)))
  unfolding has_tool
  added_lem =
      let roster = or_empty (get a m) ++ (b ∷ []) in
      let found : get c (set a roster m) ≡ (if a == c then some roster else get c m) =
        get-set a c roster m in
      elim (Bool-cases (a == c)) [
        | inr other ↦ rw (found, other) (sym (or_right _))
        | inl same ↦
            let e : a ≡ c = (text_eq.decides a c).0 same in
            let snoc : contains roster d ≡ (contains (or_empty (get c m)) d || (b == d)) =
              contains-snoc (or_empty (get a m)) b d
              ∙ ap (λ k. contains (or_empty (get k m)) d || (b == d)) e in
            rw (found, same) snoc
      ]

-- A tool is registered for a server after a registration exactly if it was before, or if server and
-- tool are the same up to their first 1,024 units.
is_tool_registered-register_tool :
    (t : McpReadinessTracker) (server tool other_server other_tool : Text)
    → is_tool_registered (register_tool t server tool) other_server other_tool ≡ (
        is_tool_registered t other_server other_tool
        || ((trim_string server == trim_string other_server)
            && (trim_string tool == trim_string other_tool)))
unfolding register_tool has_tool
is_tool_registered-register_tool t server tool other_server other_tool =
    let m = t.tool_rosters in
    let a = trim_string server in
    let b = trim_string tool in
    let c = trim_string other_server in
    let d = trim_string other_tool in
    has_tool_iff (register_tool t server tool) other_server other_tool
    ∙ elim (Bool-cases (contains (or_empty (get a m)) b)) [
      | inl known ↦ rw known (known_lem m a b c d known)
      | inr new ↦ rw new (added_lem m a b c d)
    ]
    ∙ ap (λ x. x || ((a == c) && (b == d))) (sym (has_tool_iff t other_server other_tool))

reset_calls_gone :
    (s : Text) (calls : List McpCallRecord)
    → filter (is_of s) (filter (λ c. not (is_of s c)) calls) ≡ []
reset_calls_gone s [] = refl
reset_calls_gone s (c ∷ calls) = elim (Bool-cases (is_of s c)) [
  | inl here ↦ rw here (reset_calls_gone s calls)
  | inr there ↦ rw (there, there) (reset_calls_gone s calls)
]

reset_calls_kept :
    (s k : Text) (calls : List McpCallRecord)
    → (s == k) ≡ false
    → filter (is_of k) (filter (λ c. not (is_of s c)) calls) ≡ filter (is_of k) calls
reset_calls_kept s k [] h = refl
reset_calls_kept s k (c ∷ calls) h = elim (Bool-cases (is_of s c)) [
  | inl here ↦
      let away : is_of k c ≡ false =
        subst (λ x. (x == k) ≡ false) (sym ((text_eq.decides c.server_id s).0 here)) h in
      rw (here, away) (reset_calls_kept s k calls h)
  | inr there ↦ elim (Bool-cases (is_of k c)) [
    | inl mine ↦ rw (there, mine) (ap (λ r. c ∷ r) (reset_calls_kept s k calls h))
    | inr not_mine ↦ rw (there, not_mine) (reset_calls_kept s k calls h)
  ]
]

gone_lem : (s k : Text) (m : JsMap Text (List Text)) → s ≡ k → get k (delete s m) ≡ none
gone_lem s k m e = get-delete s k m ∙ rw ((text_eq.decides s k).1 e) refl

kept_lem : (s k : Text) (m : JsMap Text (List Text)) → s ≢ k → get k (delete s m) ≡ get k m
kept_lem s k m n =
    get-delete s k m ∙ rw (not_true (s == k) (λ e. n ((text_eq.decides s k).0 e))) refl

-- After a reset a server has no calls under its trimmed name and no tools; the calls and the tools of
-- the servers with another name are as before.
reset_server_forgets :
    (t : McpReadinessTracker) (server other : Text)
    → (get_calls (reset_server t server) (some (trim_string server)) ≡ [])
      × (get_tool_roster (reset_server t server) server ≡ [])
      × (other ≢ trim_string server
          → get_calls (reset_server t server) (some other) ≡ get_calls t (some other))
      × (trim_string other ≢ trim_string server
          → get_tool_roster (reset_server t server) other ≡ get_tool_roster t other)
unfolding get_calls reset_server get_tool_roster
reset_server_forgets t server other =
    let s = trim_string server in
    (
      reset_calls_gone s t.calls,
      ap or_empty (gone_lem s s t.tool_rosters refl),
      λ h.
          reset_calls_kept s other t.calls
            (not_true (s == other) (λ e. h (sym ((text_eq.decides s other).0 e)))),
      λ h. ap or_empty (kept_lem s (trim_string other) t.tool_rosters (λ e. h (sym e))),
    )
