-- ===== src/Mcp/Patch.antt =====
-- apps/shell/src/main/mcp-home.ts: `mergeManagedPatch`, with the replacement patterns of `replace`.
use deepseek_harness.Common.{
  Text, ℕ, Bool, true, false, Option, none, some, [], ◌∷◌, ◌++◌, ◌==◌, nat_eq, reverse,
  if◌then◌else◌,
}
use deepseek_harness.Supervisor.Output.{units, strip}
use deepseek_harness.Update.Version.{trim_start}

abbrev pub patch_begin : Text
patch_begin = units "# BEGIN FREECODE MANAGED MCP"

abbrev pub patch_end : Text
patch_end = units "# END FREECODE MANAGED MCP"

-- The first place where a text stands in another: what is before it, and what is after it.
abbrev pub before_unit : ℕ → Option (Text × Text) → Option (Text × Text)
before_unit c none = none
before_unit c (some (before, after)) = some (c ∷ before, after)

abbrev pub cut_here : Option Text → Option (Text × Text) → Option (Text × Text)
cut_here none later = later
cut_here (some after) later = some ([], after)

unfoldable pub cut_at : Text → Text → Option (Text × Text)
cut_at p [] = cut_here (strip p []) none
cut_at p (c ∷ cs) = cut_here (strip p (c ∷ cs)) (before_unit c (cut_at p cs))

-- `\r?\n?`.
abbrev pub skip_unit : ℕ → Text → Text
skip_unit u [] = []
skip_unit u (c ∷ cs) = if c == u then cs else c ∷ cs

abbrev pub skip_line_end : Text → Text
skip_line_end text = skip_unit 10 (skip_unit 13 text)

-- What `block` matches: the text before it, between its two marks, and after it. When no end follows
-- the first begin, none follows a later one.
pub record Block : Type 0 where
  pub before : Text
  pub inner : Text
  pub after_end : Text

abbrev pub block_after : Text → Option (Text × Text) → Option Block
block_after before none = none
block_after before (some (inner, after)) =
    some (record { before = before; inner = inner; after_end = after })

abbrev pub block_in : Option (Text × Text) → Option Block
block_in none = none
block_in (some (before, after)) = block_after before (cut_at patch_end after)

unfoldable pub find_block : Text → Option Block
find_block existing = block_in (cut_at patch_begin existing)

-- The replacement text of `replace`: `$$`, `$&`, and the texts around the match; the flag says that a
-- `$` has just been read.
module _ (before matched after : Text) where
  abbrev pub pattern_of : ℕ → Text
  pattern_of c =
      if c == 36
      then 36 ∷ []
      else if c == 38
      then matched
      else if c == 96
      then before
      else if c == 39
      then after
      else 36 ∷ c ∷ []

  abbrev pub expand_from : Bool → Text → Text
  expand_from false [] = []
  expand_from true [] = 36 ∷ []
  expand_from true (c ∷ cs) = pattern_of c ++ expand_from false cs
  expand_from false (c ∷ cs) = if c == 36 then expand_from true cs else c ∷ expand_from false cs

abbrev pub first_unit : ℕ → Text → Text
first_unit u [] = []
first_unit u (c ∷ cs) = if c == u then c ∷ [] else []

abbrev pub matched_by : Block → Text
matched_by b =
    patch_begin
    ++ (b.inner
        ++ (patch_end ++ (first_unit 13 b.after_end ++ first_unit 10 (skip_unit 13 b.after_end))))

abbrev pub replacement : Block → Text → Text
replacement b text = expand_from b.before (matched_by b) (skip_line_end b.after_end) false text

abbrev pub trim_end : Text → Text
trim_end text = reverse (trim_start (reverse text))

abbrev pub starts_line_end : Text → Bool
starts_line_end [] = false
starts_line_end (c ∷ cs) = c == 10

abbrev pub with_line_end : Text → Text
with_line_end text = if starts_line_end (reverse text) then text else text ++ (10 ∷ [])

abbrev pub append_block : Text → Text → Text
append_block [] block = block
append_block (c ∷ cs) block = (c ∷ cs) ++ (10 ∷ 10 ∷ block)

abbrev pub merge_at : Text → Text → Option Block → Text
merge_at existing block none = append_block (trim_end existing) block
merge_at existing block (some b) = b.before ++ (replacement b block ++ skip_line_end b.after_end)

unfoldable pub merge_managed_patch : Text → Text → Text
merge_managed_patch existing generated =
    merge_at existing (with_line_end generated) (find_block existing)
