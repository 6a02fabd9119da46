-- ===== src/Mcp/Twice.antt =====
-- apps/shell/src/main/mcp-home.ts: `mergeManagedPatch` on what it gave before, as on each start.
use mathlib.Core.List.{append_assoc, append-nil}
use deepseek_harness.Common.{
  Text, none, some, [], ◌∷◌, ◌++◌, ◌≡◌, ◌⊎◌, inl, inr, refl, sym, ap, ◌∙◌, subst, nat_eq,
}
use deepseek_harness.Mcp.Patch.{
  patch_begin, patch_end, cut_at, Block, find_block, block_in, block_after, trim_end, append_block,
  merge_managed_patch, skip_line_end,
}
use deepseek_harness.Mcp.Search.{cut_at-again, cut_at-line, cut_at-prefix, cut_at_sound}
use deepseek_harness.Mcp.Merge.{IsBlock, merge-found, merge-absent, found_at, merge_again}
use deepseek_harness.Mcp.Rows.{trim_end-split, find_block-cut, merge_appended, no_end_in_nothing}

trim_end_unmarked :
    (t : Text) → cut_at patch_begin t ≡ none → cut_at patch_begin (trim_end t) ≡ none
trim_end_unmarked t h =
    let (spaces, e) = trim_end-split t in
    cut_at-prefix patch_begin (trim_end t) spaces (ap (cut_at patch_begin) (sym e) ∙ h)

unmarked_absent : (t : Text) → cut_at patch_begin t ≡ none → find_block t ≡ none
unfolding find_block
unmarked_absent t h = ap block_in h

twice_found :
    (existing g : Text) (b : Block)
    → IsBlock g
    → find_block existing ≡ some b
    → merge_managed_patch (b.before ++ (g ++ skip_line_end b.after_end)) g
      ≡ b.before ++ (g ++ skip_line_end b.after_end)
unfolding find_block
twice_found existing g b is found =
    let (after, cut, shape) = find_block-cut (cut_at patch_begin existing) b found in
    merge_again g b.before after (skip_line_end b.after_end) is (
      subst (λ t. cut_at patch_begin t ≡ some (b.before, after))
        (cut_at_sound patch_begin existing b.before after cut) cut)

-- Merging a generated block, with its marks once each and no `$`, a second time changes nothing, if
-- the file had a whole block or no begin mark at first.
pub merge-merge_managed_patch :
    (existing g : Text)
    → IsBlock g
    → ((b : Block) × (find_block existing ≡ some b)) ⊎ (cut_at patch_begin existing ≡ none)
    → merge_managed_patch (merge_managed_patch existing g) g ≡ merge_managed_patch existing g
merge-merge_managed_patch existing g is (inl (b, found)) =
    subst (λ t. merge_managed_patch t g ≡ t) (sym (merge-found existing g b is found))
      (twice_found existing g b is found)
merge-merge_managed_patch existing g is (inr unmarked) =
    subst (λ t. merge_managed_patch t g ≡ t)
      (sym (merge-absent existing g is (unmarked_absent existing unmarked)))
      (merge_appended (trim_end existing) g is (trim_end_unmarked existing unmarked))

end_appended :
    (after g inner : Text)
    → cut_at patch_end after ≡ none
    → cut_at patch_end g ≡ some (inner, 10 ∷ [])
    → cut_at patch_end (after ++ (10 ∷ 10 ∷ g)) ≡ some (after ++ (10 ∷ 10 ∷ inner), 10 ∷ [])
end_appended after g inner h k =
    cut_at-line patch_end after 10 (10 ∷ g) (10 ∷ inner) (10 ∷ []) refl h
      (cut_at-line patch_end [] 10 g inner (10 ∷ []) refl no_end_in_nothing k)

stray_text :
    (before after g : Text)
    → (before ++ (patch_begin ++ after)) ++ (10 ∷ 10 ∷ g)
      ≡ before ++ (patch_begin ++ (after ++ (10 ∷ 10 ∷ g)))
stray_text before after g =
    append_assoc before (patch_begin ++ after) (10 ∷ 10 ∷ g)
    ∙ ap (λ t. before ++ t) (append_assoc patch_begin after (10 ∷ 10 ∷ g))

append_block-stray :
    (before after g : Text)
    → append_block (before ++ (patch_begin ++ after)) g
      ≡ before ++ (patch_begin ++ (after ++ (10 ∷ 10 ∷ g)))
append_block-stray [] after g = stray_text [] after g
append_block-stray (c ∷ before) after g = stray_text (c ∷ before) after g

-- In a file whose first begin mark has no end mark after it, and which does not end in spaces, what
-- follows the mark is lost: the first merge appends a generated block at the end of the file, and
-- the second one replaces everything from the stray mark on by the block.
pub stray_begin_loses_rows :
    (before after g : Text)
    → IsBlock g
    → cut_at patch_begin (before ++ (patch_begin ++ after)) ≡ some (before, after)
    → cut_at patch_end after ≡ none
    → trim_end (before ++ (patch_begin ++ after)) ≡ before ++ (patch_begin ++ after)
    → (merge_managed_patch (before ++ (patch_begin ++ after)) g
        ≡ before ++ (patch_begin ++ (after ++ (10 ∷ 10 ∷ g))))
      × (merge_managed_patch (merge_managed_patch (before ++ (patch_begin ++ after)) g) g
          ≡ before ++ g)
unfolding find_block
stray_begin_loses_rows before after g is cut no_end trimmed =
    let existing = before ++ (patch_begin ++ after) in
    let later = after ++ (10 ∷ 10 ∷ g) in
    let first =
      merge-absent existing g is (ap block_in cut ∙ ap (block_after before) no_end)
      ∙ ap (λ t. append_block t g) trimmed
      ∙ append_block-stray before after g in
    let found =
      found_at (before ++ (patch_begin ++ later)) before later _ (10 ∷ [])
        (cut_at-again patch_begin before after later cut)
        (end_appended after g (patch_begin ++ is.inner) no_end is.only_end) in
    (
      first,
      ap (λ t. merge_managed_patch t g) first
          ∙ merge-found (before ++ (patch_begin ++ later)) g _ is found
          ∙ ap (λ t. before ++ t) (append-nil g),
    )
