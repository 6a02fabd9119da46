-- ===== src/Mcp/Merge.antt =====
-- apps/shell/src/main/mcp-home.ts: a generated block, where it is found, and what the merge then gives.
use mathlib.Core.List.{append_assoc, reverse-append}
use deepseek_harness.Common.{
  Text, text_eq, true, false, none, some, [], ◌∷◌, ◌++◌, ◌≡◌, refl, arith, ap, ◌∙◌, nat_eq,
  contains, reverse, if◌then◌else◌,
}
use deepseek_harness.Mcp.Patch.{
  patch_begin, patch_end, cut_at, Block, block_in, block_after, find_block, expand_from, trim_end,
  starts_line_end, with_line_end, append_block, merge_managed_patch, skip_line_end, matched_by,
}
use deepseek_harness.Mcp.Search.{cut_at-again}

-- A generated block: the two marks once each, a line end at the end, and no `$`.
pub record IsBlock (g : Text) : Type 0 where
  pub inner : Text
  pub shape : g ≡ patch_begin ++ (inner ++ (patch_end ++ (10 ∷ [])))
  pub plain : contains g 36 ≡ false
  pub inner_end : cut_at patch_end (inner ++ (patch_end ++ (10 ∷ []))) ≡ some (inner, 10 ∷ [])
  pub only_end : cut_at patch_end g ≡ some (patch_begin ++ inner, 10 ∷ [])

expand_from-plain :
    (before matched after t : Text)
    → contains t 36 ≡ false
    → expand_from before matched after false t ≡ t
expand_from-plain before matched after [] h = refl
expand_from-plain before matched after (c ∷ t) h =
    ground (arith, expand_from-plain before matched after t)

ends_in_line : (a b c : Text) → starts_line_end (reverse (a ++ (b ++ (c ++ (10 ∷ []))))) ≡ true
ends_in_line a b c =
    rw
      (
        reverse-append a (b ++ (c ++ (10 ∷ []))),
        reverse-append b (c ++ (10 ∷ [])),
        reverse-append c (10 ∷ []),
      )
      refl

with_line_end-block : (g : Text) → IsBlock g → with_line_end g ≡ g
with_line_end-block g b =
    ap (λ e. if e then g else g ++ (10 ∷ []))
      (ap (λ t. starts_line_end (reverse t)) b.shape ∙ ends_in_line patch_begin b.inner patch_end)

pub merge-found :
    (existing g : Text) (b : Block)
    → IsBlock g
    → find_block existing ≡ some b
    → merge_managed_patch existing g ≡ b.before ++ (g ++ skip_line_end b.after_end)
unfolding merge_managed_patch
merge-found existing g b is found =
    rw (with_line_end-block g is, found)
      (ap (λ t. b.before ++ (t ++ skip_line_end b.after_end))
        (expand_from-plain b.before (matched_by b) (skip_line_end b.after_end) g is.plain))

pub merge-absent :
    (existing g : Text)
    → IsBlock g
    → find_block existing ≡ none
    → merge_managed_patch existing g ≡ append_block (trim_end existing) g
unfolding merge_managed_patch
merge-absent existing g is absent = rw (with_line_end-block g is, absent) refl

pub found_at :
    (t before after inner rest : Text)
    → cut_at patch_begin t ≡ some (before, after)
    → cut_at patch_end after ≡ some (inner, rest)
    → find_block t ≡ some (record { before = before; inner = inner; after_end = rest })
unfolding find_block
found_at t before after inner rest h k = ap block_in h ∙ ap (block_after before) k

reassoc :
    (g before rest inner : Text)
    → g ≡ patch_begin ++ (inner ++ (patch_end ++ (10 ∷ [])))
    → before ++ (g ++ rest) ≡ before ++ (patch_begin ++ (inner ++ (patch_end ++ (10 ∷ rest))))
reassoc g before rest inner e =
    ap (λ t. before ++ (t ++ rest)) e
    ∙ ap (λ t. before ++ t)
        (append_assoc patch_begin (inner ++ (patch_end ++ (10 ∷ []))) rest
          ∙ ap (λ t. patch_begin ++ t)
              (append_assoc inner (patch_end ++ (10 ∷ [])) rest
                ∙ ap (λ t. inner ++ t) (append_assoc patch_end (10 ∷ []) rest)))

-- A block is found where it was put, if no mark stands before it.
pub found_again :
    (g before x rest : Text) (b : IsBlock g)
    → cut_at patch_begin (before ++ (patch_begin ++ x)) ≡ some (before, x)
    → find_block (before ++ (g ++ rest))
      ≡ some (record { before = before; inner = b.inner; after_end = 10 ∷ rest })
found_again g before x rest b h =
    let after = b.inner ++ (patch_end ++ (10 ∷ rest)) in
    ap find_block (reassoc g before rest b.inner b.shape)
    ∙ found_at (before ++ (patch_begin ++ after)) before after b.inner (10 ∷ rest)
        (cut_at-again patch_begin before x after h)
        (cut_at-again patch_end b.inner (10 ∷ []) (10 ∷ rest) b.inner_end)

pub merge_again :
    (g before x rest : Text)
    → IsBlock g
    → cut_at patch_begin (before ++ (patch_begin ++ x)) ≡ some (before, x)
    → merge_managed_patch (before ++ (g ++ rest)) g ≡ before ++ (g ++ rest)
merge_again g before x rest b h =
    merge-found (before ++ (g ++ rest)) g _ b (found_again g before x rest b h)
