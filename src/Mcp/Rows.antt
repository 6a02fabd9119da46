-- ===== src/Mcp/Rows.antt =====
-- apps/shell/src/main/mcp-home.ts: the rows that `mergeManagedPatch` keeps, those that it loses, and
-- merging twice.
use mathlib.Core.List.{append_assoc, append-nil, reverse-append, reverse-reverse}
use deepseek_harness.Common.{
  Text, Option, none, some, [], ◌∷◌, ◌++◌, ◌≡◌, ◌≢◌, inl, inr, refl, sym, ap, ◌∙◌, subst, nat_eq,
  reverse, Bool-cases, length, length-append, ◌≤◌, arith,
}
use deepseek_harness.Supervisor.Output.{is_space}
use deepseek_harness.Update.Version.{trim_start}
use deepseek_harness.Mcp.Patch.{
  patch_begin, patch_end, cut_at, Block, block_in, block_after, find_block, trim_end, append_block,
  merge_managed_patch, skip_line_end,
}
use deepseek_harness.Mcp.Search.{cut_at-line, cut_at_sound, cut_at_first}
use deepseek_harness.Mcp.Merge.{IsBlock, merge-found, merge_again}

trim_start-split : (t : Text) → (spaces : Text) × (t ≡ spaces ++ trim_start t)
trim_start-split [] = ([], refl)
trim_start-split (c ∷ t) = elim (Bool-cases (is_space c)) [
  | inl space ↦ let (spaces, e) = trim_start-split t in rw space (c ∷ spaces, ap (λ u. c ∷ u) e)
  | inr other ↦ rw other ([], refl)
]

pub trim_end-split : (t : Text) → (spaces : Text) × (t ≡ trim_end t ++ spaces)
trim_end-split t =
    let (spaces, e) = trim_start-split (reverse t) in
    (
      reverse spaces,
      sym (reverse-reverse t) ∙ ap reverse e ∙ reverse-append spaces (trim_start (reverse t)),
    )

after_sound :
    (before : Text) (cut : Option (Text × Text)) (after : Text) (b : Block)
    → block_after before cut ≡ some b
    → ((inner rest : Text) → cut ≡ some (inner, rest) → after ≡ inner ++ (patch_end ++ rest))
    → (b.before ≡ before) × (after ≡ b.inner ++ (patch_end ++ b.after_end))
after_sound before none after b h sound = absurd (cc h)
after_sound before (some (inner, rest)) after b h sound = (cc h, sound inner rest refl ∙ cc h)

pub find_block-cut :
    (cut : Option (Text × Text)) (b : Block)
    → block_in cut ≡ some b
    → (after : Text) × (cut ≡ some (b.before, after))
      × (after ≡ b.inner ++ (patch_end ++ b.after_end))
find_block-cut none b h = absurd (cc h)
find_block-cut (some (before, after)) b h =
    let (same, shape) =
      after_sound before (cut_at patch_end after) after b h (cut_at_sound patch_end after) in
    (after, ap (λ t. some (t, after)) (sym same), shape)

-- Of two ways to cut a text, the second part of the one that starts earlier goes on to the other's.
split_later : (a b c d : Text) → a ++ b ≡ c ++ d → length a ≤ length c → (m : Text) × (b ≡ m ++ d)
split_later [] b c d e h = (c, e)
split_later (u ∷ a) b [] d e h = absurd (omega (arith, h))
split_later (u ∷ a) b (v ∷ c) d e h = split_later a b c d (cc e) (omega (arith, h))

mark_found :
    (p t b x : Text)
    → t ≡ b ++ (p ++ x)
    → (cut : Text × Text) × (cut_at p t ≡ some cut) × (length cut.0 ≤ length b)
mark_found p t b x e =
    let (cut, found, first) = cut_at_first p b x in (cut, ap (cut_at p) e ∙ found, first)

-- No begin mark with an end mark after it starts before the block, and no end mark is found before the
-- block's for the same begin mark.
abbrev pub IsFirst : Text → Block → Type 0
IsFirst existing b =
    (before inner after : Text)
    → existing ≡ before ++ (patch_begin ++ (inner ++ (patch_end ++ after)))
    → (length b.before ≤ length before) × (before ≡ b.before → length b.inner ≤ length inner)

first_begin :
    (existing before rest before' rest' : Text)
    → cut_at patch_begin existing ≡ some (before, rest)
    → existing ≡ before' ++ (patch_begin ++ rest')
    → length before ≤ length before'
first_begin existing before rest before' rest' found e =
    let (cut, same, first) = mark_found patch_begin existing before' rest' e in
    let it : cut.0 ≡ before = cc (same, found) in subst (λ t. length t ≤ length before') it first

first_end :
    (rest inner after inner' after' : Text)
    → cut_at patch_end rest ≡ some (inner, after)
    → rest ≡ inner' ++ (patch_end ++ after')
    → length inner ≤ length inner'
first_end rest inner after inner' after' found e =
    let (cut, same, first) = mark_found patch_end rest inner' after' e in
    let it : cut.0 ≡ inner = cc (same, found) in subst (λ t. length t ≤ length inner') it first

same_rest : (a p x y : Text) → a ++ (p ++ x) ≡ a ++ (p ++ y) → x ≡ y
same_rest [] [] x y e = e
same_rest [] (c ∷ p) x y e = same_rest [] p x y (cc e)
same_rest (c ∷ a) p x y e = same_rest a p x y (cc e)

cuts-IsFirst :
    (existing before rest inner after : Text)
    → cut_at patch_begin existing ≡ some (before, rest)
    → cut_at patch_end rest ≡ some (inner, after)
    → IsFirst existing (record { before = before; inner = inner; after_end = after })
cuts-IsFirst existing before rest inner after begins ends before' inner' after' e = (
  first_begin existing before rest before' (inner' ++ (patch_end ++ after')) begins e,
  λ same. first_end rest inner after inner' after' ends (
      same_rest before patch_begin rest (inner' ++ (patch_end ++ after')) (
        sym (cut_at_sound patch_begin existing before rest begins)
        ∙ e
        ∙ ap (λ t. t ++ (patch_begin ++ (inner' ++ (patch_end ++ after')))) same)),
)

-- After the first begin mark the end mark of any block is still to come.
end_follows :
    (existing first rest before inner after : Text)
    → existing ≡ first ++ (patch_begin ++ rest)
    → existing ≡ before ++ (patch_begin ++ (inner ++ (patch_end ++ after)))
    → length first ≤ length before
    → (m : Text) × (rest ≡ m ++ (patch_end ++ after))
end_follows existing first rest before inner after e k h =
    split_later (first ++ patch_begin) rest ((before ++ patch_begin) ++ inner) (patch_end ++ after)
      (append_assoc first patch_begin rest
        ∙ sym e
        ∙ k
        ∙ sym (append_assoc before patch_begin (inner ++ (patch_end ++ after)))
        ∙ sym (append_assoc (before ++ patch_begin) inner (patch_end ++ after)))
      (omega (
        arith,
        h,
        length-append first patch_begin,
        length-append before patch_begin,
        length-append (before ++ patch_begin) inner,
      ))

-- What `find_block` finds in a file that has a begin mark with an end mark after it.
find-IsFirst :
    (existing before inner after : Text)
    → existing ≡ before ++ (patch_begin ++ (inner ++ (patch_end ++ after)))
    → (b : Block) × (find_block existing ≡ some b) × IsFirst existing b
unfolding find_block
find-IsFirst existing before inner after e =
    let (outer, begins, early) =
      mark_found patch_begin existing before (inner ++ (patch_end ++ after)) e in
    let (m, shape) =
      end_follows existing outer.0 outer.1 before inner after
        (cut_at_sound patch_begin existing outer.0 outer.1 begins) e early in
    let (ending, ends, near) = mark_found patch_end outer.1 m after shape in
    (
      record { before = outer.0; inner = ending.0; after_end = ending.1 },
      ap block_in begins ∙ ap (block_after outer.0) ends,
      cuts-IsFirst existing outer.0 outer.1 ending.0 ending.1 begins ends,
    )

-- Where the file has a begin mark with an end mark after it, and the generated text is a block with
-- its marks once each and no `$`: the first begin mark and the nearest end mark after it are taken,
-- what stands before them and after their line is kept as it is, and the new block comes between.
pub merge_keeps_rows :
    (existing g before inner after : Text)
    → IsBlock g
    → existing ≡ before ++ (patch_begin ++ (inner ++ (patch_end ++ after)))
    → (b : Block) × (existing
        ≡ b.before ++ (patch_begin ++ (b.inner ++ (patch_end ++ b.after_end))))
      × IsFirst existing b
      × (merge_managed_patch existing g ≡ b.before ++ (g ++ skip_line_end b.after_end))
unfolding find_block
merge_keeps_rows existing g before inner after is has =
    let (b, found, first) = find-IsFirst existing before inner after has in
    let (rest, cut, shape) = find_block-cut (cut_at patch_begin existing) b found in
    (
      b,
      cut_at_sound patch_begin existing b.before rest cut
          ∙ ap (λ t. b.before ++ (patch_begin ++ t)) shape,
      first,
      merge-found existing g b is found,
    )

no_mark_in_nothing : cut_at patch_begin [] ≡ none
unfolding cut_at
no_mark_in_nothing = refl

pub no_end_in_nothing : cut_at patch_end [] ≡ none
unfolding cut_at
no_end_in_nothing = refl

begin_at_begin : (x : Text) → cut_at patch_begin (patch_begin ++ x) ≡ some ([], x)
unfolding cut_at
begin_at_begin x = refl

-- The mark that an append has put after two line ends is the first one.
begin_appended :
    (w x : Text)
    → cut_at patch_begin w ≡ none
    → cut_at patch_begin ((w ++ (10 ∷ 10 ∷ [])) ++ (patch_begin ++ x))
      ≡ some (w ++ (10 ∷ 10 ∷ []), x)
begin_appended w x h =
    ap (cut_at patch_begin) (append_assoc w (10 ∷ 10 ∷ []) (patch_begin ++ x))
    ∙ cut_at-line patch_begin w 10 (10 ∷ (patch_begin ++ x)) (10 ∷ []) x refl h (
        cut_at-line patch_begin [] 10 (patch_begin ++ x) [] x refl no_mark_in_nothing
          (begin_at_begin x))

append_block_shape : (w g : Text) → w ≢ [] → append_block w g ≡ (w ++ (10 ∷ 10 ∷ [])) ++ (g ++ [])
append_block_shape [] g h = absurd (h refl)
append_block_shape (c ∷ w) g h =
    ap (λ t. (c ∷ w) ++ (10 ∷ 10 ∷ t)) (sym (append-nil g))
    ∙ sym (append_assoc (c ∷ w) (10 ∷ 10 ∷ []) (g ++ []))

pub merge_appended :
    (w g : Text)
    → IsBlock g
    → cut_at patch_begin w ≡ none
    → merge_managed_patch (append_block w g) g ≡ append_block w g
merge_appended [] g b h =
    subst (λ t. merge_managed_patch t g ≡ t) (append-nil g)
      (merge_again g [] [] [] b (begin_at_begin []))
merge_appended (c ∷ w) g b h =
    subst (λ t. merge_managed_patch t g ≡ t)
      (sym (append_block_shape (c ∷ w) g (λ e. absurd (cc e))))
      (merge_again g ((c ∷ w) ++ (10 ∷ 10 ∷ [])) [] [] b (begin_appended (c ∷ w) [] h))
