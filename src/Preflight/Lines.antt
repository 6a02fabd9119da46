-- ===== src/Preflight/Lines.antt =====
-- apps/shell/src/main/preflight.ts: `formatPreflightFailure`, and the lines of what it gives.
use deepseek_harness.Common.{
  Text, text_eq, true, false, List, [], ◌∷◌, ◌++◌, ◌≡◌, refl, arith, nat_eq, map, All, contains,
  split_at, join_with, split_at-join_with, ap, ◌∙◌,
}
use deepseek_harness.Common.Members.{All-append, contains_more}
use deepseek_harness.Supervisor.Output.{units}
use deepseek_harness.Preflight.Layout.{PreflightResult}

abbrev pub bullet : Text → Text
bullet item = units "  - " ++ item

abbrev pub missing_lines : List Text → List Text
missing_lines [] = []
missing_lines (item ∷ items) = units "Harness runtime is incomplete:" ∷ map bullet (item ∷ items)

abbrev pub warning_lines : List Text → List Text
warning_lines [] = []
warning_lines (warning ∷ warnings) = [] ∷ warning ∷ warnings

unfoldable pub failure_lines : PreflightResult → Text → List Text
failure_lines r hint = missing_lines r.missing ++ (warning_lines r.warnings ++ ([] ∷ hint ∷ []))

unfoldable pub format_preflight_failure : PreflightResult → Text → Text
format_preflight_failure r hint = join_with 10 (failure_lines r hint)

abbrev pub IsLine : Text → Type 0
IsLine text = contains text 10 ≡ false

bullet-IsLine : (item : Text) → IsLine item → IsLine (bullet item)
bullet-IsLine item h = h

bullets-All : (items : List Text) → All IsLine items → All IsLine (map bullet items)
bullets-All [] a = tt
bullets-All (item ∷ items) a = (bullet-IsLine item a.0, bullets-All items a.1)

missing_lines-All : (items : List Text) → All IsLine items → All IsLine (missing_lines items)
missing_lines-All [] a = tt
missing_lines-All (item ∷ items) a = (refl, bullets-All (item ∷ items) a)

warning_lines-All : (items : List Text) → All IsLine items → All IsLine (warning_lines items)
warning_lines-All [] a = tt
warning_lines-All (item ∷ items) a = (refl, a)

failure_lines-All :
    (r : PreflightResult) (hint : Text)
    → All IsLine r.missing
    → All IsLine r.warnings
    → IsLine hint
    → All IsLine (failure_lines r hint)
unfolding failure_lines
failure_lines-All r hint m w h =
    All-append IsLine (missing_lines r.missing) _ (missing_lines-All r.missing m) (
      All-append IsLine (warning_lines r.warnings) _ (warning_lines-All r.warnings w)
        (refl, (h, tt)))

split_lines :
    (lines : List Text) (line : Text)
    → contains lines line ≡ true
    → All IsLine lines
    → split_at 10 (join_with 10 lines) ≡ lines
split_lines [] x h a = absurd (cc h)
split_lines (line ∷ lines) x h a = split_at-join_with 10 line lines a

contains-bullet :
    (items : List Text) (item : Text)
    → contains items item ≡ true
    → contains (map bullet items) (bullet item) ≡ true
contains-bullet [] item h = h
contains-bullet (x ∷ items) item h = ground (arith, contains-bullet items item)

contains_missing :
    (items : List Text) (item : Text)
    → contains items item ≡ true
    → contains (missing_lines items) (bullet item) ≡ true
contains_missing [] item h = absurd (cc h)
contains_missing (x ∷ items) item h = contains-bullet (x ∷ items) item h

failure_lines-contains :
    (r : PreflightResult) (hint item : Text)
    → contains r.missing item ≡ true
    → contains (failure_lines r hint) (bullet item) ≡ true
unfolding failure_lines
failure_lines-contains r hint item there =
    contains_more (missing_lines r.missing) _ (bullet item) (contains_missing r.missing item there)

-- The message of a failure names each missing path on a line of its own, if no line that goes into it
-- has a line end.
format_preflight_failure_names :
    (r : PreflightResult) (hint item : Text)
    → All IsLine r.missing
    → All IsLine r.warnings
    → IsLine hint
    → contains r.missing item ≡ true
    → contains (split_at 10 (format_preflight_failure r hint)) (bullet item) ≡ true
unfolding format_preflight_failure
format_preflight_failure_names r hint item m w h there =
    let found = failure_lines-contains r hint item there in
    ap (λ lines. contains lines (bullet item))
      (split_lines (failure_lines r hint) (bullet item) found (failure_lines-All r hint m w h))
    ∙ found
