-- ===== src/Update/Version.antt =====
-- apps/shell/src/main/updater.ts: `isNewerVersion`. A version is the list of its UTF-16 units; a run
-- of digits is read as the number that it writes, which is what `Number` gives up to 2 ^ 53.
use deepseek_harness.Common.{
  Text, text_eq, split_at, ℕ, ◌+◌, ◌*◌, ◌-◌, Bool, true, false, not, ◌&&◌, ◌||◌, Option, none, some,
  List, [], ◌∷◌, ltb, leb, ◌==◌, nat_eq, if◌then◌else◌, reverse, map, every,
}
use deepseek_harness.Supervisor.Output.{is_digit, is_space, span, non_empty}

-- `text.trim()`.
abbrev pub trim_start : Text → Text
trim_start [] = []
trim_start (c ∷ cs) = if is_space c then trim_start cs else c ∷ cs

abbrev pub trim : Text → Text
trim text = reverse (trim_start (reverse (trim_start text)))

-- `.replace(/^v/i, '')`.
abbrev pub strip_v : Text → Text
strip_v [] = []
strip_v (c ∷ cs) = if c == 118 || c == 86 then cs else c ∷ cs

-- `Number(digits)`.
abbrev pub number_from : ℕ → Text → ℕ
number_from n [] = n
number_from n (c ∷ cs) = number_from (n * 10 + (c - 48)) cs

abbrev pub number : Text → ℕ
number digits = number_from 0 digits

-- `\d+(?:\.\d+)*`: the runs of digits, and the rest. A dot that no digit follows is not taken.
abbrev pub starts_digit : Text → Bool
starts_digit [] = false
starts_digit (c ∷ cs) = is_digit c

abbrev pub put_digit : ℕ → List Text × Text → List Text × Text
put_digit c ([], rest) = ((c ∷ []) ∷ [], rest)
put_digit c (run ∷ runs, rest) = ((c ∷ run) ∷ runs, rest)

abbrev pub open_run : List Text × Text → List Text × Text
open_run (runs, rest) = ([] ∷ runs, rest)

unfoldable pub read_runs : Text → List Text × Text
read_runs [] = ([] ∷ [], [])
read_runs (c ∷ cs) =
    let later = read_runs cs in
    if is_digit c
    then put_digit c later
    else if c == 46 && starts_digit cs
    then open_run later
    else ([] ∷ [], c ∷ cs)

-- `[0-9A-Za-z.-]`.
abbrev pub is_tag : ℕ → Bool
is_tag c = is_digit c || (leb 65 c && leb c 90) || (leb 97 c && leb c 122) || c == 46 || c == 45

-- `(?:-([0-9A-Za-z.-]+))?`.
abbrev pub read_tag : Text → Option (List Text)
read_tag [] = none
read_tag (c ∷ cs) = elim (non_empty (span is_tag cs).0) [
  | none ↦ none
  | some tag ↦ if c == 45 then some (split_at 46 tag) else none
]

pub record Version : Type 0 where
  pub numbers : List ℕ
  pub prerelease : Option (List Text)

unfoldable pub parse : Text → Option Version
unfolding read_runs
parse value =
    let text = strip_v (trim value) in
    if starts_digit text
    then some (record {
      numbers = map number (read_runs text).0;
      prerelease = read_tag (read_runs text).1;
    })
    else none

-- The loop over the numbers: whether it returns, and what.
unfoldable pub newer_numbers : List ℕ → List ℕ → Option Bool
newer_numbers [] [] = none
newer_numbers (x ∷ xs) [] = if x == 0 then newer_numbers xs [] else some (ltb x 0)
newer_numbers [] (y ∷ ys) = if 0 == y then newer_numbers [] ys else some (ltb 0 y)
newer_numbers (x ∷ xs) (y ∷ ys) = if x == y then newer_numbers xs ys else some (ltb x y)

-- `left < right` on strings.
unfoldable pub text_lt : Text → Text → Bool
text_lt xs [] = false
text_lt [] (y ∷ ys) = true
text_lt (x ∷ xs) (y ∷ ys) = if x == y then text_lt xs ys else ltb x y

-- `/^\d+$/`.
abbrev pub is_numeric : Text → Bool
is_numeric [] = false
is_numeric (c ∷ cs) = every is_digit (c ∷ cs)

-- The last lines of the second loop, where the parts differ.
unfoldable pub newer_part : Text → Text → Bool
unfolding text_lt
newer_part left right =
    if is_numeric left && is_numeric right
    then ltb (number left) (number right)
    else if is_numeric left || is_numeric right
    then not (is_numeric right)
    else text_lt left right

unfoldable pub newer_parts : List Text → List Text → Bool
unfolding newer_part
newer_parts [] [] = false
newer_parts [] (y ∷ ys) = true
newer_parts (x ∷ xs) [] = false
newer_parts (x ∷ xs) (y ∷ ys) = if x == y then newer_parts xs ys else newer_part x y

unfoldable pub newer_prerelease : Option (List Text) → Option (List Text) → Bool
unfolding newer_parts
newer_prerelease none none = false
newer_prerelease none (some ys) = false
newer_prerelease (some xs) none = true
newer_prerelease (some xs) (some ys) = newer_parts xs ys

unfoldable pub newer_version : Version → Version → Bool
unfolding newer_numbers newer_prerelease
newer_version current candidate = elim (newer_numbers current.numbers candidate.numbers) [
  | some result ↦ result
  | none ↦ newer_prerelease current.prerelease candidate.prerelease
]

unfoldable pub both : Option Version → Option Version → Bool
unfolding newer_version
both none _ = false
both (some current) none = false
both (some current) (some candidate) = newer_version current candidate

-- `none` is an absent version, and so is an empty text.
abbrev pub text_of : Option Text → Text
text_of none = []
text_of (some text) = text

unfoldable pub is_newer_version : Option Text → Option Text → Bool
unfolding parse both
is_newer_version current candidate = both (parse (text_of current)) (parse (text_of candidate))
