-- ===== src/Supervisor/Output.antt =====
-- apps/shell/src/main/harness-supervisor.ts: `READY_RE`, the slices of the output buffer, and the
-- lines of the output. A text is the list of its UTF-16 units.
use Prim.Native.Char.{code}
use deepseek_harness.Common.{
  drop, Text, ℕ, ◌-◌, Bool, not, ◌&&◌, ◌||◌, Option, none, some, List, [], ◌∷◌, ◌++◌, length, ltb,
  leb, ◌==◌, nat_eq, if◌then◌else◌, contains, String,
}

-- The units of an ASCII text.
abbrev pub units : String → Text
units String.[] = []
units (String.◌∷◌ c s) = code c ∷ units s

-- `xs.slice(-n)`.
abbrev pub slice_last : ℕ → Text → Text
slice_last n xs = drop (length xs - n) xs

-- What is left after a prefix.
abbrev pub strip : Text → Text → Option Text
strip [] xs = some xs
strip (p ∷ ps) [] = none
strip (p ∷ ps) (x ∷ xs) = if p == x then strip ps xs else none

abbrev pub is_digit : ℕ → Bool
is_digit c = leb 48 c && leb c 57

-- JavaScript's `\s`.
abbrev pub is_space : ℕ → Bool
is_space c =
    (leb 9 c && leb c 13)
    || (leb 8192 c && leb c 8202)
    || contains (32 ∷ 160 ∷ 5760 ∷ 8232 ∷ 8233 ∷ 8239 ∷ 8287 ∷ 12288 ∷ 65279 ∷ []) c

-- The longest run of units that pass, and the rest.
abbrev pub span : (ℕ → Bool) → Text → Text × Text
span p [] = ([], [])
span p (x ∷ xs) = if p x then (x ∷ (span p xs).0, (span p xs).1) else ([], x ∷ xs)

-- `[^\s)]`.
abbrev pub is_token : ℕ → Bool
is_token c = not (is_space c || c == 41)

abbrev pub host : Text
host = units "http://127.0.0.1:"

abbrev pub query : Text
query = units "/?token="

abbrev pub non_empty : Text → Option Text
non_empty [] = none
non_empty (x ∷ xs) = some (x ∷ xs)

-- The URL at the beginning of a text: the group of `READY_RE`. A run of digits and a run of token
-- units end where they must, so there is nothing to backtrack into.
abbrev pub url_tail : Text → Option Text → Option Text
url_tail digits none = none
url_tail digits (some rest) = elim (non_empty (span is_token rest).0) [
  | none ↦ none
  | some token ↦ some (host ++ digits ++ query ++ token)
]

abbrev pub url_port : Option Text → Option Text
url_port none = none
url_port (some rest) = elim (non_empty (span is_digit rest).0) [
  | none ↦ none
  | some digits ↦ url_tail digits (strip query (span is_digit rest).1)
]

-- `outBuffer.match(READY_RE)?.[1]`: the first URL of the text. The two optional words before it do
-- not change the group.
unfoldable pub match_ready : Text → Option Text
match_ready [] = none
match_ready (x ∷ xs) =
    let later = match_ready xs in
    elim (url_port (strip host (x ∷ xs))) [ some url ↦ some url | none ↦ later ]

-- `text.split(/\r?\n/)`: the lines before the last, and the last.
abbrev pub start_line : ℕ → List Text × Text → List Text × Text
start_line c ([], rest) = ([], c ∷ rest)
start_line c (line ∷ lines, rest) = ((c ∷ line) ∷ lines, rest)

abbrev pub split_lines : Text → List Text × Text
split_lines [] = ([], [])
split_lines (x ∷ []) = if x == 10 then ([] ∷ [], []) else ([], x ∷ [])
split_lines (x ∷ y ∷ xs) =
    let rest = split_lines (y ∷ xs) in
    if x == 10
    then ([] ∷ rest.0, rest.1)
    else if (x == 13) && (y == 10)
    then rest
    else start_line x rest

-- The buffer after an output: `outBuffer += text`, cut to its last 32,768 units above 65,536.
abbrev pub buffer_limit : ℕ
buffer_limit = 65536

abbrev pub buffer_kept : ℕ
buffer_kept = 32768

unfoldable pub append_output : Text → Text → Text
append_output buffer text =
    let all = buffer ++ text in
    if ltb buffer_limit (length all) then slice_last buffer_kept all else all
