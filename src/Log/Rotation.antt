-- ===== src/Log/Rotation.antt =====
-- apps/shell/src/main/logger.ts: `RotatingDestination`. Of the files only the sizes are kept: file 0 is
-- `app.log`, file i is `app.log.i`. A write is told how many bytes were written and which of the renames
-- succeed.
use deepseek_harness.Common.{
  ℕ, zero, suc, ◌+◌, ◌*◌, ◌-◌, max, Bool, ◌&&◌, Option, none, some, List, [], ◌∷◌, ltb, ◌==◌,
  nat_eq, if◌then◌else◌,
}

pub record RotatingLoggerOptions : Type 0 where
  pub max_bytes : Option ℕ
  pub max_files : Option ℕ

pub record Destination : Type 0 where
  pub max_bytes : ℕ
  pub max_files : ℕ
  pub bytes : ℕ
  pub files : ℕ → Option ℕ

abbrev pub or_default : Option ℕ → ℕ → ℕ
or_default none n = n
or_default (some m) n = m

abbrev pub put_file : ℕ → Option ℕ → (ℕ → Option ℕ) → ℕ → Option ℕ
put_file i size files j = if j == i then size else files j

-- `openSync(filePath, 'a')`.
abbrev pub open_log : (ℕ → Option ℕ) → ℕ → Option ℕ
open_log files = put_file 0 (some (or_default (files 0) 0)) files

unfoldable pub new_destination : RotatingLoggerOptions → (ℕ → Option ℕ) → Destination
new_destination o files = record {
  max_bytes = max 1024 (or_default o.max_bytes (5 * 1024 * 1024));
  max_files = max 1 (or_default o.max_files 3);
  bytes = or_default (files 0) 0;
  files = open_log files;
}

-- `renameSync` from file i to the next one, where file i is there and the rename succeeds.
abbrev pub rename_to : ℕ → Option ℕ → (ℕ → Option ℕ) → ℕ → Option ℕ
rename_to i none files = files
rename_to i (some size) files = put_file (suc i) (some size) (put_file i none files)

abbrev pub rename : (ℕ → Bool) → ℕ → (ℕ → Option ℕ) → ℕ → Option ℕ
rename moves i files = if moves i then rename_to i (files i) files else files

-- The loop of `rotate`, from a number down to 1.
abbrev pub shift : (ℕ → Bool) → ℕ → (ℕ → Option ℕ) → ℕ → Option ℕ
shift moves zero files = files
shift moves (suc i) files = shift moves i (rename moves (suc i) files)

unfoldable pub rotate : (ℕ → Bool) → Destination → Destination
rotate moves d =
    let files = rename moves 0 (shift moves (d.max_files - 1) d.files) in
    record d { bytes = 0; files = open_log files }

pub record Write : Type 0 where
  pub chunk : ℕ
  pub written : ℕ
  pub moves : ℕ → Bool

abbrev pub append : ℕ → Destination → Destination
append written d = record d {
  bytes = d.bytes + written;
  files = put_file 0 (some (or_default (d.files 0) 0 + written)) d.files;
}

unfoldable pub write : Destination → Write → Destination
write d w =
    if ltb 0 d.bytes && ltb d.max_bytes (d.bytes + w.chunk)
    then append w.written (rotate w.moves d)
    else append w.written d

unfoldable pub write_all : Destination → List Write → Destination
write_all d [] = d
write_all d (w ∷ ws) = write_all (write d w) ws
