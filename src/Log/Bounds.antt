-- ===== src/Log/Bounds.antt =====
-- apps/shell/src/main/logger.ts: the sizes and the number of the log files.
use deepseek_harness.Common.{
  ℕ, zero, suc, ◌+◌, ◌-◌, ◌≤◌, ◌<◌, max, Bool, true, false, ◌&&◌, Option, none, some, List, [], ◌∷◌,
  ◌≡◌, refl, arith, ap, ◌∙◌, sym, subst, ltb, ◌==◌, nat_eq, if◌then◌else◌, All, Bool-cases,
  nat_beq_iff, inl, inr,
}
use deepseek_harness.Log.Rotation.{
  Destination, Write, put_file, rename_to, rename, shift, rotate, append, write, write_all,
  or_default,
}

-- At most so many files, each of at most so many bytes.
abbrev pub Within : ℕ → ℕ → (ℕ → Option ℕ) → Type 0
Within last size files = (i s : ℕ) → files i ≡ some s → (i ≤ last) × (s ≤ size)

put_file-Within :
    (last size i : ℕ) (file : Option ℕ) (files : ℕ → Option ℕ)
    → ((s : ℕ) → file ≡ some s → (i ≤ last) × (s ≤ size))
    → Within last size files
    → Within last size (put_file i file files)
put_file-Within last size i file files new old j s = elim (Bool-cases (j == i)) [
  | inl here ↦ rw here (λ e. (omega (arith, (nat_beq_iff j i).0 here, (new s e).0), (new s e).1))
  | inr other ↦ rw other (old j s)
]

rename_to-Within :
    (last size i : ℕ) (file : Option ℕ) (files : ℕ → Option ℕ)
    → i < last
    → ((s : ℕ) → file ≡ some s → s ≤ size)
    → Within last size files
    → Within last size (rename_to i file files)
rename_to-Within last size i none files low small old = old
rename_to-Within last size i (some s) files low small old =
    put_file-Within last size (suc i) (some s) (put_file i none files) (λ t e. (low, small t e))
      (put_file-Within last size i none files (λ t e. absurd (cc e)) old)

rename-Within :
    (last size : ℕ) (moves : ℕ → Bool) (i : ℕ) (files : ℕ → Option ℕ)
    → i < last
    → Within last size files
    → Within last size (rename moves i files)
rename-Within last size moves i files low old = elim (Bool-cases (moves i)) [
  | inl moved ↦
      rw moved (rename_to-Within last size i (files i) files low (λ s e. (old i s e).1) old)
  | inr kept ↦ rw kept old
]

shift-Within :
    (last size : ℕ) (moves : ℕ → Bool) (n : ℕ) (files : ℕ → Option ℕ)
    → n < last
    → Within last size files
    → Within last size (shift moves n files)
shift-Within last size moves zero files low old = old
shift-Within last size moves (suc i) files low old =
    shift-Within last size moves i (rename moves (suc i) files) (omega (arith, low))
      (rename-Within last size moves (suc i) files low old)

-- A log that is within its bounds, whose count of bytes is the size of its file.
pub record IsBounded (chunk : ℕ) (d : Destination) : Type 0 where
  pub counted : d.files 0 ≡ some d.bytes
  pub within : Within d.max_files (max d.max_bytes chunk) d.files
  pub some_file : 0 < d.max_files

-- After a rename of `app.log` that succeeds, there is none.
rename_to-gone :
    (file : Option ℕ) (files : ℕ → Option ℕ) → files 0 ≡ file → rename_to 0 file files 0 ≡ none
rename_to-gone none files h = h
rename_to-gone (some s) files h = refl

rotate-IsBounded :
    (chunk : ℕ) (moves : ℕ → Bool) (d : Destination)
    → moves 0 ≡ true
    → IsBounded chunk d
    → IsBounded chunk (rotate moves d) × ((rotate moves d).bytes ≡ 0)
unfolding rotate
rotate-IsBounded chunk moves d moved b =
    let size = max d.max_bytes chunk in
    let shifted = shift moves (d.max_files - 1) d.files in
    let gone =
      ap (λ m. (if m then rename_to 0 (shifted 0) shifted else shifted) 0) moved
      ∙ rename_to-gone (shifted 0) shifted refl in
    let opened = ap (λ o. or_default o 0) gone in
    (
      record {
        counted = ap (λ o. some o) opened;
        within =
            put_file-Within d.max_files size 0 _ (rename moves 0 shifted)
              (λ s e. (omega arith, subst (λ n. n ≤ size) (sym opened ∙ cc e) (omega arith)))
              (rename-Within d.max_files size moves 0 shifted b.some_file (
                shift-Within d.max_files size moves (d.max_files - 1) d.files
                  (omega (arith, b.some_file)) b.within));
        some_file = b.some_file;
      },
      refl,
    )

append-IsBounded :
    (chunk written : ℕ) (d : Destination)
    → IsBounded chunk d
    → d.bytes + written ≤ max d.max_bytes chunk
    → IsBounded chunk (append written d)
append-IsBounded chunk written d b fits =
    let size = ap (λ o. or_default o 0 + written) b.counted in
    record {
      counted = ap (λ n. some n) size;
      within =
          put_file-Within d.max_files (max d.max_bytes chunk) 0 _ d.files
            (λ s e. (omega arith, subst (λ n. n ≤ max d.max_bytes chunk) (sym size ∙ cc e) fits))
            b.within;
      some_file = b.some_file;
    }

-- A write of no more than its chunk, with which `app.log` can be renamed.
pub record IsWrite (chunk : ℕ) (w : Write) : Type 0 where
  pub short : w.chunk ≤ chunk
  pub whole : w.written ≤ w.chunk
  pub moved : w.moves 0 ≡ true

-- A destination that keeps its limits.
abbrev pub SameLimits : Destination → Destination → Type 0
SameLimits d e = (e.max_bytes ≡ d.max_bytes) × (e.max_files ≡ d.max_files)

either_branch :
    (P : Destination → Type 0) (full : Bool) (x y : Destination)
    → (full ≡ true → P x)
    → (full ≡ false → P y)
    → P (if full then x else y)
either_branch P true x y h k = h refl
either_branch P false x y h k = k refl

room_fits :
    (bytes limit chunk c written : ℕ)
    → (ltb 0 bytes && ltb limit (bytes + c)) ≡ false
    → c ≤ chunk
    → written ≤ c
    → bytes + written ≤ max limit chunk
room_fits bytes limit chunk c written h short whole = ground arith

write-IsBounded :
    (chunk : ℕ) (d : Destination) (w : Write)
    → IsWrite chunk w
    → IsBounded chunk d
    → IsBounded chunk (write d w)
unfolding write rotate
write-IsBounded chunk d w i b =
    let (rotated, empty) = rotate-IsBounded chunk w.moves d i.moved b in
    either_branch (IsBounded chunk) (ltb 0 d.bytes && ltb d.max_bytes (d.bytes + w.chunk)) _ _
      (λ full.
        append-IsBounded chunk w.written (rotate w.moves d) rotated
          (omega (arith, i.short, i.whole)))
      (λ room.
        append-IsBounded chunk w.written d b
          (room_fits d.bytes d.max_bytes chunk w.chunk w.written room i.short i.whole))

write-SameLimits : (d : Destination) (w : Write) → SameLimits d (write d w)
unfolding write rotate
write-SameLimits d w =
    either_branch (SameLimits d) (ltb 0 d.bytes && ltb d.max_bytes (d.bytes + w.chunk)) _ _
      (λ full. (refl, refl)) (λ room. (refl, refl))

write_all-SameLimits : (d : Destination) (ws : List Write) → SameLimits d (write_all d ws)
unfolding write_all
write_all-SameLimits d [] = (refl, refl)
write_all-SameLimits d (w ∷ ws) =
    let (bytes, files) = write_all-SameLimits (write d w) ws in
    let (same_bytes, same_files) = write-SameLimits d w in (bytes ∙ same_bytes, files ∙ same_files)

write_all-IsBounded :
    (chunk : ℕ) (d : Destination) (ws : List Write)
    → All (IsWrite chunk) ws
    → IsBounded chunk d
    → IsBounded chunk (write_all d ws)
unfolding write_all
write_all-IsBounded chunk d [] all b = b
write_all-IsBounded chunk d (w ∷ ws) all b =
    write_all-IsBounded chunk (write d w) ws all.1 (write-IsBounded chunk d w all.0 b)

-- From a log that is within its bounds and knows the size of its file: whatever is written, in
-- pieces of at most a given size, there are at most the configured number of rotated files beside
-- `app.log`, and each file has at most the configured size or that of one piece, as long as
-- `app.log` can be renamed when it is full. The other renames may fail.
pub write_all-Within :
    (chunk : ℕ) (d : Destination) (ws : List Write)
    → All (IsWrite chunk) ws
    → IsBounded chunk d
    → Within d.max_files (max d.max_bytes chunk) (write_all d ws).files
write_all-Within chunk d ws all b =
    let after = write_all-IsBounded chunk d ws all b in
    let (bytes, files) = write_all-SameLimits d ws in
    subst (λ n. Within n (max d.max_bytes chunk) (write_all d ws).files) files
      (subst (λ n. Within (write_all d ws).max_files (max n chunk) (write_all d ws).files) bytes
        after.within)
