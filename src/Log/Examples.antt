-- ===== src/Log/Examples.antt =====
-- A small log: a test of apps/shell/src/main/logger.ts, and its theorem there.
use deepseek_harness.Common.{
  ℕ, max, true, Option, none, some, List, [], ◌∷◌, ◌≡◌, refl, arith, ◌==◌, if◌then◌else◌, nat_eq,
}
use deepseek_harness.Log.Rotation.{Destination, Write, write_all}
use deepseek_harness.Log.Bounds.{IsWrite, IsBounded, Within, write_all-Within}

abbrev no_files : ℕ → Option ℕ
no_files i = none

abbrev first : Destination
first = record {
  max_bytes = 1024;
  max_files = 2;
  bytes = 0;
  files = λ i. if i == 0 then some 0 else none;
}

abbrev chunk : Write
chunk = record { chunk = 600; written = 600; moves = λ i. true }

abbrev chunks : List Write
chunks = chunk ∷ chunk ∷ chunk ∷ chunk ∷ []

two_rotated : (write_all first chunks).files 3 ≡ none
unfolding write_all deepseek_harness.Log.Rotation.write deepseek_harness.Log.Rotation.rotate
two_rotated = refl

chunk-IsWrite : IsWrite 600 chunk
chunk-IsWrite = record { short = omega arith; whole = omega arith; moved = refl }

first-IsBounded : IsBounded 600 first
first-IsBounded = record { counted = refl; within = λ i s e. ground arith; some_file = omega arith }

write_all-Within_example : Within 2 (max 1024 600) (write_all first chunks).files
write_all-Within_example =
    write_all-Within 600 first chunks
      (chunk-IsWrite, (chunk-IsWrite, (chunk-IsWrite, (chunk-IsWrite, tt)))) first-IsBounded
