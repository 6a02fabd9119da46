-- ===== src/Preflight/Examples.antt =====
-- A concrete disk: each theorem of apps/shell/src/main/preflight.ts at it.
use deepseek_harness.Common.{
  Text, text_eq, ℕ, ◌<◌, Bool, true, false, none, some, List, [], ◌∷◌, ◌++◌, ◌≡◌, ◌⊎◌, ◌↔◌, refl,
  nat_eq, All, ltb, length, ◌+◌,
}
use deepseek_harness.Supervisor.Output.{units}
use deepseek_harness.Preflight.Layout.{
  Disk, PreflightOptions, PreflightResult, object, verify_harness_layout, critical_paths,
}
use deepseek_harness.Preflight.Verdict.{
  IsPresent, IsBridged, HasManifest, verify_harness_layout_iff,
}
use deepseek_harness.Preflight.Retry.{
  PreflightRetryOptions, result_at, await_harness_layout, await_harness_layout_ends, attempts_of,
}

abbrev join_all : List Text → Text
join_all [] = []
join_all (part ∷ parts) = part ++ (47 ∷ join_all parts)

-- Every file is there, or none, and the manifest has a version and a command.
abbrev disk : Bool → Disk
disk there = record {
  join = join_all;
  exists_sync = λ path. there;
  is_directory = λ path. some false;
  readdir_sync = λ path. none;
  read_file_sync = λ path. some (123 ∷ []);
  parse = λ text. some (object (some (49 ∷ [])) (some (100 ∷ [])));
}

abbrev on_linux : PreflightOptions
on_linux = record { resources_dir = units "r"; platform = units "linux" }

abbrev three_times : PreflightRetryOptions
three_times = record { layout = on_linux; attempts = some 3; delay_ms = some 5 }

-- The files are there from the second check on.
abbrev settling : ℕ → Disk
settling attempt = disk (ltb 0 attempt)

abbrev broken : PreflightResult
broken = record { ok = false; missing = units "m" ∷ []; warnings = units "w" ∷ [] }

complete_is_ok : (verify_harness_layout (disk true) on_linux).ok ≡ true
unfolding verify_harness_layout deepseek_harness.Preflight.Layout.verify_bridge_invariant
    deepseek_harness.Preflight.Layout.verify_manifest_invariant critical_paths
    deepseek_harness.Preflight.Layout.is_blank
complete_is_ok = refl

verify_harness_layout_iff_example : ((verify_harness_layout (disk true) on_linux).ok ≡ true) ↔ (
    All (IsPresent (disk true)) (critical_paths (disk true) on_linux)
    × IsBridged (disk true) on_linux
    × HasManifest (disk true) on_linux)
verify_harness_layout_iff_example = verify_harness_layout_iff (disk true) on_linux

await_harness_layout_ends_example :
    (last : ℕ) × (last < attempts_of three_times)
    × ((await_harness_layout three_times settling).result ≡ result_at three_times settling last)
    × (length (await_harness_layout three_times settling).sleeps ≡ last)
    × (length (await_harness_layout three_times settling).retried ≡ last)
    × ((i : ℕ) → i < last → (result_at three_times settling i).ok ≡ false)
    × (((result_at three_times settling last).ok ≡ true) ⊎ (last + 1 ≡ attempts_of three_times))
await_harness_layout_ends_example = await_harness_layout_ends three_times settling
