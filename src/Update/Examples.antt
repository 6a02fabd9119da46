-- ===== src/Update/Examples.antt =====
-- Concrete versions, installations and runs: tests of apps/shell/src/main/updater.ts and
-- harness-updater.ts, and each theorem at one of them.
use deepseek_harness.Common.{
  Text, String, ℕ, Bool, true, false, Option, none, some, [], ◌∷◌, ◌≡◌, refl,
}
use deepseek_harness.Supervisor.Output.{units}
use deepseek_harness.Update.Version.{is_newer_version}
use deepseek_harness.Update.Order.{is_newer_version_trans}
use deepseek_harness.Update.Install.{
  Harness, no_cli, Files, returns, throws, swap_in, HarnessUpdateInfo, archive,
  install_harness_runtime, thrown, Failure,
}
use deepseek_harness.Update.Rollback.{
  exchanged, placed, IsDone, install_harness_runtime-IsDone, unsafe_steps_lose_harness,
}
use deepseek_harness.Update.Service.{calls, begins, run_all, new_service, check}
use deepseek_harness.Update.Runs.{runs_of, run_all_one_check}

abbrev version : String → Option Text
version s = some (units s)

is_newer_version_trans_example :
    (is_newer_version (version "v1.2.0-rc.2") (version "1.3") ≡ true)
    × (is_newer_version (version "1.2") (version "v1.2.0-rc.2") ≡ false)
    × (is_newer_version (version "v1.2.0-rc.2") (version "v1.2.0-rc.2") ≡ false)
unfolding is_newer_version
is_newer_version_trans_example =
    is_newer_version_trans (version "v1.2.0-rc.2") (version "1.2") (version "1.3") refl refl

abbrev old : Harness
old = record { has_cli = true; body = 1 ∷ [] }

abbrev new : Harness
new = record { has_cli = true; body = 2 ∷ [] }

abbrev info : HarnessUpdateInfo
info = record {
  current_version = version "1.0";
  latest_version = version "1.1";
  asset_name = none;
  asset_url = version "https://h";
  digest = version "sha256:AB";
  available = true;
  error = none;
}

abbrev files : Files
files = placed (some old) (some no_cli) none none

-- The manifest cannot be moved, and the exchange is undone.
install_harness_runtime-IsDone_example :
    IsDone info files (archive (units "ab") (some (some new, some no_cli))) (
      install_harness_runtime
        (exchanged true true false)
        info
        files
        (archive (units "ab") (some (some new, some no_cli))))
install_harness_runtime-IsDone_example =
    install_harness_runtime-IsDone (exchanged true true false) info files
      (archive (units "ab") (some (some new, some no_cli)))
      (record {
        backs_up_manifest = refl;
        removes_backup = refl;
        removes_manifest_backup = refl;
        undo_removes_harness = refl;
        undo_restores_harness = refl;
        undo_removes_manifest = refl;
        undo_restores_manifest = refl;
        removes_temporary = refl;
      })
      (refl, refl)

-- A test: with nothing in the way the new runtime is there.
installs :
    install_harness_runtime
      (exchanged true true true)
      info
      files
      (archive (units "ab") (some (some new, some no_cli)))
    ≡ returns (placed (some new) (some no_cli) none none)
unfolding install_harness_runtime
installs = refl

unsafe_steps_lose_harness_example :
    (g : Files) × (swap_in
        (record (exchanged true true true) {
          backs_up_manifest = true;
          removes_manifest_backup = false;
        })
        (placed (some old) (some no_cli) (some new) (some no_cli))
      ≡ throws g)
    × (g.current_harness ≡ none)
unfolding swap_in
unsafe_steps_lose_harness_example =
    unsafe_steps_lose_harness true false old no_cli (some new) (some no_cli) refl refl

run_all_one_check_example :
    ((run_all (new_service true) (calls ∷ begins none ∷ calls ∷ [])).runs
      ≡ runs_of (run_all (new_service true) (calls ∷ begins none ∷ calls ∷ [])).check_in_flight)
    × ((run : ℕ)
        → ◌≡◌ {A = Bool} true true
        → (run_all (new_service true) (calls ∷ begins none ∷ calls ∷ [])).check_in_flight ≡ some run
        → (check (run_all (new_service true) (calls ∷ begins none ∷ calls ∷ []))).0 ≡ some run)
run_all_one_check_example = run_all_one_check true (calls ∷ begins none ∷ calls ∷ [])

abbrev offline : Failure
offline = thrown (units "offline")
