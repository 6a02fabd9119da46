-- ===== src/Update/Service.antt =====
-- apps/shell/src/main/updater.ts: `createUpdateService`. The checks that run are part of the state; what
-- a check finds, and what the adapter of electron-updater does, are arguments.
use deepseek_harness.Common.{
  Text, text_eq, ℕ, ◌+◌, Bool, true, false, not, ◌&&◌, Option, none, some, List, [], ◌∷◌, ◌==◌,
  nat_eq, if◌then◌else◌, filter,
}
use deepseek_harness.Supervisor.Output.{units}
use deepseek_harness.Update.Install.{HarnessUpdateInfo, Failure, thrown, exists}
use deepseek_harness.Update.Check.{UpstreamUpdateInfo, truthy}

pub data CheckStatus : Type 0 where
  disabled checked failed : CheckStatus

-- `UpdateCheckResult`; of `UpdateInfo` the version is kept.
pub record UpdateCheckResult : Type 0 where
  pub status : CheckStatus
  pub version : Option Text
  pub harness : Option HarnessUpdateInfo
  pub upstream : Option UpstreamUpdateInfo
  pub error : Option Failure

-- The release check of a run: not asked for, the version that it found, or what it threw.
pub data ReleaseCheck : Type 0 where
  skipped : ReleaseCheck
  found : Option Text → ReleaseCheck
  broke : Failure → ReleaseCheck

abbrev pub found_version : ReleaseCheck → Option Text
found_version (found version) = version
found_version _ = none

abbrev pub release_error : ReleaseCheck → Option Failure
release_error (broke failure) = some failure
release_error _ = none

abbrev pub is_available : Option HarnessUpdateInfo → Bool
is_available none = false
is_available (some info) = info.available

-- `harness?.error && !harness.available ? harness.error : undefined`.
abbrev pub harness_error : Option HarnessUpdateInfo → Option Failure
harness_error none = none
harness_error (some info) = if info.available then none else info.error

abbrev pub result_of :
    CheckStatus
    → ReleaseCheck
    → Option HarnessUpdateInfo
    → Option UpstreamUpdateInfo
    → Option Failure
    → UpdateCheckResult
result_of status release harness upstream error = record {
  status = status;
  version = found_version release;
  harness = harness;
  upstream = upstream;
  error = error;
}

-- The end of a run.
unfoldable pub check_result :
    Option UpstreamUpdateInfo → Option HarnessUpdateInfo → ReleaseCheck → UpdateCheckResult
check_result upstream harness release =
    let broken = exists (release_error release) in
    if broken && not (exists upstream) && not (exists harness)
    then result_of failed skipped none none (release_error release)
    else if not broken && not (exists upstream) && exists (harness_error harness)
    then result_of failed skipped harness none (harness_error harness)
    else result_of (if broken && not (is_available harness) then failed else checked) release
        harness upstream (release_error release)

pub record UpdaterAdapter : Type 0 where
  pub auto_download : Bool
  pub auto_install_on_app_quit : Bool
  pub has_download : Bool  -- `downloadUpdate` is a function

pub data Effect : Type 0 where
  downloads : Effect
  quits_and_installs : Bool → Effect

pub record UpdateService : Type 0 where
  pub enabled : Bool
  pub adapter : Option UpdaterAdapter
  pub check_in_flight : Option ℕ
  pub runs : List ℕ  -- that have not ended
  pub next_run : ℕ
  pub effects : List Effect

-- `check`: disabled, or the run whose promise the caller gets.
unfoldable pub check : UpdateService → Option ℕ × UpdateService
check s = if not s.enabled then (none, s) else elim s.check_in_flight [
  | some run ↦ (some run, s)
  | none ↦ (
    some s.next_run,
    record s {
      check_in_flight = some s.next_run;
      runs = s.next_run ∷ s.runs;
      next_run = s.next_run + 1;
    },
  )
]

-- `adapter ??= await loadElectronUpdater()`: `none` where it throws.
abbrev pub adapter_of : Option UpdaterAdapter → Option UpdaterAdapter → Option UpdaterAdapter
adapter_of none loaded = loaded
adapter_of (some a) loaded = some a

abbrev pub prepare : Bool → Option UpdaterAdapter → Option UpdaterAdapter
prepare on_quit none = none
prepare on_quit (some a) =
    some (record a { auto_download = false; auto_install_on_app_quit = on_quit })

-- A run comes to its release check.
unfoldable pub begins_release : UpdateService → Option UpdaterAdapter → UpdateService
begins_release s loaded = record s { adapter = prepare true (adapter_of s.adapter loaded) }

abbrev pub is_run : Option ℕ → ℕ → Bool
is_run none run = false
is_run (some other) run = other == run

-- The `finally` of a run.
unfoldable pub run_ends : UpdateService → ℕ → UpdateService
run_ends s run = record s {
  runs = filter (λ r. not (r == run)) s.runs;
  check_in_flight = if is_run s.check_in_flight run then none else s.check_in_flight;
}

pub data Event : Type 0 where
  calls : Event
  begins : Option UpdaterAdapter → Event
  ends : ℕ → Event

unfoldable pub step : UpdateService → Event → UpdateService
unfolding check begins_release run_ends
step s calls = (check s).1
step s (begins loaded) = begins_release s loaded
step s (ends run) = run_ends s run

unfoldable pub run_all : UpdateService → List Event → UpdateService
unfolding step
run_all s [] = s
run_all s (e ∷ es) = run_all (step s e) es

unfoldable pub new_service : Bool → UpdateService
new_service enabled = record {
  enabled = enabled;
  adapter = none;
  check_in_flight = none;
  runs = [];
  next_run = 0;
  effects = [];
}

pub data InstallResult : Type 0 where
  not_enabled : InstallResult
  installed : InstallResult
  install_failed : Option Failure → InstallResult

abbrev pub no_release : Option Failure → Option Failure
no_release none = some (thrown (units "No release update is ready to download"))
no_release (some failure) = some failure

abbrev pub no_download : Failure
no_download = thrown (
    units
      "electron-updater did not expose downloadUpdate; refusing to install an unverified pending update")

-- `downloaded` is what `downloadUpdate` throws, if it does.
abbrev pub download_with :
    UpdateService → Option UpdaterAdapter → Failure → Option Failure → InstallResult × UpdateService
download_with s none load_error downloaded = (install_failed (some load_error), s)
download_with s (some a) load_error downloaded =
    let t = record s { adapter = some a } in
    if not a.has_download then (install_failed (some no_download), t) else elim downloaded [
      | some failure ↦ (install_failed (some failure), record t { effects = downloads ∷ t.effects })
      | none ↦ (installed, record t { effects = quits_and_installs true ∷ downloads ∷ t.effects })
    ]

-- `downloadAndInstall`, once the check that it calls has given `result`.
unfoldable pub download_and_install :
    UpdateService
    → UpdateCheckResult
    → Option UpdaterAdapter
    → Failure
    → Option Failure
    → InstallResult × UpdateService
download_and_install s result loaded load_error downloaded =
    if not s.enabled
    then (not_enabled, s)
    else if not (truthy result.version)
    then (install_failed (no_release result.error), s)
    else download_with s (prepare false (adapter_of s.adapter loaded)) load_error downloaded

-- `installHarness`: `outcome` is what the harness updater throws, if it does.
unfoldable pub install_harness : UpdateService → Bool → Option Failure → InstallResult
install_harness s has_harness outcome =
    if not s.enabled
    then not_enabled
    else if not has_harness
    then install_failed (some (thrown (units "Harness-only updater is unavailable")))
    else elim outcome [ none ↦ installed | some failure ↦ install_failed (some failure) ]

unfoldable pub install : UpdateService → UpdateService
install s =
    if s.enabled && exists s.adapter
    then record s { effects = quits_and_installs false ∷ s.effects }
    else s
