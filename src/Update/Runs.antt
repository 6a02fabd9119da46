-- ===== src/Update/Runs.antt =====
-- apps/shell/src/main/updater.ts: the update service checks one at a time, reports an available
-- harness, and installs what it has downloaded.
use deepseek_harness.Common.{
  ℕ, Bool, true, Option, none, some, List, [], ◌∷◌, ◌≡◌, ◌≢◌, ◌↔◌, refl, arith, ◌∙◌, Option-cases,
  nat_eq,
}
use deepseek_harness.Update.Install.{HarnessUpdateInfo, Failure}
use deepseek_harness.Update.Check.{UpstreamUpdateInfo, truthy}
use deepseek_harness.Update.Service.{
  checked, failed, UpdateCheckResult, ReleaseCheck, check_result, is_available, UpdaterAdapter,
  UpdateService, check, adapter_of, Event, calls, begins, ends, step, run_all, new_service,
  installed, download_and_install, quits_and_installs, downloads,
}

-- The runs that have not ended: none, or the one that is in flight.
abbrev pub runs_of : Option ℕ → List ℕ
runs_of none = []
runs_of (some run) = run ∷ []

step-runs :
    (s : UpdateService) (e : Event)
    → s.runs ≡ runs_of s.check_in_flight
    → (step s e).runs ≡ runs_of (step s e).check_in_flight
unfolding step
step-runs s calls h = ground (arith, Option-cases s.check_in_flight)
step-runs s (begins loaded) h = h
step-runs s (ends run) h = ground (arith, Option-cases s.check_in_flight)

run_all-runs :
    (s : UpdateService) (es : List Event)
    → s.runs ≡ runs_of s.check_in_flight
    → (run_all s es).runs ≡ runs_of (run_all s es).check_in_flight
unfolding run_all
run_all-runs s [] h = h
run_all-runs s (e ∷ es) h = run_all-runs (step s e) es (step-runs s e h)

step-enabled : (s : UpdateService) (e : Event) → (step s e).enabled ≡ s.enabled
unfolding step
step-enabled s calls = ground arith
step-enabled s (begins loaded) = refl
step-enabled s (ends run) = refl

run_all-enabled : (s : UpdateService) (es : List Event) → (run_all s es).enabled ≡ s.enabled
unfolding run_all
run_all-enabled s [] = refl
run_all-enabled s (e ∷ es) = run_all-enabled (step s e) es ∙ step-enabled s e

check_joins :
    (s : UpdateService) (run : ℕ)
    → s.enabled ≡ true
    → s.check_in_flight ≡ some run
    → (check s).0 ≡ some run
unfolding check
check_joins s run h k = ground arith

-- Whatever is called and whenever runs end, at most one check runs, it is the one that is in flight,
-- and a call of `check` in the meantime is given that one.
pub run_all_one_check :
    (enabled : Bool) (es : List Event)
    → ((run_all (new_service enabled) es).runs
        ≡ runs_of (run_all (new_service enabled) es).check_in_flight)
      × ((run : ℕ)
          → enabled ≡ true
          → (run_all (new_service enabled) es).check_in_flight ≡ some run
          → (check (run_all (new_service enabled) es)).0 ≡ some run)
run_all_one_check enabled es =
    let s = new_service enabled in
    (
      run_all-runs s es (unfold new_service in refl),
      λ run on flying.
          check_joins (run_all s es) run (run_all-enabled s es ∙ (unfold new_service in on)) flying,
    )

-- A result that says `failed` has an error, and where the harness has an update that is available the
-- result does not say so, whatever went wrong with the release or the upstream.
check_result_reports :
    (upstream : Option UpstreamUpdateInfo) (harness : Option HarnessUpdateInfo)
    (release : ReleaseCheck)
    → ((check_result upstream harness release).status ≡ failed
        → (check_result upstream harness release).error ≢ none)
      × (is_available harness ≡ true
          → ((check_result upstream harness release).status ≡ checked)
            × ((check_result upstream harness release).harness ≡ harness))
unfolding check_result
check_result_reports upstream harness release = ground arith

-- `downloadAndInstall` says `installed` exactly if the service is enabled, its check has found a version,
-- and an adapter that can download has downloaded; then it has quit to install, after the download.
download_and_install_iff :
    (s : UpdateService) (result : UpdateCheckResult) (loaded : Option UpdaterAdapter)
    (load_error : Failure) (downloaded : Option Failure)
    → (((download_and_install s result loaded load_error downloaded).0 ≡ installed) ↔ (
        (s.enabled ≡ true)
        × (truthy result.version ≡ true)
        × (downloaded ≡ none)
        × (a : UpdaterAdapter) × (adapter_of s.adapter loaded ≡ some a)
        × (a.has_download ≡ true)))
      × ((download_and_install s result loaded load_error downloaded).0 ≡ installed
          → (download_and_install s result loaded load_error downloaded).1.effects
            ≡ quits_and_installs true ∷ downloads ∷ s.effects)
unfolding download_and_install
download_and_install_iff s result loaded load_error downloaded =
    ground (arith, Option-cases (adapter_of s.adapter loaded), Option-cases downloaded)
