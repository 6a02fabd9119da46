-- ===== src/Git/Reports.antt =====
-- apps/shell/src/git/git-resolver.ts: a validation or a command has an error exactly if something
-- failed.
use deepseek_harness.Common.{
  Text, true, false, Option, none, some, ◌≡◌, ◌↔◌, refl, arith, Option-cases, nat_eq, List,
}
use deepseek_harness.Git.Resolver.{Host, GitOptions, Cache, GitResolveResult, resolve_git_path}
use deepseek_harness.Git.Commands.{
  GitError, executable_not_found, GitValidationResult, validate_with, validate_git, validate_found,
  run_git, run_git_command,
}

-- A validation.
abbrev pub IsClean : GitValidationResult → Type 0
IsClean v = (v.repo_ok ≡ true) × (v.status_ok ≡ true) × (v.diff_ok ≡ true)

validate_with_iff :
    (h : Host) (cwd : Text) (r : GitResolveResult)
    → ((validate_with h cwd r).error ≡ none) ↔ IsClean (validate_with h cwd r)
unfolding validate_with
validate_with_iff h cwd r = ground arith

validate_with-resolve :
    (h : Host) (cwd : Text) (r : GitResolveResult) → (validate_with h cwd r).resolve ≡ some r
unfolding validate_with
validate_with-resolve h cwd r = ground arith

validate_found_iff :
    (h : Host) (cwd : Text) (out : Option GitResolveResult × Cache)
    → (((validate_found h cwd out).0.error ≡ none) ↔ IsClean (validate_found h cwd out).0)
      × ((validate_found h cwd out).0.error ≡ none → (validate_found h cwd out).0.resolve ≡ out.0)
      × (out.0 ≡ none
          → (e : GitError) × ((validate_found h cwd out).0.error ≡ some e)
            × (e.error_class ≡ executable_not_found)
            × ((validate_found h cwd out).0.repo_ok ≡ false))
unfolding validate_with
validate_found_iff h cwd (none, cache) =
    (((λ e. absurd (cc e)), λ c. absurd (cc c.0)), (λ e. absurd (cc e)), λ e. (_, refl, refl, refl))
validate_found_iff h cwd (some r, cache) =
    (validate_with_iff h cwd r, (λ e. validate_with-resolve h cwd r), λ e. absurd (cc e))

-- A validation has no error exactly if the repository, its status and its diff are all in order; then a
-- git was resolved. Where none is, the error says so and nothing is in order.
validate_git_iff :
    (h : Host) (cache : Cache) (o : GitOptions) (cwd : Text)
    → (((validate_git h cache o cwd).0.error ≡ none) ↔ IsClean (validate_git h cache o cwd).0)
      × ((validate_git h cache o cwd).0.error ≡ none
          → (validate_git h cache o cwd).0.resolve ≡ (resolve_git_path h cache o).0)
      × ((resolve_git_path h cache o).0 ≡ none
          → (e : GitError) × ((validate_git h cache o cwd).0.error ≡ some e)
            × (e.error_class ≡ executable_not_found)
            × ((validate_git h cache o cwd).0.repo_ok ≡ false))
unfolding validate_git
validate_git_iff h cache o cwd = validate_found_iff h cwd (resolve_git_path h cache o)

-- A command has no error exactly if it exited with 0; without an exit code it says 1.
run_git_command_iff :
    (h : Host) (git : Text) (args : List Text) (cwd : Text)
    → (((run_git_command h git args cwd).error ≡ none)
        ↔ ((run_git_command h git args cwd).exit_code ≡ 0))
      × ((run_git h git args (some cwd)).exit_code ≡ none
          → (run_git_command h git args cwd).exit_code ≡ 1)
unfolding run_git_command
run_git_command_iff h git args cwd =
    ground (arith, Option-cases (run_git h git args (some cwd)).exit_code)
