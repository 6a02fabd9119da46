-- ===== src/Git/Commands.antt =====
-- apps/shell/src/git/git-resolver.ts: `classifyGitError`, `runGit`, `runGitCommand` and `validateGit`.
-- The texts of the errors and the measured times are left out.
use deepseek_harness.Common.{
  Text, text_eq, ℕ, Bool, true, false, not, ◌&&◌, ◌||◌, Option, none, some, List, [], ◌∷◌, ◌++◌,
  String, ◌==◌, nat_eq, take, if◌then◌else◌,
}
use deepseek_harness.Supervisor.Output.{units}
use deepseek_harness.Policy.Reasoning.{lower_all, starts_with}
use deepseek_harness.Git.Resolver.{
  Host, SpawnResult, throws, ran, GitResolveResult, GitOptions, Cache, or_text, resolve_git_path,
}

pub data GitErrorClass : Type 0 where
  executable_not_found sandbox_denied not_a_repository : GitErrorClass
  git_failed timeout network_denied : GitErrorClass

-- `text.includes(phrase)`.
abbrev pub includes : Text → Text → Bool
includes phrase [] = starts_with phrase []
includes phrase (c ∷ cs) = starts_with phrase (c ∷ cs) || includes phrase cs

abbrev pub any_of : List String → Text → Bool
any_of [] text = false
any_of (phrase ∷ phrases) text = includes (units phrase) text || any_of phrases text

abbrev pub sandbox_phrases : List String
sandbox_phrases = "permission denied" ∷ "access denied" ∷ []

abbrev pub repository_phrases : List String
repository_phrases = "not a git repository" ∷ "not a repository" ∷ []

abbrev pub network_phrases : List String
network_phrases =
    "could not resolve host" ∷ "unable to access" ∷ "failed to connect" ∷ "connection refused"
    ∷ "network is unreachable" ∷ []

abbrev pub timeout_phrases : List String
timeout_phrases = "timeout" ∷ "timed out" ∷ []

-- The code looks at the error output only; the exit code is an argument that it does not use.
unfoldable pub classify_git_error : Option ℕ → Text → GitErrorClass
classify_git_error exit_code output =
    let stderr = lower_all output in
    if any_of sandbox_phrases stderr
    then sandbox_denied
    else if any_of repository_phrases stderr
    then not_a_repository
    else if any_of network_phrases stderr
    then network_denied
    else if any_of timeout_phrases stderr
    then timeout
    else git_failed

pub record GitRun : Type 0 where
  pub exit_code : Option ℕ
  pub stdout : Text
  pub stderr : Text

abbrev pub run_of : SpawnResult → GitRun
run_of (throws message) = record { exit_code = some 1; stdout = []; stderr = message }
run_of (ran status stdout stderr) = record {
  exit_code = status;
  stdout = or_text stdout [];
  stderr = or_text stderr [];
}

unfoldable pub run_git : Host → Text → List Text → Option Text → GitRun
run_git h git args cwd = run_of (h.spawn_sync git args cwd)

pub record GitError : Type 0 where
  pub error_class : GitErrorClass
  pub resolved_path : Option Text
  pub version : Option Text
  pub cwd : Option Text
  pub exit_code : Option ℕ
  pub stderr : Text

pub record GitCommandResult : Type 0 where
  pub exit_code : ℕ
  pub stdout : Text
  pub stderr : Text
  pub error : Option GitError

abbrev pub is_zero : Option ℕ → Bool
is_zero none = false
is_zero (some code) = code == 0

abbrev pub code_or_one : Option ℕ → ℕ
code_or_one none = 1
code_or_one (some code) = code

abbrev pub command_error : Text → Text → GitRun → Option GitError
unfolding classify_git_error
command_error git cwd r =
    if is_zero r.exit_code
    then none
    else some (record {
      error_class = classify_git_error r.exit_code r.stderr;
      resolved_path = some git;
      version = none;
      cwd = some cwd;
      exit_code = r.exit_code;
      stderr = take 1024 r.stderr;
    })

unfoldable pub run_git_command : Host → Text → List Text → Text → GitCommandResult
unfolding run_git classify_git_error
run_git_command h git args cwd =
    let r = run_git h git args (some cwd) in
    record {
      exit_code = code_or_one r.exit_code;
      stdout = r.stdout;
      stderr = r.stderr;
      error = command_error git cwd r;
    }

-- `resolve` is `none` where the source gives the empty result.
pub record GitValidationResult : Type 0 where
  pub resolve : Option GitResolveResult
  pub version_ok : Bool
  pub repo_ok : Bool
  pub status_ok : Bool
  pub diff_ok : Bool
  pub error : Option GitError

abbrev pub not_found : GitValidationResult
not_found = record {
  resolve = none;
  version_ok = false;
  repo_ok = false;
  status_ok = false;
  diff_ok = false;
  error = some (record {
    error_class = executable_not_found;
    resolved_path = none;
    version = none;
    cwd = none;
    exit_code = none;
    stderr = [];
  });
}

-- `git -C <cwd> …`.
abbrev pub git_in : Host → GitResolveResult → Text → List Text → GitRun
unfolding run_git
git_in h r cwd args = run_git h r.path (units "-C" ∷ cwd ∷ args) none

abbrev pub or_code : Option ℕ → Option ℕ → Option ℕ
or_code none other = other
or_code (some code) other = some code

abbrev pub checks : GitResolveResult → Text → GitRun → GitRun → Option GitError
checks r cwd status diff =
    if is_zero status.exit_code && is_zero diff.exit_code
    then none
    else some (record {
      error_class = git_failed;
      resolved_path = some r.path;
      version = some r.version;
      cwd = some cwd;
      exit_code = or_code status.exit_code diff.exit_code;
      stderr = take 500 (status.stderr ++ (10 ∷ diff.stderr));
    })

abbrev pub has_version : Text → Bool
has_version [] = false
has_version (c ∷ cs) = true

unfoldable pub validate_with : Host → Text → GitResolveResult → GitValidationResult
unfolding run_git classify_git_error
validate_with h cwd r =
    let repo = git_in h r cwd (units "rev-parse" ∷ units "--show-toplevel" ∷ []) in
    let status = git_in h r cwd (units "status" ∷ units "--porcelain" ∷ []) in
    let diff = git_in h r cwd (units "diff" ∷ units "--check" ∷ []) in
    if not (is_zero repo.exit_code)
    then record {
      resolve = some r;
      version_ok = has_version r.version;
      repo_ok = false;
      status_ok = false;
      diff_ok = false;
      error = some (record {
        error_class = classify_git_error repo.exit_code repo.stderr;
        resolved_path = some r.path;
        version = some r.version;
        cwd = some cwd;
        exit_code = repo.exit_code;
        stderr = take 500 repo.stderr;
      });
    }
    else record {
      resolve = some r;
      version_ok = has_version r.version;
      repo_ok = true;
      status_ok = is_zero status.exit_code;
      diff_ok = is_zero diff.exit_code;
      error = checks r cwd status diff;
    }

abbrev pub validate_found :
    Host → Text → Option GitResolveResult × Cache → GitValidationResult × Cache
unfolding validate_with
validate_found h cwd (none, cache) = (not_found, cache)
validate_found h cwd (some r, cache) = (validate_with h cwd r, cache)

unfoldable pub validate_git : Host → Cache → GitOptions → Text → GitValidationResult × Cache
unfolding resolve_git_path validate_with
validate_git h cache o cwd = validate_found h cwd (resolve_git_path h cache o)
