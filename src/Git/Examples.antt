-- ===== src/Git/Examples.antt =====
-- A concrete host: tests of apps/shell/src/git/git-resolver.ts, and each theorem at it.
use deepseek_harness.Common.{
  sym, ap, ◌∙◌, Text, text_eq, true, false, none, some, List, [], ◌∷◌, ◌++◌, ◌≡◌, refl, nat_eq,
}
use deepseek_harness.Supervisor.Output.{units}
use deepseek_harness.Update.Version.{trim}
use deepseek_harness.Git.Resolver.{
  Host, ran, GitOptions, GitResolveResult, packaged, resolve_git_path,
}
use deepseek_harness.Git.Commands.{classify_git_error, network_denied, git_failed}
use deepseek_harness.Git.Cache.{Resolved, resolve_git_path_lem}

abbrev join_all : List Text → Text
join_all [] = []
join_all (part ∷ parts) = part ++ (47 ∷ join_all parts)

-- A host where every file is there, and every process prints one letter.
abbrev host : Host
host = record {
  win32 = true;
  path = none;
  local_app_data = none;
  join = join_all;
  exists_sync = λ file. true;
  spawn_sync = λ file args cwd. ran (some 0) (some (118 ∷ [])) none;
}

abbrev bare : Host
bare = record host { exists_sync = λ file. false }

abbrev in_c : GitOptions
in_c = record {
  packaged_resources_dir = some (units "C" ++ (58 ∷ units "r"));
  path_override = some (units "p");
}

abbrev in_r : GitOptions
in_r = record {
  packaged_resources_dir = some (units "C");
  path_override = some (units "r" ++ (58 ∷ units "p"));
}

abbrev git : GitResolveResult
git = record {
  path =
      join_all
        ((units "C" ++ (58 ∷ units "r")) ∷ units "freecode" ∷ units "git" ∷ units "git.exe" ∷ []);
  version = 118 ∷ [];
  source = packaged;
}

resolves : (resolve_git_path host [] in_c).0 ≡ some git
unfolding resolve_git_path
resolves = refl

resolve_git_path_lem_example :
    Resolved (λ r. r.version ≡ 118 ∷ []) host [] in_c (resolve_git_path host [] in_c)
resolve_git_path_lem_example =
    resolve_git_path_lem (λ r. r.version ≡ 118 ∷ []) host [] in_c
      (λ r (here, shown, (out, stderr, ran_it, printed)).
        let same : 118 ∷ [] ≡ out = cc ran_it in sym printed ∙ ap trim (sym same))
      tt

-- Tests: the classes of three outputs.
no_host : classify_git_error none (units "fatal: Could not resolve host: x") ≡ network_denied
unfolding classify_git_error
no_host = refl

killed_at_the_timeout : classify_git_error none [] ≡ git_failed
unfolding classify_git_error
killed_at_the_timeout = refl
