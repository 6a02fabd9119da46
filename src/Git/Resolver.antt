-- ===== src/Git/Resolver.antt =====
-- apps/shell/src/git/git-resolver.ts: `resolveGitPath` with its cache. Files, processes, the environment
-- and `path.join` are those of a host, which is an argument.
use deepseek_harness.Common.{
  Text, text_eq, split_at, ℕ, Bool, Option, none, some, List, [], ◌∷◌, ◌++◌, ◌==◌, nat_eq,
  if◌then◌else◌,
}
use deepseek_harness.Common.JsMap.{JsMap, get, set}
use deepseek_harness.Supervisor.Output.{units}
use deepseek_harness.Update.Version.{trim}

-- What `spawnSync` gives: it throws, or it has a status (`none` is null), and its outputs, `none` where
-- they are null.
pub data SpawnResult : Type 0 where
  throws : Text → SpawnResult
  ran : Option ℕ → Option Text → Option Text → SpawnResult

pub record Host : Type 0 where
  pub win32 : Bool
  pub path : Option Text  -- process.env.PATH
  pub local_app_data : Option Text
  pub join : List Text → Text
  pub exists_sync : Text → Bool
  pub spawn_sync : Text → List Text → Option Text → SpawnResult  -- file, arguments, directory

pub data GitSource : Type 0 where
  packaged system_path system_absolute : GitSource

-- `networkAvailable` is true in every result.
pub record GitResolveResult : Type 0 where
  pub path : Text
  pub version : Text
  pub source : GitSource

pub record GitOptions : Type 0 where
  pub packaged_resources_dir : Option Text
  pub path_override : Option Text

abbrev pub Cache : Type 0
Cache = JsMap Text GitResolveResult

abbrev pub or_text : Option Text → Text → Text
or_text none default = default
or_text (some text) default = text

unfoldable pub cache_key : GitOptions → Text
cache_key o =
    or_text o.packaged_resources_dir (units "default")
    ++ (58 ∷ or_text o.path_override (units "__default__"))

-- A text that is not empty.
abbrev pub non_empty_text : Text → Option Text
non_empty_text [] = none
non_empty_text (c ∷ cs) = some (c ∷ cs)

-- `result.status === 0 && result.stdout ? result.stdout.trim() : null`, with the test that each call of
-- `getGitVersion` makes of its result.
abbrev pub version_printed : SpawnResult → Option Text
version_printed (throws message) = none
version_printed (ran none stdout stderr) = none
version_printed (ran (some status) none stderr) = none
version_printed (ran (some status) (some stdout) stderr) =
    if status == 0 then non_empty_text (trim stdout) else none

abbrev pub git_version : Host → Text → Option Text
git_version h git = version_printed (h.spawn_sync git (units "--version" ∷ []) none)

abbrev pub extensions : Bool → List Text
extensions win32 = if win32 then units ".exe" ∷ units ".cmd" ∷ units ".bat" ∷ [] ∷ [] else [] ∷ []

abbrev pub first_existing : Host → List Text → Option Text
first_existing h [] = none
first_existing h (candidate ∷ rest) =
    if h.exists_sync candidate then some candidate else first_existing h rest

abbrev pub in_dir : Host → Text → Text → List Text → List Text
in_dir h dir name [] = []
in_dir h dir name (ext ∷ exts) = h.join (dir ∷ (name ++ ext) ∷ []) ∷ in_dir h dir name exts

abbrev pub in_dirs : Host → List Text → Text → List Text
in_dirs h [] name = []
in_dirs h (dir ∷ dirs) name = in_dir h dir name (extensions h.win32) ++ in_dirs h dirs name

abbrev pub find_in_path : Host → Text → Option Text → Option Text
find_in_path h name override =
    let searched = or_text override (or_text h.path []) in
    first_existing h (in_dirs h (split_at (if h.win32 then 59 else 58) searched) name)

-- A candidate that answers with a version.
abbrev pub answer : GitSource → Text → Option Text → Option GitResolveResult
answer source git none = none
answer source git (some version) = some (record { path = git; version = version; source = source })

abbrev pub packaged_git : Host → Option Text → Option GitResolveResult
packaged_git h none = none
packaged_git h (some []) = none
packaged_git h (some (c ∷ cs)) =
    let git = h.join ((c ∷ cs) ∷ units "freecode" ∷ units "git" ∷ units "git.exe" ∷ []) in
    if h.exists_sync git then answer packaged git (git_version h git) else none

abbrev pub found_git : Host → Option Text → Option GitResolveResult
found_git h none = none
found_git h (some []) = none
found_git h (some (c ∷ cs)) = answer system_path (c ∷ cs) (git_version h (c ∷ cs))

-- `options.pathOverride !== ''`.
abbrev pub system_git : Host → Option Text → Option GitResolveResult
system_git h none = found_git h (find_in_path h (units "git") none)
system_git h (some []) = none
system_git h (some (c ∷ cs)) = found_git h (find_in_path h (units "git") (some (c ∷ cs)))

abbrev pub common_paths : Host → List Text
common_paths h =
    units "C:\\Program Files\\Git\\cmd\\git.exe"
    ∷ units "C:\\Program Files (x86)\\Git\\cmd\\git.exe"
    ∷ h.join (
        or_text h.local_app_data []
        ∷ units "Programs"
        ∷ units "Git"
        ∷ units "cmd"
        ∷ units "git.exe"
        ∷ [])
    ∷ []

abbrev pub or_result : Option GitResolveResult → Option GitResolveResult → Option GitResolveResult
or_result none later = later
or_result (some r) later = some r

abbrev pub first_common : Host → List Text → Option GitResolveResult
first_common h [] = none
first_common h (git ∷ rest) =
    or_result (if h.exists_sync git then answer system_absolute git (git_version h git) else none)
      (first_common h rest)

abbrev pub common_git : Host → Option Text → Option GitResolveResult
common_git h (some override) = none
common_git h none = if h.win32 then first_common h (common_paths h) else none

-- The three searches in their order.
unfoldable pub search_git : Host → GitOptions → Option GitResolveResult
search_git h o =
    or_result (packaged_git h o.packaged_resources_dir)
      (or_result (system_git h o.path_override) (common_git h o.path_override))

abbrev pub keep : Cache → Text → Option GitResolveResult → Option GitResolveResult × Cache
keep cache key none = (none, cache)
keep cache key (some r) = (some r, set key r cache)

-- `none`: it throws `executable-not-found`.
unfoldable pub resolve_git_path : Host → Cache → GitOptions → Option GitResolveResult × Cache
unfolding search_git cache_key
resolve_git_path h cache o = elim (get (cache_key o) cache) [
  | some cached ↦ (some cached, cache)
  | none ↦ keep cache (cache_key o) (search_git h o)
]
