-- ===== src/Update/Check.antt =====
-- apps/shell/src/main/harness-updater.ts and updater.ts: what the checks make of GitHub's answers.
use deepseek_harness.Common.{
  Text, text_eq, ℕ, Bool, true, false, not, ◌&&◌, Option, none, some, List, [], ◌∷◌, ◌++◌, find,
  filter, reverse, every, ◌==◌, nat_eq, if◌then◌else◌,
}
use deepseek_harness.Supervisor.Output.{units, strip, span}
use deepseek_harness.Policy.Reasoning.{lower_all, is_line_end, starts_with}
use deepseek_harness.Update.Version.{strip_v}
use deepseek_harness.Update.Install.{
  HarnessUpdateInfo, Failure, http_status, no_sha, no_asset, thrown,
}

abbrev pub name_start : Text
name_start = units "deepseek-harness-runtime-"

abbrev pub name_end : Text
name_end = units ".tar.gz"

unfoldable pub harness_platform : Text → Text
harness_platform platform =
    if platform == units "win32"
    then units "win32"
    else if platform == units "darwin"
    then units "darwin"
    else units "linux"

unfoldable pub harness_asset_name : Text → Text → Text → Text
harness_asset_name version platform arch =
    name_start ++ (version ++ (45 ∷ (harness_platform platform ++ (45 ∷ (arch ++ name_end)))))

-- The match of `/^deepseek-harness-runtime-(.+)-[^-]+-[^-]+\.tar\.gz$/`, from its end: two runs without
-- a dash stand between the end and the version.
abbrev pub is_no_dash : ℕ → Bool
is_no_dash c = not (c == 45)

abbrev pub after_run : Text → Text → Option Text
after_run [] rest = none
after_run (c ∷ cs) [] = none
after_run (c ∷ cs) (dash ∷ rest) = some rest

abbrev pub take_run : Text → Option Text
take_run text = after_run (span is_no_dash text).0 (span is_no_dash text).1

abbrev pub version_part : Text → Option Text
version_part [] = none
version_part (c ∷ cs) = if every (λ u. not (is_line_end u)) (c ∷ cs) then some (c ∷ cs) else none

infixl 5 ◌>>=◌
abbrev pub ◌>>=◌ : Option Text → (Text → Option Text) → Option Text
none >>= f = none
some text >>= f = f text

unfoldable pub version_of_name : Text → Option Text
version_of_name name = do
  back ← strip (reverse name_end) (reverse name)
  rest ← take_run back
  start ← take_run rest
  version ← strip name_start (reverse start)
  version_part version

-- `GitHubReleaseAsset`: `none` for a field that is no string.
pub record GitHubReleaseAsset : Type 0 where
  pub name : Option Text
  pub browser_download_url : Option Text
  pub digest : Option Text

-- What a request gives: it throws, it has an error status, or a body of the given shape, which may
-- fail to be read.
pub data Answer (Body : Type 0) : Type 0 where
  fails : Text → Answer Body
  has_status : ℕ → Answer Body
  gives : Body → Answer Body

pub record GitHubRelease : Type 0 where
  pub tag_name : Option Text
  pub assets : List GitHubReleaseAsset

abbrev pub has_text : Option Text → Bool
has_text none = false
has_text (some text) = true

abbrev pub is_candidate : GitHubReleaseAsset → Bool
is_candidate a = has_text a.name && has_text a.browser_download_url

abbrev pub is_named : Option Text → GitHubReleaseAsset → Bool
is_named none a = false
is_named (some expected) a = elim a.name [ none ↦ false | some name ↦ name == expected ]

abbrev pub ends_with : Text → Text → Bool
ends_with suffix text = starts_with (reverse suffix) (reverse text)

abbrev pub fits : Text → Text → GitHubReleaseAsset → Bool
fits platform arch a = elim a.name [
  | none ↦ false
  | some name ↦
      starts_with name_start name
      && ends_with (45 ∷ (harness_platform platform ++ (45 ∷ (arch ++ name_end)))) name
]

abbrev pub or_else {ℓ} : {A : Type ℓ} → Option A → Option A → Option A
or_else none b = b
or_else (some a) b = some a

unfoldable pub find_asset :
    Text → Text → Option Text → List GitHubReleaseAsset → Option GitHubReleaseAsset
find_asset platform arch expected assets =
    or_else (find (is_named expected) (filter is_candidate assets))
      (find (fits platform arch) (filter is_candidate assets))

abbrev pub name_of : Option GitHubReleaseAsset → Option Text
name_of none = none
name_of (some a) = a.name

abbrev pub url_of : Option GitHubReleaseAsset → Option Text
url_of none = none
url_of (some a) = a.browser_download_url

abbrev pub digest_of : Option GitHubReleaseAsset → Option Text
digest_of none = none
digest_of (some a) = a.digest

abbrev pub version_named : Option Text → Option Text
unfolding version_of_name
version_named none = none
version_named (some name) = version_of_name name

-- JavaScript's `Boolean` of a text that may be absent.
abbrev pub truthy : Option Text → Bool
truthy none = false
truthy (some []) = false
truthy (some (c ∷ cs)) = true

abbrev pub same : Option Text → Option Text → Bool
same none none = true
same (some a) (some b) = a == b
same _ _ = false

abbrev pub missing_asset : Option Text → Option Text → Option Failure
missing_asset none url = none
missing_asset (some latest) url =
    if truthy (some latest) && not (truthy url) then some (no_asset latest) else none

abbrev pub release_info : Option Text → Text → Text → GitHubRelease → HarnessUpdateInfo
unfolding find_asset version_of_name harness_asset_name
release_info current platform arch release =
    let tag : Option Text = elim release.tag_name [ none ↦ none | some t ↦ some (strip_v t) ] in
    let expected : Option Text = elim tag [
      | none ↦ none
      | some v ↦ some (harness_asset_name v platform arch)
    ] in
    let asset = find_asset platform arch expected release.assets in
    let latest = or_else (version_named (name_of asset)) tag in
    record {
      current_version = current;
      latest_version = latest;
      asset_name = name_of asset;
      asset_url = url_of asset;
      digest = digest_of asset;
      available =
          truthy current && truthy latest && not (same current latest) && truthy (url_of asset);
      error = missing_asset latest (url_of asset);
    }

abbrev pub failed_info : Option Text → Failure → HarnessUpdateInfo
failed_info current failure = record {
  current_version = current;
  latest_version = none;
  asset_name = none;
  asset_url = none;
  digest = none;
  available = false;
  error = some failure;
}

unfoldable pub check_harness_release :
    Option Text → Text → Text → Answer GitHubRelease → HarnessUpdateInfo
unfolding find_asset version_of_name harness_asset_name
check_harness_release current platform arch (fails message) = failed_info current (thrown message)
check_harness_release current platform arch (has_status code) =
    failed_info current (http_status code)
check_harness_release current platform arch (gives release) =
    release_info current platform arch release

pub record UpstreamUpdateInfo : Type 0 where
  pub current_commit : Option Text
  pub latest_commit : Option Text
  pub available : Bool
  pub error : Option Failure

abbrev pub upstream_failed : Option Text → Failure → UpstreamUpdateInfo
upstream_failed current failure = record {
  current_commit = current;
  latest_commit = none;
  available = false;
  error = some failure;
}

abbrev pub differs : Option Text → Text → Bool
differs none latest = false
differs (some []) latest = false
differs (some (c ∷ cs)) latest = not (lower_all (c ∷ cs) == lower_all latest)

abbrev pub upstream_info : Option Text → Option Text → UpstreamUpdateInfo
upstream_info current none = upstream_failed current no_sha
upstream_info current (some []) = upstream_failed current no_sha
upstream_info current (some (c ∷ cs)) = record {
  current_commit = current;
  latest_commit = some (c ∷ cs);
  available = differs current (c ∷ cs);
  error = none;
}

-- The body is its field `sha`, where that is a string.
unfoldable pub check_upstream_update : Option Text → Answer (Option Text) → UpstreamUpdateInfo
check_upstream_update current (fails message) = upstream_failed current (thrown message)
check_upstream_update current (has_status code) = upstream_failed current (http_status code)
check_upstream_update current (gives sha) = upstream_info current sha
