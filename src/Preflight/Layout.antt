-- ===== src/Preflight/Layout.antt =====
-- apps/shell/src/main/preflight.ts: `verifyHarnessLayout` and the checks that it makes.
use deepseek_harness.Common.{
  Text, text_eq, ℕ, Bool, false, not, ◌&&◌, Option, none, some, List, [], ◌∷◌, ◌++◌, String, ◌==◌,
  nat_eq, length, map, every, if◌then◌else◌,
}
use deepseek_harness.Supervisor.Output.{units}
use deepseek_harness.Update.Version.{trim}
use deepseek_harness.Git.Commands.{includes}

-- What `JSON.parse` gives of a manifest: an object with the two fields that are looked at, which are
-- `none` where they are no strings, or anything else.
pub data Json : Type 0 where
  object : Option Text → Option Text → Json
  no_object : Json

-- What the file system and `JSON.parse` answer; `none` where they throw.
pub record Disk : Type 0 where
  pub join : List Text → Text
  pub exists_sync : Text → Bool
  pub is_directory : Text → Option Bool
  pub readdir_sync : Text → Option (List Text)
  pub read_file_sync : Text → Option Text
  pub parse : Text → Option Json

pub record PreflightOptions : Type 0 where
  pub resources_dir : Text
  pub platform : Text

pub record PreflightResult : Type 0 where
  pub ok : Bool
  pub missing : List Text
  pub warnings : List Text

pub record CriticalPath : Type 0 where
  pub path : Text
  pub label : Text

abbrev pub required_markers : List String
required_markers =
    "FREECODE_DIALOG_BRIDGE_ENDPOINT" ∷ "FREECODE_DIALOG_BRIDGE_TOKEN" ∷ "x-freecode-dialog-token"
    ∷ "fetch(" ∷ []

-- `requiredMarkers.some(marker => !contents.includes(marker))` is the negation of this.
unfoldable pub has_markers : Text → Bool
has_markers contents = every (λ marker. includes (units marker) contents) required_markers

abbrev pub bridge_warning : Text
bridge_warning =
    units
      "directory-picker-native bundle lacks Electron dialog bridge — Win32 picker will crash. Rebuild vendor and repackage."

abbrev pub bridge_of : Option Text → Option Text
bridge_of none = none
bridge_of (some contents) = if has_markers contents then none else some bridge_warning

unfoldable pub is_blank : Text → Bool
is_blank text = length (trim text) == 0

abbrev pub is_filled : Option Text → Bool
is_filled none = false
is_filled (some text) = not (is_blank text)

abbrev pub json_warning : Text → Option Json → Option Text
json_warning path none = some (units "runtime manifest is not valid JSON: " ++ path)
json_warning path (some no_object) = some (units "runtime manifest is not a JSON object: " ++ path)
json_warning path (some (object version cli)) =
    if not (is_filled version)
    then some (units "runtime manifest is missing a valid version: " ++ path)
    else if not (is_filled cli)
    then some (units "runtime manifest is missing a valid cli: " ++ path)
    else none

abbrev pub count : Option (List Text) → ℕ
count none = 0
count (some entries) = length entries

abbrev pub warning_of : Option Text → List Text
warning_of none = []
warning_of (some warning) = warning ∷ []

module _ (d : Disk) where
  -- A path in the resources, of its parts.
  abbrev pub inside : PreflightOptions → List String → Text
  inside o parts = d.join (o.resources_dir ∷ map units parts)

  abbrev pub critical : PreflightOptions → List String → String → CriticalPath
  critical o parts label = record { path = inside o parts; label = units label }

  abbrev pub manifest_path : PreflightOptions → Text
  manifest_path o = inside o ("runtime-manifest.json" ∷ [])

  abbrev pub bundle_path : PreflightOptions → Text
  bundle_path o = inside o (
      "dsh" ∷ "node_modules" ∷ "@deepseek-ai" ∷ "dsh-host-directory-picker-native" ∷ "lib"
      ∷ "index.js" ∷ [])

  abbrev pub worker_paths : PreflightOptions → List CriticalPath
  worker_paths o =
      if o.platform == units "win32"
      then critical o ("opencode2api" ∷ "opencode2api-win-x64.exe" ∷ [])
          "opencode2api worker binary"
        ∷ []
      else if o.platform == units "linux"
      then critical o ("opencode2api" ∷ "opencode2api-linux-x64" ∷ []) "opencode2api worker binary"
        ∷ []
      else []

  unfoldable pub critical_paths : PreflightOptions → List CriticalPath
  critical_paths o =
      critical o ("runtime-manifest.json" ∷ []) "runtime manifest"
      ∷ critical o ("dsh" ∷ "apps" ∷ "cli" ∷ "lib" ∷ "bin.js" ∷ [])
          "dsh CLI entry (apps/cli/lib/bin.js)"
      ∷ critical o ("dsh" ∷ "packages" ∷ []) "dsh packages/"
      ∷ critical o ("dsh" ∷ "node_modules" ∷ []) "dsh node_modules/"
      ∷ record { path = bundle_path o; label = units "directory-picker-native bundle" }
      ∷ worker_paths o

  unfoldable pub verify_bridge_invariant : PreflightOptions → Option Text
  verify_bridge_invariant o =
      if not (o.platform == units "win32")
      then none
      else if not (d.exists_sync (bundle_path o))
      then none
      else bridge_of (d.read_file_sync (bundle_path o))

  abbrev pub contents_warning : Text → Option Text → Option Text
  contents_warning path none = some (units "runtime manifest is not valid JSON: " ++ path)
  contents_warning path (some contents) =
      if is_blank contents
      then some (units "runtime manifest is empty: " ++ path)
      else json_warning path (d.parse contents)

  unfoldable pub verify_manifest_invariant : PreflightOptions → Option Text
  verify_manifest_invariant o =
      if not (d.exists_sync (manifest_path o))
      then none
      else contents_warning (manifest_path o) (d.read_file_sync (manifest_path o))

  abbrev pub read_entries : Text → ℕ
  read_entries dir = count (d.readdir_sync dir)

  abbrev pub is_empty_dir : Text → Option Bool → Bool
  is_empty_dir path none = false
  is_empty_dir path (some dir) = dir && read_entries path == 0

  abbrev pub missing_at : CriticalPath → List Text
  missing_at c =
      let place = c.label ++ units ": " ++ c.path in
      if not (d.exists_sync c.path)
      then place ∷ []
      else if is_empty_dir c.path (d.is_directory c.path)
      then (place ++ units " (empty)") ∷ []
      else []

  abbrev pub missing_of : List CriticalPath → List Text
  missing_of [] = []
  missing_of (c ∷ cs) = missing_at c ++ missing_of cs

  unfoldable pub verify_harness_layout : PreflightOptions → PreflightResult
  verify_harness_layout o =
      let missing = missing_of (critical_paths o) in
      let warnings =
        warning_of (verify_bridge_invariant o) ++ warning_of (verify_manifest_invariant o) in
      record {
        ok = length missing == 0 && length warnings == 0;
        missing = missing;
        warnings = warnings;
      }
