-- ===== src/Update/Install.antt =====
-- apps/shell/src/main/harness-updater.ts: `installHarnessRuntime`, as an exchange of directories. The
-- places of the file system that it touches are the state; what each call of it does is an argument.
use deepseek_harness.Common.{
  Text, text_eq, ℕ, Bool, true, false, not, ◌&&◌, Option, none, some, [], ◌∷◌, ◌==◌, nat_eq,
  if◌then◌else◌,
}
use deepseek_harness.Supervisor.Output.{units, strip}
use deepseek_harness.Policy.Reasoning.{lower_all}

-- A runtime directory: whether apps/cli/lib/bin.js is there, and everything else.
pub record Harness : Type 0 where
  pub has_cli : Bool
  pub body : Text

-- runtime-manifest.json: what `JSON.parse` and its field `cli` give.
pub data Manifest : Type 0 where
  unreadable : Manifest
  no_cli : Manifest
  names_cli : Text → Manifest

pub record Files : Type 0 where
  pub current_harness : Option Harness
  pub current_manifest : Option Manifest
  pub backup_harness : Option Harness
  pub backup_manifest : Option Manifest
  pub next_harness : Option Harness
  pub next_manifest : Option Manifest

pub data Outcome : Type 0 where
  returns : Files → Outcome
  throws : Files → Outcome

abbrev pub files_of : Outcome → Files
files_of (returns f) = f
files_of (throws f) = f

abbrev pub then_do : Outcome → (Files → Outcome) → Outcome
then_do (returns f) next = next f
then_do (throws f) next = throws f

abbrev pub cli_place : Text
cli_place = units "dsh/apps/cli/lib/bin.js"

abbrev pub is_good_manifest : Manifest → Bool
is_good_manifest unreadable = false
is_good_manifest no_cli = true
is_good_manifest (names_cli place) = place == cli_place

-- `validateHarnessRuntime` returns.
unfoldable pub is_valid : Option Harness → Option Manifest → Bool
is_valid none manifest = false
is_valid (some harness) none = false
is_valid (some harness) (some manifest) = harness.has_cli && is_good_manifest manifest

-- `verifyDigest` returns. `actual` is the hexadecimal SHA-256 of the archive.
abbrev pub without_prefix : Text → Text
without_prefix digest = elim (strip (units "sha256:") (lower_all digest)) [
  | none ↦ lower_all digest
  | some rest ↦ rest
]

unfoldable pub matches_digest : Option Text → Text → Bool
matches_digest none actual = true
matches_digest (some []) actual = true
matches_digest (some (c ∷ cs)) actual = without_prefix (c ∷ cs) == actual

-- What the file system does: whether a rename works, and what a removal that throws leaves.
pub record World : Type 0 where
  pub backs_up_harness : Bool
  pub backs_up_manifest : Bool
  pub moves_harness : Bool
  pub moves_manifest : Bool
  pub removes_backup : Option (Option Harness)
  pub removes_manifest_backup : Bool
  pub undo_removes_harness : Option (Option Harness)
  pub undo_restores_harness : Bool
  pub undo_removes_manifest : Bool
  pub undo_restores_manifest : Bool
  pub removes_temporary : Option (Option Harness × Option Manifest)

abbrev pub exists {ℓ} : {A : Type ℓ} → Option A → Bool
exists none = false
exists (some a) = true

module _ (w : World) where
  abbrev pub back_up_harness : Files → Outcome
  back_up_harness f =
      if w.backs_up_harness
      then returns (record f { backup_harness = f.current_harness; current_harness = none })
      else throws f

  abbrev pub back_up_manifest : Files → Outcome
  back_up_manifest f =
      if not (exists f.current_manifest)
      then returns f
      else if w.backs_up_manifest
      then returns (record f { backup_manifest = f.current_manifest; current_manifest = none })
      else throws f

  abbrev pub move_harness : Files → Outcome
  move_harness f =
      if w.moves_harness
      then returns (record f { current_harness = f.next_harness; next_harness = none })
      else throws f

  abbrev pub move_manifest : Files → Outcome
  move_manifest f =
      if w.moves_manifest
      then returns (record f { current_manifest = f.next_manifest; next_manifest = none })
      else throws f

  abbrev pub check_current : Files → Outcome
  unfolding is_valid
  check_current f = if is_valid f.current_harness f.current_manifest then returns f else throws f

  abbrev pub remove_backup : Files → Outcome
  remove_backup f = elim w.removes_backup [
    | none ↦ returns (record f { backup_harness = none })
    | some left ↦ throws (record f { backup_harness = left })
  ]

  abbrev pub remove_manifest_backup : Files → Outcome
  remove_manifest_backup f =
      if w.removes_manifest_backup then returns (record f { backup_manifest = none }) else throws f

  -- The body of the inner `try`.
  unfoldable pub exchange : Files → Outcome
  exchange f = then_do (move_harness f) (λ a.
      then_do (move_manifest a)
        (λ b. then_do (check_current b) (λ c. then_do (remove_backup c) remove_manifest_backup)))

  abbrev pub undo_remove_harness : Files → Outcome
  undo_remove_harness f = elim w.undo_removes_harness [
    | none ↦ returns (record f { current_harness = none })
    | some left ↦
        if exists f.current_harness then throws (record f { current_harness = left }) else returns f
  ]

  abbrev pub undo_restore_harness : Files → Outcome
  undo_restore_harness f =
      if not (exists f.backup_harness)
      then returns f
      else if w.undo_restores_harness
      then returns (record f { current_harness = f.backup_harness; backup_harness = none })
      else throws f

  abbrev pub undo_remove_manifest : Files → Outcome
  undo_remove_manifest f =
      if not (exists f.current_manifest)
      then returns f
      else if w.undo_removes_manifest
      then returns (record f { current_manifest = none })
      else throws f

  abbrev pub undo_restore_manifest : Files → Outcome
  undo_restore_manifest f =
      if not (exists f.backup_manifest)
      then returns f
      else if w.undo_restores_manifest
      then returns (record f { current_manifest = f.backup_manifest; backup_manifest = none })
      else throws f

  -- The `catch`, which throws in any case.
  unfoldable pub undo : Files → Outcome
  undo f = then_do (undo_remove_harness f) (λ a.
      then_do (undo_restore_harness a)
        (λ b. then_do (undo_remove_manifest b) (λ c. then_do (undo_restore_manifest c) throws)))

  abbrev pub or_undo : Outcome → Outcome
  unfolding undo
  or_undo (returns f) = returns f
  or_undo (throws f) = undo f

  -- From the validation of the extracted runtime on.
  unfoldable pub swap_in : Files → Outcome
  unfolding exchange undo is_valid
  swap_in f =
      if not (is_valid f.next_harness f.next_manifest)
      then throws f
      else if not (exists f.current_harness)
      then throws f
      else then_do (back_up_harness f)
          (λ a. then_do (back_up_manifest a) (λ b. or_undo (exchange b)))

-- What an `error` says.
pub data Failure : Type 0 where
  http_status : ℕ → Failure
  no_sha : Failure
  no_asset : Text → Failure
  thrown : Text → Failure

pub record HarnessUpdateInfo : Type 0 where
  pub current_version : Option Text
  pub latest_version : Option Text
  pub asset_name : Option Text
  pub asset_url : Option Text
  pub digest : Option Text
  pub available : Bool
  pub error : Option Failure

-- The download and the extraction: no answer or an error status, or the archive's hash with what
-- `tar` gives.
pub data Download : Type 0 where
  no_answer : Download
  http_error : ℕ → Download
  archive : Text → Option (Option Harness × Option Manifest) → Download

abbrev pub extract : World → Files → Option (Option Harness × Option Manifest) → Outcome
unfolding swap_in
extract w f none = throws f
extract w f (some (harness, manifest)) =
    swap_in w (record f { next_harness = harness; next_manifest = manifest })

abbrev pub unpack : World → Option Text → Files → Download → Outcome
unfolding swap_in matches_digest
unpack w digest f no_answer = throws f
unpack w digest f (http_error code) = throws f
unpack w digest f (archive actual contents) =
    if matches_digest digest actual then extract w f contents else throws f

abbrev pub has_url : Option Text → Bool
has_url none = false
has_url (some []) = false
has_url (some (c ∷ cs)) = true

-- The temporary directory with the extracted runtime is removed at the end in any case; where that
-- throws, the installation does, whatever it came to before.
abbrev pub without_temporary : Outcome → Outcome
without_temporary (returns f) = returns (record f { next_harness = none; next_manifest = none })
without_temporary (throws f) = throws (record f { next_harness = none; next_manifest = none })

abbrev pub clean_up : Option (Option Harness × Option Manifest) → Outcome → Outcome
clean_up none o = without_temporary o
clean_up (some (harness, manifest)) o =
    throws (record (files_of o) { next_harness = harness; next_manifest = manifest })

unfoldable pub install_harness_runtime : World → HarnessUpdateInfo → Files → Download → Outcome
unfolding swap_in matches_digest
install_harness_runtime w info f download =
    if has_url info.asset_url
    then clean_up w.removes_temporary (unpack w info.digest f download)
    else throws f
