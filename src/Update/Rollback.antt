-- ===== src/Update/Rollback.antt =====
-- apps/shell/src/main/harness-updater.ts: an installation is done whole or undone, where the file
-- system does what the code counts on, and what is lost where it does not.
use deepseek_harness.Common.{
  Bool, true, false, Option, none, some, ◌≡◌, refl, Bool-cases, inl, inr, subst, ◌&&◌, Text,
}
use deepseek_harness.Update.Install.{
  Harness, Manifest, Files, Outcome, returns, throws, World, is_valid, matches_digest, swap_in,
  HarnessUpdateInfo, has_url, Download, no_answer, http_error, archive, install_harness_runtime,
  unpack, without_temporary,
}

-- The steps work that the code cannot undo: the backup of the manifest, the removal of the backups
-- and of the temporary directory, and the undoing itself.
pub record IsSound (w : World) : Type 0 where
  pub backs_up_manifest : w.backs_up_manifest ≡ true
  pub removes_backup : w.removes_backup ≡ none
  pub removes_manifest_backup : w.removes_manifest_backup ≡ true
  pub undo_removes_harness : w.undo_removes_harness ≡ none
  pub undo_restores_harness : w.undo_restores_harness ≡ true
  pub undo_removes_manifest : w.undo_removes_manifest ≡ true
  pub undo_restores_manifest : w.undo_restores_manifest ≡ true
  pub removes_temporary : w.removes_temporary ≡ none

-- The names of the backups, with the process's id and the time, are not taken.
abbrev pub HasNoBackup : Files → Type 0
HasNoBackup f = (f.backup_harness ≡ none) × (f.backup_manifest ≡ none)

abbrev pub IsKept : Files → Files → Type 0
IsKept f g = (g.current_harness ≡ f.current_harness) × (g.current_manifest ≡ f.current_manifest)

abbrev pub IsSwapped : Files → Outcome → Type 0
IsSwapped f (returns g) =
    (g.current_harness ≡ f.next_harness)
    × (g.current_manifest ≡ f.next_manifest)
    × (is_valid g.current_harness g.current_manifest ≡ true)
IsSwapped f (throws g) = IsKept f g

-- A sound world, by the steps that may fail.
abbrev pub exchanged : Bool → Bool → Bool → World
exchanged backs_up moves also_moves = record {
  backs_up_harness = backs_up;
  backs_up_manifest = true;
  moves_harness = moves;
  moves_manifest = also_moves;
  removes_backup = none;
  removes_manifest_backup = true;
  undo_removes_harness = none;
  undo_restores_harness = true;
  undo_removes_manifest = true;
  undo_restores_manifest = true;
  removes_temporary = none;
}

abbrev pub placed : Option Harness → Option Manifest → Option Harness → Option Manifest → Files
placed harness manifest next next_manifest = record {
  current_harness = harness;
  current_manifest = manifest;
  backup_harness = none;
  backup_manifest = none;
  next_harness = next;
  next_manifest = next_manifest;
}

swap_valid :
    (a b c : Bool) (h : Option Harness) (m : Option Manifest) (k : Option Harness)
    (l : Option Manifest)
    → is_valid k l ≡ true
    → IsSwapped (placed h m k l) (swap_in (exchanged a b c) (placed h m k l))
unfolding swap_in
swap_valid a b c none m k l valid = rw valid (refl, refl)
swap_valid false b c (some h) m k l valid = rw valid (refl, refl)
swap_valid true false c (some h) none k l valid = rw valid (refl, refl)
swap_valid true false c (some h) (some m) k l valid = rw valid (refl, refl)
swap_valid true true false (some h) none none l valid = absurd (cc valid)
swap_valid true true false (some h) (some m) none l valid = absurd (cc valid)
swap_valid true true false (some h) none (some k) l valid = rw valid (refl, refl)
swap_valid true true false (some h) (some m) (some k) l valid = rw valid (refl, refl)
swap_valid true true true (some h) none k l valid = rw valid (refl, refl, valid)
swap_valid true true true (some h) (some m) k l valid = rw valid (refl, refl, valid)

swap_placed :
    (a b c : Bool) (h : Option Harness) (m : Option Manifest) (k : Option Harness)
    (l : Option Manifest)
    → IsSwapped (placed h m k l) (swap_in (exchanged a b c) (placed h m k l))
unfolding swap_in
swap_placed a b c h m k l = elim (Bool-cases (is_valid k l)) [
  | inr bad ↦ rw bad (refl, refl)
  | inl valid ↦ swap_valid a b c h m k l valid
]

world_eq :
    (w : World) → IsSound w → exchanged w.backs_up_harness w.moves_harness w.moves_manifest ≡ w
world_eq w s = cc

swap_in-IsSwapped : (w : World) (f : Files) → IsSound w → HasNoBackup f → IsSwapped f (swap_in w f)
swap_in-IsSwapped w f s n =
    let files : placed f.current_harness f.current_manifest f.next_harness f.next_manifest ≡ f =
      cc in
    let old = placed f.current_harness f.current_manifest f.next_harness f.next_manifest in
    let swapped =
      swap_placed w.backs_up_harness w.moves_harness w.moves_manifest f.current_harness
        f.current_manifest f.next_harness f.next_manifest in
    subst (λ g. IsSwapped g (swap_in w g)) files
      (subst (λ v. IsSwapped old (swap_in v old)) (world_eq w s) swapped)

-- What an installation comes to.
abbrev pub IsDone : HarnessUpdateInfo → Files → Download → Outcome → Type 0
IsDone info f download (returns g) =
    (actual : Text) × (download ≡ archive actual (some (g.current_harness, g.current_manifest)))
    × (matches_digest info.digest actual ≡ true)
    × (is_valid g.current_harness g.current_manifest ≡ true)
IsDone info f download (throws g) = IsKept f g

cleaned :
    (info : HarnessUpdateInfo) (f : Files) (actual : Text) (h : Option Harness)
    (m : Option Manifest) (o : Outcome)
    → matches_digest info.digest actual ≡ true
    → IsSwapped (record f { next_harness = h; next_manifest = m }) o
    → IsDone info f (archive actual (some (h, m))) (without_temporary o)
cleaned info f actual h m (throws g) same s = s
cleaned info f actual h m (returns g) same s = (actual, cc, same, s.2)

-- Where the file system keeps to these steps: an installation that returns has put in place what the
-- download holds, whose digest matches where one is given, and which is a valid runtime; one that
-- throws has left the current runtime and its manifest as they were.
pub install_harness_runtime-IsDone :
    (w : World) (info : HarnessUpdateInfo) (f : Files) (download : Download)
    → IsSound w
    → HasNoBackup f
    → IsDone info f download (install_harness_runtime w info f download)
unfolding install_harness_runtime
install_harness_runtime-IsDone w info f download s n = elim (Bool-cases (has_url info.asset_url)) [
  | inr missing ↦ rw missing (refl, refl)
  | inl here ↦ rw (here, s.removes_temporary) (by_download download)
]
  where
    by_download : (d : Download) → IsDone info f d (without_temporary (unpack w info.digest f d))
    by_download no_answer = (refl, refl)
    by_download (http_error code) = (refl, refl)
    by_download (archive actual none) = elim (Bool-cases (matches_digest info.digest actual)) [
      | inl same ↦ rw same (refl, refl)
      | inr other ↦ rw other (refl, refl)
    ]
    by_download (archive actual (some (h, m))) =
        elim (Bool-cases (matches_digest info.digest actual)) [
          | inr other ↦ rw other (refl, refl)
          | inl same ↦ rw same (
              cleaned info f actual h m _ same
                (swap_in-IsSwapped w (record f { next_harness = h; next_manifest = m }) s n))
        ]

-- Where the backup of the manifest fails, or its removal at the end does, and all else works: the
-- installation of a valid runtime throws, and there is no runtime where the current one was.
pub unsafe_steps_lose_harness :
    (backs_up removes : Bool) (h : Harness) (m : Manifest) (k : Option Harness)
    (l : Option Manifest)
    → is_valid k l ≡ true
    → (backs_up && removes) ≡ false
    → (g : Files) × (swap_in
          (record (exchanged true true true) {
            backs_up_manifest = backs_up;
            removes_manifest_backup = removes;
          })
          (placed (some h) (some m) k l)
        ≡ throws g)
      × (g.current_harness ≡ none)
unfolding swap_in
unsafe_steps_lose_harness true true h m k l valid lost = absurd (cc lost)
unsafe_steps_lose_harness false removes h m k l valid lost =
    (record (placed none (some m) k l) { backup_harness = some h }, rw valid refl, refl)
unsafe_steps_lose_harness true false h m none l valid lost = absurd (cc valid)
unsafe_steps_lose_harness true false h m (some k) none valid lost = absurd (cc valid)
unsafe_steps_lose_harness true false h m (some k) (some l) valid lost =
    (placed none (some m) none none, rw valid refl, refl)
