-- ===== src/Preflight/Verdict.antt =====
-- apps/shell/src/main/preflight.ts: a layout is ok exactly if everything that is looked at is in order.
use deepseek_harness.Common.{
  Text, text_eq, ℕ, Bool, true, false, not, ◌&&◌, Option, none, some, List, [], ◌∷◌, ◌++◌, ◌≡◌, ◌↔◌,
  refl, arith, nat_eq, length, length-append, All, Bool-cases, inl, inr, ◌==◌, subst, sym,
  if◌then◌else◌,
}
use deepseek_harness.Supervisor.Output.{units}
use deepseek_harness.Preflight.Layout.{
  Disk, PreflightOptions, CriticalPath, Json, object, no_object, verify_harness_layout,
  critical_paths, bundle_path, manifest_path, has_markers, is_blank, is_filled, is_empty_dir,
  missing_at, missing_of, warning_of, bridge_of, verify_bridge_invariant, verify_manifest_invariant,
  contents_warning, json_warning,
}

both_zero_iff : (m n : ℕ) → ((m == 0 && n == 0) ≡ true) ↔ ((m ≡ 0) × (n ≡ 0))
both_zero_iff m n = ground arith

some_inj : {x y : Text} → some x ≡ some y → x ≡ y
some_inj e = cc e

-- The bundle is looked at on Windows, where it is there and can be read.
bridge_of_iff :
    (read : Option Text)
    → (length (warning_of (bridge_of read)) ≡ 0)
      ↔ ((contents : Text) → read ≡ some contents → has_markers contents ≡ true)
bridge_of_iff none = (λ h contents e. absurd (cc e), λ h. refl)
bridge_of_iff (some read) = elim (Bool-cases (has_markers read)) [
  | inl full ↦
      rw full (λ h contents e. subst (λ t. has_markers t ≡ true) (some_inj e) full, λ h. refl)
  | inr stale ↦ rw stale (λ h. absurd (omega (arith, h)), λ h. absurd (cc (h read refl, stale)))
]

guarded_iff :
    (win there : Bool) (read : Option Text)
    → (length (warning_of (if not win then none else if not there then none else bridge_of read))
        ≡ 0)
      ↔ (win ≡ true
          → there ≡ true
          → (contents : Text) → read ≡ some contents
          → has_markers contents ≡ true)
guarded_iff false there read = (λ h w. absurd (cc w), λ h. refl)
guarded_iff true false read = (λ h w t. absurd (cc t), λ h. refl)
guarded_iff true true read =
    (λ h w t. (bridge_of_iff read).0 h, λ h. (bridge_of_iff read).1 (h refl refl))

filled_iff :
    (text : Option Text)
    → (is_filled text ≡ true) ↔ ((t : Text) × (text ≡ some t) × (is_blank t ≡ false))
filled_iff none = (λ h. absurd (cc h), λ (t, e, f). absurd (cc e))
filled_iff (some text) = (λ h. (text, refl, ground arith), λ (t, e, f). rw (some_inj e, f) refl)

fields_filled :
    (a b : Bool) (x y : Text)
    → length (warning_of (if not a then some x else if not b then some y else none)) ≡ 0
    → (a ≡ true) × (b ≡ true)
fields_filled false b x y h = absurd (omega (arith, h))
fields_filled true false x y h = absurd (omega (arith, h))
fields_filled true true x y h = (refl, refl)

json_warning_iff :
    (path : Text) (parsed : Option Json)
    → (length (warning_of (json_warning path parsed)) ≡ 0) ↔ (
        (version cli : Text) × (parsed ≡ some (object (some version) (some cli)))
        × (is_blank version ≡ false)
        × (is_blank cli ≡ false))
json_warning_iff path none =
    (λ h. absurd (omega (arith, h)), λ (version, cli, e, fv, fc). absurd (cc e))
json_warning_iff path (some no_object) =
    (λ h. absurd (omega (arith, h)), λ (version, cli, e, fv, fc). absurd (cc e))
json_warning_iff path (some (object version cli)) = (
  λ h.
      let (v, ev, fv) =
        (filled_iff version).0 (fields_filled (is_filled version) (is_filled cli) _ _ h).0 in
      let (c, ec, fc) =
        (filled_iff cli).0 (fields_filled (is_filled version) (is_filled cli) _ _ h).1 in
      (v, c, cc (ev, ec), fv, fc),
  λ (v, c, e, fv, fc).
      rw ((filled_iff version).1 (v, cc e, fv)) (rw ((filled_iff cli).1 (c, cc e, fc)) refl),
)

module _ (d : Disk) where
  -- A path is there, and it is no directory that is empty or cannot be read.
  abbrev pub IsPresent : CriticalPath → Type 0
  IsPresent c =
      (d.exists_sync c.path ≡ true) × (is_empty_dir d c.path (d.is_directory c.path) ≡ false)

  -- On Windows, a bundle that can be read has the four markers of the bridge.
  abbrev pub IsBridged : PreflightOptions → Type 0
  IsBridged o =
      (o.platform == units "win32") ≡ true
      → d.exists_sync (bundle_path d o) ≡ true
      → (contents : Text) → d.read_file_sync (bundle_path d o) ≡ some contents
      → has_markers contents ≡ true

  -- The manifest is an object with a version and a command that are not blank.
  abbrev pub HasManifest : PreflightOptions → Type 0
  HasManifest o =
      (contents version cli : Text) × (d.read_file_sync (manifest_path d o) ≡ some contents)
      × (is_blank contents ≡ false)
      × (d.parse contents ≡ some (object (some version) (some cli)))
      × (is_blank version ≡ false)
      × (is_blank cli ≡ false)

  missing_at_iff : (c : CriticalPath) → (length (missing_at d c) ≡ 0) ↔ IsPresent c
  missing_at_iff c = ground arith

  missing_of_iff : (cs : List CriticalPath) → (length (missing_of d cs) ≡ 0) ↔ All IsPresent cs
  missing_of_iff [] = (λ h. tt, λ h. refl)
  missing_of_iff (c ∷ cs) =
      let both = length-append (missing_at d c) (missing_of d cs) in
      (
        λ h. (
          (missing_at_iff c).0 (omega (arith, both, h)),
          (missing_of_iff cs).0 (omega (arith, both, h)),
        ),
        λ (here, later).
            omega (arith, both, (missing_at_iff c).1 here, (missing_of_iff cs).1 later),
      )

  verify_bridge_invariant_iff :
      (o : PreflightOptions) → (length (warning_of (verify_bridge_invariant d o)) ≡ 0) ↔ IsBridged o
  unfolding verify_bridge_invariant
  verify_bridge_invariant_iff o =
      guarded_iff (o.platform == units "win32") (d.exists_sync (bundle_path d o))
        (d.read_file_sync (bundle_path d o))

  manifest_read_iff :
      (path : Text) (read : Option Text)
      → (length (warning_of (contents_warning d path read)) ≡ 0) ↔ (
          (contents version cli : Text) × (read ≡ some contents)
          × (is_blank contents ≡ false)
          × (d.parse contents ≡ some (object (some version) (some cli)))
          × (is_blank version ≡ false)
          × (is_blank cli ≡ false))
  manifest_read_iff path none = (
    (λ h. absurd (omega (arith, h))),
    λ (contents, version, cli, e, k, parsed, fv, fc). absurd (cc e),
  )
  manifest_read_iff path (some read) = elim (Bool-cases (is_blank read)) [
    | inl blank ↦ rw blank (
      (λ h. absurd (omega (arith, h))),
      λ (contents, version, cli, e, filled, parsed, fv, fc).
          absurd (cc (subst (λ t. is_blank t ≡ false) (sym (some_inj e)) filled, blank)),
    )
    | inr filled ↦ rw filled (
      λ h.
          let (version, cli, parsed, a, b) = (json_warning_iff path (d.parse read)).0 h in
          (read, version, cli, refl, filled, parsed, a, b),
      λ (contents, version, cli, e, k, parsed, a, b). (json_warning_iff path (d.parse read)).1 (
        version,
        cli,
        subst (λ t. d.parse t ≡ some (object (some version) (some cli))) (sym (some_inj e)) parsed,
        a,
        b,
      ),
    )
  ]

  verify_manifest_invariant_iff :
      (o : PreflightOptions)
      → d.exists_sync (manifest_path d o) ≡ true
      → (length (warning_of (verify_manifest_invariant d o)) ≡ 0) ↔ HasManifest o
  unfolding verify_manifest_invariant
  verify_manifest_invariant_iff o there =
      rw there (manifest_read_iff (manifest_path d o) (d.read_file_sync (manifest_path d o)))

  critical_paths-manifest :
      (o : PreflightOptions)
      → All IsPresent (critical_paths d o)
      → d.exists_sync (manifest_path d o) ≡ true
  unfolding critical_paths
  critical_paths-manifest o all = all.0.0

  -- The layout is ok exactly if every critical path is there and none is a directory that is empty
  -- or cannot be read, if on Windows a bundle of the directory picker that is there and can be read
  -- has the four marks of the bridge, and if the manifest is an object with a version and a command
  -- that are not blank.
  pub verify_harness_layout_iff :
      (o : PreflightOptions)
      → ((verify_harness_layout d o).ok ≡ true)
        ↔ (All IsPresent (critical_paths d o) × IsBridged o × HasManifest o)
  unfolding verify_harness_layout
  verify_harness_layout_iff o =
      let bridge = verify_bridge_invariant d o in
      let manifest = verify_manifest_invariant d o in
      let split = length-append (warning_of bridge) (warning_of manifest) in
      let empty =
        both_zero_iff (length (missing_of d (critical_paths d o)))
          (length (warning_of bridge ++ warning_of manifest)) in
      (
        λ ok.
            let (none_missing, no_warnings) = empty.0 ok in
            let present = (missing_of_iff (critical_paths d o)).0 none_missing in
            (
              present,
              (verify_bridge_invariant_iff o).0 (omega (arith, split, no_warnings)),
              (verify_manifest_invariant_iff o (critical_paths-manifest o present)).0
                  (omega (arith, split, no_warnings)),
            ),
        λ (present, bridged, described). empty.1 (
          (missing_of_iff (critical_paths d o)).1 present,
          omega (
            arith,
            split,
            (verify_bridge_invariant_iff o).1 bridged,
            (verify_manifest_invariant_iff o (critical_paths-manifest o present)).1 described,
          ),
        ),
      )
