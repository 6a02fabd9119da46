-- ===== src/Update/Names.antt =====
-- apps/shell/src/main/harness-updater.ts: the version is read back from the name of an asset.
use mathlib.Core.List.{reverse-append, reverse-reverse, reverse-cons, append_assoc}
use deepseek_harness.Common.{
  Text, ℕ, Bool, true, false, not, ◌&&◌, some, [], ◌∷◌, ◌++◌, every, reverse, ◌≡◌, ◌≢◌, refl, sym,
  nat_eq, text_eq, Bool-cases, inl, inr, nat_beq_iff, arith, ◌∙◌, ap, ◌==◌,
}
use deepseek_harness.Supervisor.Output.{units, strip, span}
use deepseek_harness.Policy.Reasoning.{is_line_end}
use deepseek_harness.Update.Check.{
  harness_platform, harness_asset_name, version_of_name, name_start, name_end, is_no_dash, take_run,
  version_part, ◌>>=◌,
}

strip-append : (p x : Text) → strip p (p ++ x) ≡ some x
strip-append [] x = refl
strip-append (c ∷ p) x = rw ((nat_beq_iff c c).1 refl) (strip-append p x)

every-append : (p : ℕ → Bool) (xs ys : Text) → every p (xs ++ ys) ≡ (every p xs && every p ys)
every-append p [] ys = refl
every-append p (x ∷ xs) ys = ground (arith, every-append p xs ys)

every-reverse : (p : ℕ → Bool) (xs : Text) → every p xs ≡ true → every p (reverse xs) ≡ true
every-reverse p [] h = refl
every-reverse p (x ∷ xs) h = ground (
  arith,
  every-reverse p xs,
  ap (every p) (reverse-append (x ∷ []) xs),
  every-append p (reverse xs) (x ∷ []),
)

span-append :
    (p : ℕ → Bool) (xs : Text) (c : ℕ) (rest : Text)
    → every p xs ≡ true
    → p c ≡ false
    → span p (xs ++ (c ∷ rest)) ≡ (xs, c ∷ rest)
span-append p [] c rest h k = rw k refl
span-append p (x ∷ xs) c rest h k = ground (arith, span-append p xs c rest)

-- A part of a name: not empty, and without a dash.
abbrev pub IsWord : Text → Type 0
IsWord text = (text ≢ []) × (every is_no_dash text ≡ true)

reverse-IsWord : (text : Text) → IsWord text → IsWord (reverse text)
reverse-IsWord text w = (
  λ empty. w.0 (sym (reverse-reverse text) ∙ ap reverse empty),
  every-reverse is_no_dash text w.1,
)

take_run-append : (word rest : Text) → IsWord word → take_run (word ++ (45 ∷ rest)) ≡ some rest
take_run-append [] rest w = absurd (w.0 refl)
take_run-append (c ∷ cs) rest w = rw (span-append is_no_dash (c ∷ cs) 45 rest w.1 refl) refl

reverse_name :
    (start version platform arch end : Text)
    → reverse (start ++ (version ++ (45 ∷ (platform ++ (45 ∷ (arch ++ end))))))
      ≡ reverse end
        ++ (reverse arch ++ (45 ∷ (reverse platform ++ (45 ∷ reverse (start ++ version)))))
reverse_name start version platform arch end = simp (reverse-append, reverse-cons, append_assoc)

version_part_lem :
    (version : Text)
    → version ≢ []
    → every (λ u. not (is_line_end u)) version ≡ true
    → version_part version ≡ some version
version_part_lem [] h k = absurd (h refl)
version_part_lem (c ∷ cs) h k = rw k refl

read_back :
    (first version platform arch last : Text)
    → version ≢ []
    → every (λ u. not (is_line_end u)) version ≡ true
    → IsWord platform
    → IsWord arch
    → (do
      back ←
          strip
            (reverse last)
            (reverse (first ++ (version ++ (45 ∷ (platform ++ (45 ∷ (arch ++ last)))))))
      rest ← take_run back
      start ← take_run rest
      named ← strip first (reverse start)
      version_part named)
      ≡ some version
read_back first version platform arch last h k p a =
    let start = reverse (first ++ version) in
    let inner = reverse platform ++ (45 ∷ start) in
    rw (reverse_name first version platform arch last) (
      rw (strip-append (reverse last) (reverse arch ++ (45 ∷ inner))) (
        rw (take_run-append (reverse arch) inner (reverse-IsWord arch a)) (
          rw (take_run-append (reverse platform) start (reverse-IsWord platform p)) (
            rw (reverse-reverse (first ++ version))
              (rw (strip-append first version) (version_part_lem version h k))))))

harness_platform-IsWord : (platform : Text) → IsWord (harness_platform platform)
unfolding harness_platform
harness_platform-IsWord platform = elim (Bool-cases (platform == units "win32")) [
  | inl win ↦ rw win ((λ e. absurd (cc e)), refl)
  | inr not_win ↦ elim (Bool-cases (platform == units "darwin")) [
    | inl mac ↦ rw (not_win, mac) ((λ e. absurd (cc e)), refl)
    | inr other ↦ rw (not_win, other) ((λ e. absurd (cc e)), refl)
  ]
]

-- The version of an asset's name is the one that the name was made of, on every platform, for a version
-- of one line and an architecture without a dash.
version_of_name-harness_asset_name :
    (version platform arch : Text)
    → version ≢ []
    → every (λ u. not (is_line_end u)) version ≡ true
    → IsWord arch
    → version_of_name (harness_asset_name version platform arch) ≡ some version
unfolding version_of_name harness_asset_name
version_of_name-harness_asset_name version platform arch h k =
    read_back name_start version (harness_platform platform) arch name_end h k
      (harness_platform-IsWord platform)
