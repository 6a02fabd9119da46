-- ===== src/Workspace/Roots.antt =====
-- packages/workspace-bridge/src/bridge.ts: which chats are of a folder.
use mathlib.Core.List.{append-nil}
use deepseek_harness.Common.{
  Text, text_eq, true, Option, none, some, [], ◌∷◌, ◌≡◌, ◌⊎◌, inl, inr, refl, arith, sym, ◌∙◌,
  Bool-cases, Option-cases, nat_eq, text_beq_iff, not, ◌++◌, ◌≢◌, subst,
}
use deepseek_harness.Supervisor.Output.{strip}
use deepseek_harness.Policy.Reasoning.{starts_with}
use deepseek_harness.Mcp.Search.{strip-append, strip_sound}
use deepseek_harness.Workspace.Folder.{
  ImportableChat, is_of_folder, norm, roots_match, matches_root,
}

-- Of two folders one is the other, or above it.
abbrev pub Related : Text → Text → Type 0
Related a b = (rest : Text) × ((b ≡ a ++ rest) ⊎ (a ≡ b ++ rest))

-- The chat has a workspace, which is the folder, below it or above it.
abbrev pub IsOfFolder : Text → ImportableChat → Type 0
IsOfFolder folder c =
    (root : Text) × (c.workspace_root ≡ some root) × (root ≢ []) × Related (norm folder) (norm root)

starts_with_sound : (p t : Text) → starts_with p t ≡ true → (rest : Text) × (t ≡ p ++ rest)
starts_with_sound p t h = elim (Option-cases (strip p t)) [
  | inl missed ↦ absurd (cc (rw (missed, starts_with) at h))
  | inr (rest, hit) ↦ (rest, strip_sound p t rest hit)
]

starts_with-append : (p rest : Text) → starts_with p (p ++ rest) ≡ true
starts_with-append p rest = rw (strip-append p rest, starts_with) refl

roots_match-Related : (target root : Text) → roots_match target root ≡ true → Related target root
roots_match-Related target root h = elim (Bool-cases (starts_with root target)) [
  | inl below ↦ let (rest, e) = starts_with_sound root target below in (rest, inr e)
  | inr missed ↦ elim (Bool-cases (starts_with target root)) [
    | inl above ↦ let (rest, e) = starts_with_sound target root above in (rest, inl e)
    | inr none_of ↦
        let same : root ≡ target = ground (arith, text_beq_iff root target) in
        ([], inl (same ∙ sym (append-nil target)))
  ]
]

Related-roots_match : (target root : Text) → Related target root → roots_match target root ≡ true
Related-roots_match target root (rest, inl e) =
    let hit : starts_with target root ≡ true =
      subst (λ t. starts_with target t ≡ true) (sym e) (starts_with-append target rest) in
    ground arith
Related-roots_match target root (rest, inr e) =
    let hit : starts_with root target ≡ true =
      subst (λ t. starts_with root t ≡ true) (sym e) (starts_with-append root rest) in
    ground arith

matches_root_sound :
    (target : Text) (o : Option Text)
    → matches_root target o ≡ true
    → (root : Text) × (o ≡ some root) × (root ≢ []) × Related target (norm root)
matches_root_sound target none h = absurd (cc h)
matches_root_sound target (some []) h = absurd (cc h)
matches_root_sound target (some (c ∷ root)) h =
    (c ∷ root, refl, (λ e. absurd (cc e)), roots_match-Related target (norm (c ∷ root)) h)

matches_root_complete :
    (target root : Text)
    → root ≢ []
    → Related target (norm root)
    → matches_root target (some root) ≡ true
matches_root_complete target [] n r = absurd (n refl)
matches_root_complete target (c ∷ root) n r = Related-roots_match target (norm (c ∷ root)) r

pub is_of_folder-IsOfFolder :
    (folder : Text) (c : ImportableChat) → is_of_folder folder c ≡ true → IsOfFolder folder c
is_of_folder-IsOfFolder folder c h = matches_root_sound (norm folder) c.workspace_root h

pub not-IsOfFolder :
    (folder : Text) (c : ImportableChat)
    → not (is_of_folder folder c) ≡ true
    → ¬ IsOfFolder folder c
not-IsOfFolder folder c h (root, e, n, r) =
    let hit : is_of_folder folder c ≡ true =
      subst (λ o. matches_root (norm folder) o ≡ true) (sym e)
        (matches_root_complete (norm folder) root n r) in
    cc (rw hit at h)
