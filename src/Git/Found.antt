-- ===== src/Git/Found.antt =====
-- apps/shell/src/git/git-resolver.ts: what the search for a git finds, and which git it prefers.
use deepseek_harness.Common.{
  ℕ, ◌≢◌, ◌==◌, nat_beq_iff, Text, text_eq, ◌∙◌, Bool, true, false, Option, none, some, List, [],
  ◌∷◌, ◌≡◌, refl, ap, sym, subst, inl, inr, Bool-cases, Option-cases, nat_eq, if◌then◌else◌,
}
use deepseek_harness.Supervisor.Output.{units}
use deepseek_harness.Update.Version.{trim}
use deepseek_harness.Git.Resolver.{
  SpawnResult, throws, ran, version_printed, non_empty_text, Host, GitResolveResult, GitOptions,
  GitSource, packaged, system_path, system_absolute, git_version, find_in_path, first_existing,
  answer, packaged_git, found_git, system_git, first_common, common_git, search_git, or_result,
  common_paths,
}

-- The file is there, and run with `--version` it ends with status 0 and prints the version.
abbrev pub Runs : Host → Text → Text → Type 0
Runs h git version =
    (h.exists_sync git ≡ true)
    × (version ≢ [])
    × ((out : Text) × (stderr : Option Text) × (h.spawn_sync git (units "--version" ∷ []) none
          ≡ ran (some 0) (some out) stderr)
        × (trim out ≡ version))

-- A git that the host has, with the version that it prints.
abbrev pub IsGit : Host → GitResolveResult → Type 0
IsGit h r = Runs h r.path r.version

non_empty-eq : (text t : Text) → non_empty_text text ≡ some t → (text ≡ t) × (t ≢ [])
non_empty-eq [] t e = absurd (cc e)
non_empty-eq (c ∷ cs) t e = let same : c ∷ cs ≡ t = cc e in (same, λ k. absurd (cc (same, k)))

version_printed_sound :
    (r : SpawnResult) (version : Text)
    → version_printed r ≡ some version
    → (version ≢ [])
      × ((out : Text) × (stderr : Option Text) × (r ≡ ran (some 0) (some out) stderr)
          × (trim out ≡ version))
version_printed_sound (throws message) version e = absurd (cc e)
version_printed_sound (ran none out stderr) version e = absurd (cc e)
version_printed_sound (ran (some status) none stderr) version e = absurd (cc e)
version_printed_sound (ran (some status) (some out) stderr) version e =
    elim (Bool-cases (status == 0)) [
      | inl ok ↦
          let (same, some_text) = non_empty-eq (trim out) version (rw ok at e) in
          let zero_status : status ≡ 0 = (nat_beq_iff status 0).0 ok in
          (some_text, (out, stderr, ap (λ n. ran (some n) (some out) stderr) zero_status, same))
      | inr failed ↦ absurd (cc (rw failed at e))
    ]

git_version-Runs :
    (h : Host) (git version : Text)
    → h.exists_sync git ≡ true
    → git_version h git ≡ some version
    → Runs h git version
git_version-Runs h git version here e =
    let (some_text, out) =
      version_printed_sound (h.spawn_sync git (units "--version" ∷ []) none) version e in
    (here, some_text, out)

Runs-git_version :
    (h : Host) (git version : Text) → Runs h git version → git_version h git ≡ some version
Runs-git_version h git [] (here, n, e) = absurd (n refl)
Runs-git_version h git (c ∷ cs) (here, n, (out, stderr, r, t)) =
    ap version_printed r ∙ ap non_empty_text t

abbrev pub IsFound : Host → Option GitResolveResult → Type 0
IsFound h none = Unit
IsFound h (some r) = IsGit h r

answer-IsFound :
    (h : Host) (source : GitSource) (git : Text) (o : Option Text)
    → h.exists_sync git ≡ true
    → git_version h git ≡ o
    → IsFound h (answer source git o)
answer-IsFound h source git none e k = tt
answer-IsFound h source git (some version) e k = git_version-Runs h git version e k

or_result-IsFound :
    (h : Host) (a b : Option GitResolveResult)
    → IsFound h a
    → IsFound h b
    → IsFound h (or_result a b)
or_result-IsFound h none b f g = g
or_result-IsFound h (some a) b f g = f

if_exists-IsFound :
    (h : Host) (source : GitSource) (git : Text)
    → IsFound h (if h.exists_sync git then answer source git (git_version h git) else none)
if_exists-IsFound h source git = elim (Bool-cases (h.exists_sync git)) [
  | inl here ↦ rw here (answer-IsFound h source git (git_version h git) here refl)
  | inr absent ↦ rw absent tt
]

packaged_git-IsFound : (h : Host) (dir : Option Text) → IsFound h (packaged_git h dir)
packaged_git-IsFound h none = tt
packaged_git-IsFound h (some []) = tt
packaged_git-IsFound h (some (c ∷ cs)) = if_exists-IsFound h packaged _

first_existing_sound :
    (h : Host) (candidates : List Text) {git : Text}
    → first_existing h candidates ≡ some git
    → h.exists_sync git ≡ true
first_existing_sound h [] e = absurd (cc e)
first_existing_sound h (c ∷ cs) {git} e = elim (Bool-cases (h.exists_sync c)) [
  | inl here ↦ subst (λ g. h.exists_sync g ≡ true) (cc (rw here at e)) here
  | inr absent ↦ first_existing_sound h cs (rw absent at e)
]

found_git-IsFound :
    (h : Host) (override o : Option Text)
    → find_in_path h (units "git") override ≡ o
    → IsFound h (found_git h o)
found_git-IsFound h override none e = tt
found_git-IsFound h override (some []) e = tt
found_git-IsFound h override (some (c ∷ cs)) e =
    answer-IsFound h system_path (c ∷ cs) (git_version h (c ∷ cs)) (first_existing_sound h _ e) refl

system_git-IsFound : (h : Host) (override : Option Text) → IsFound h (system_git h override)
system_git-IsFound h none = found_git-IsFound h none _ refl
system_git-IsFound h (some []) = tt
system_git-IsFound h (some (c ∷ cs)) = found_git-IsFound h (some (c ∷ cs)) _ refl

first_common-IsFound : (h : Host) (gits : List Text) → IsFound h (first_common h gits)
first_common-IsFound h [] = tt
first_common-IsFound h (git ∷ rest) =
    or_result-IsFound h _ _ (if_exists-IsFound h system_absolute git) (first_common-IsFound h rest)

if_else_none-IsFound :
    (h : Host) (b : Bool) (r : Option GitResolveResult)
    → IsFound h r
    → IsFound h (if b then r else none)
if_else_none-IsFound h true r f = f
if_else_none-IsFound h false r f = tt

common_git-IsFound : (h : Host) (override : Option Text) → IsFound h (common_git h override)
common_git-IsFound h (some o) = tt
common_git-IsFound h none =
    if_else_none-IsFound h h.win32 _ (first_common-IsFound h (common_paths h))

pub search_git-IsFound : (h : Host) (o : GitOptions) → IsFound h (search_git h o)
unfolding search_git
search_git-IsFound h o = or_result-IsFound h _ _ (packaged_git-IsFound h o.packaged_resources_dir) (
    or_result-IsFound h _ _ (system_git-IsFound h o.path_override)
      (common_git-IsFound h o.path_override))

-- The git that comes with the program is taken where it runs; a git in one of the common places only
-- on Windows and without a search path of the caller's.
abbrev pub IsPreferred : Host → GitOptions → GitResolveResult → Type 0
IsPreferred h o r =
    ((c : ℕ) (cs version : Text)
      → o.packaged_resources_dir ≡ some (c ∷ cs)
      → Runs h (h.join ((c ∷ cs) ∷ units "freecode" ∷ units "git" ∷ units "git.exe" ∷ [])) version
      → (r.source ≡ packaged)
        × (r.path ≡ h.join ((c ∷ cs) ∷ units "freecode" ∷ units "git" ∷ units "git.exe" ∷ []))
        × (r.version ≡ version))
    × (r.source ≡ system_absolute → (o.path_override ≡ none) × (h.win32 ≡ true))

packaged_git-Runs :
    (h : Host) (c : ℕ) (cs version : Text)
    → Runs h (h.join ((c ∷ cs) ∷ units "freecode" ∷ units "git" ∷ units "git.exe" ∷ [])) version
    → packaged_git h (some (c ∷ cs))
      ≡ some (record {
        path = h.join ((c ∷ cs) ∷ units "freecode" ∷ units "git" ∷ units "git.exe" ∷ []);
        version = version;
        source = packaged;
      })
packaged_git-Runs h c cs version runs =
    let git = h.join ((c ∷ cs) ∷ units "freecode" ∷ units "git" ∷ units "git.exe" ∷ []) in
    rw runs.0 (ap (answer packaged git) (Runs-git_version h git version runs))

answer-source :
    (source : GitSource) (git : Text) (o : Option Text) (r : GitResolveResult)
    → answer source git o ≡ some r
    → r.source ≡ source
answer-source source git none r e = absurd (cc e)
answer-source source git (some version) r e =
    ap (λ o. elim o [ none ↦ source | some q ↦ q.source ]) (sym e)

packaged_git-source :
    (h : Host) (dir : Option Text) (r : GitResolveResult)
    → packaged_git h dir ≡ some r
    → r.source ≡ packaged
packaged_git-source h none r e = absurd (cc e)
packaged_git-source h (some []) r e = absurd (cc e)
packaged_git-source h (some (c ∷ cs)) r e =
    let git = h.join ((c ∷ cs) ∷ units "freecode" ∷ units "git" ∷ units "git.exe" ∷ []) in
    elim (Bool-cases (h.exists_sync git)) [
      | inl here ↦ answer-source packaged git (git_version h git) r (rw here at e)
      | inr absent ↦ absurd (cc (rw absent at e))
    ]

found_git-source :
    (h : Host) (o : Option Text) (r : GitResolveResult)
    → found_git h o ≡ some r
    → r.source ≡ system_path
found_git-source h none r e = absurd (cc e)
found_git-source h (some []) r e = absurd (cc e)
found_git-source h (some (c ∷ cs)) r e =
    answer-source system_path (c ∷ cs) (git_version h (c ∷ cs)) r e

system_git-source :
    (h : Host) (override : Option Text) (r : GitResolveResult)
    → system_git h override ≡ some r
    → r.source ≡ system_path
system_git-source h none r e = found_git-source h (find_in_path h (units "git") none) r e
system_git-source h (some []) r e = absurd (cc e)
system_git-source h (some (c ∷ cs)) r e =
    found_git-source h (find_in_path h (units "git") (some (c ∷ cs))) r e

common_git_windows :
    (h : Host) (override : Option Text) (r : GitResolveResult)
    → common_git h override ≡ some r
    → (override ≡ none) × (h.win32 ≡ true)
common_git_windows h (some override) r e = absurd (cc e)
common_git_windows h none r e = elim (Bool-cases h.win32) [
  | inl windows ↦ (refl, windows)
  | inr other ↦ absurd (cc (rw other at e))
]

pub search_git-IsPreferred :
    (h : Host) (o : GitOptions) (r : GitResolveResult) → search_git h o ≡ some r → IsPreferred h o r
unfolding search_git
search_git-IsPreferred h o r e = (
  λ c cs version dir runs.
      let first = ap (packaged_git h) dir ∙ packaged_git-Runs h c cs version runs in
      let same = sym (rw first at e) in
      (
        ap (λ p. elim p [ none ↦ packaged | some q ↦ q.source ]) same,
        ap (λ p. elim p [ none ↦ r.path | some q ↦ q.path ]) same,
        ap (λ p. elim p [ none ↦ r.version | some q ↦ q.version ]) same,
      ),
  λ absolute. elim (Option-cases (packaged_git h o.packaged_resources_dir)) [
    | inr (q, found) ↦
        absurd (
          cc (absolute, packaged_git-source h o.packaged_resources_dir r (found ∙ (rw found at e))))
    | inl missed ↦ elim (Option-cases (system_git h o.path_override)) [
      | inr (q, found) ↦
          absurd (
            cc
              (absolute, system_git-source h o.path_override r (found ∙ (rw (missed, found) at e))))
      | inl also ↦ common_git_windows h o.path_override r (rw (missed, also) at e)
    ]
  ],
)
