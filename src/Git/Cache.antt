-- ===== src/Git/Cache.antt =====
-- apps/shell/src/git/git-resolver.ts: what a resolved git is, and what the cache keeps.
use mathlib.Core.List.{append_assoc}
use deepseek_harness.Common.{
  ◌⊎◌, Text, text_eq, text_beq_iff, ◌∙◌, Option, none, some, ◌∷◌, ◌++◌, ◌≡◌, refl, ap, sym, subst,
  inl, inr, Option-cases, nat_eq, All,
}
use deepseek_harness.Common.JsMap.{get, set, get-set}
use deepseek_harness.Common.JsMap.Entries.{set-All, get-All}
use deepseek_harness.Git.Resolver.{
  Host, GitResolveResult, GitOptions, Cache, cache_key, search_git, keep, resolve_git_path,
}
use deepseek_harness.Git.Found.{
  IsGit, IsFound, IsPreferred, search_git-IsFound, search_git-IsPreferred,
}

-- Every entry is a git of some host, as it was when the entry was made.
abbrev pub IsCache : (GitResolveResult → Type 0) → Cache → Type 0
IsCache P cache = All (λ entry. P entry.1) cache

resolve_hit :
    (h : Host) (cache : Cache) (o : GitOptions) (r : GitResolveResult)
    → get (cache_key o) cache ≡ some r
    → resolve_git_path h cache o ≡ (some r, cache)
unfolding resolve_git_path
resolve_hit h cache o r hit = rw (hit, resolve_git_path) refl

resolve_miss :
    (h : Host) (cache : Cache) (o : GitOptions)
    → get (cache_key o) cache ≡ none
    → resolve_git_path h cache o ≡ keep cache (cache_key o) (search_git h o)
unfolding resolve_git_path
resolve_miss h cache o miss = rw (miss, resolve_git_path) refl

get-set_self : (k : Text) (r : GitResolveResult) (cache : Cache) → get k (set k r cache) ≡ some r
get-set_self k r cache = get-set k k r cache ∙ rw ((text_beq_iff k k).1 refl) refl

-- What a call comes to, with the cache after it. A git that is found is the one of an entry for the
-- options, or one that the host has now.
abbrev pub Resolved :
    (GitResolveResult → Type 0)
    → Host
    → Cache
    → GitOptions
    → Option GitResolveResult × Cache
    → Type 0
Resolved P h cache o (none, after) = after ≡ cache
Resolved P h cache o (some r, after) =
    P r
    × IsCache P after
    × ((get (cache_key o) cache ≡ some r)
        ⊎ ((get (cache_key o) cache ≡ none) × IsGit h r × IsPreferred h o r))
    × ((later : Host) → resolve_git_path later after o ≡ (some r, after))

by_search :
    (P : GitResolveResult → Type 0) (h : Host) (cache : Cache) (o : GitOptions)
    (git : Option GitResolveResult)
    → ((r : GitResolveResult) → IsGit h r → P r)
    → IsCache P cache
    → get (cache_key o) cache ≡ none
    → search_git h o ≡ git
    → Resolved P h cache o (keep cache (cache_key o) git)
by_search P h cache o none new old miss e = refl
by_search P h cache o (some r) new old miss e =
    let good : IsGit h r = subst (IsFound h) e (search_git-IsFound h o) in
    (
      new r good,
      set-All (λ entry. P entry.1) (cache_key o) r cache (new r good) old,
      inr (miss, good, search_git-IsPreferred h o r e),
      λ later.
          resolve_hit later (set (cache_key o) r cache) o r (get-set_self (cache_key o) r cache),
    )

-- What the code finds when the options have no entry in the cache is there: run with `--version`
-- it ends with status 0 and prints the version that is given. It is the git that comes with the
-- program where that one runs, and one of the common places only on Windows without a search path of
-- the caller's. Else it is the entry. What all entries of the cache and all gits of the host satisfy,
-- the answer satisfies, and the cache after it; the same call answers alike from then on, on any
-- host, and changes nothing; and a call that throws leaves the cache alone.
pub resolve_git_path_lem :
    (P : GitResolveResult → Type 0) (h : Host) (cache : Cache) (o : GitOptions)
    → ((r : GitResolveResult) → IsGit h r → P r)
    → IsCache P cache
    → Resolved P h cache o (resolve_git_path h cache o)
resolve_git_path_lem P h cache o new old = elim (Option-cases (get (cache_key o) cache)) [
  | inl miss ↦
      subst (Resolved P h cache o) (sym (resolve_miss h cache o miss))
        (by_search P h cache o (search_git h o) new old miss refl)
  | inr (r, hit) ↦ subst (Resolved P h cache o) (sym (resolve_hit h cache o r hit)) (
    get-All (λ entry. P entry.1) (cache_key o) cache old hit,
    old,
    inl hit,
    λ later. resolve_hit later cache o r hit,
  )
]

resolve-kept :
    (h : Host) (cache : Cache) (o : GitOptions) (r : GitResolveResult)
    → (resolve_git_path h cache o).0 ≡ some r
    → get (cache_key o) (resolve_git_path h cache o).1 ≡ some r
resolve-kept h cache o r e = elim (Option-cases (get (cache_key o) cache)) [
  | inr (q, hit) ↦ let ran = resolve_hit h cache o q hit in rw ran (hit ∙ cc (rw ran at e))
  | inl miss ↦ elim (Option-cases (search_git h o)) [
    | inl absent ↦
        let ran = resolve_miss h cache o miss ∙ ap (keep cache (cache_key o)) absent in
        absurd (cc (rw ran at e))
    | inr (q, found) ↦
        let ran = resolve_miss h cache o miss ∙ ap (keep cache (cache_key o)) found in
        rw ran (get-set_self (cache_key o) q cache ∙ cc (rw ran at e))
  ]
]

-- A call with a colon in the resources directory, as in every path of Windows, is mistaken for a call
-- with the part before the colon as the directory and the rest before the override: that one is
-- answered from the cache with the git of the first, whatever is on its host.
cache_keys_collide :
    (h later : Host) (cache : Cache) (drive rest override : Text) (r : GitResolveResult)
    → (resolve_git_path h cache (record {
      packaged_resources_dir = some (drive ++ (58 ∷ rest));
      path_override = some override;
    })).0
      ≡ some r
    → (resolve_git_path later
        (resolve_git_path h cache (record {
          packaged_resources_dir = some (drive ++ (58 ∷ rest));
          path_override = some override;
        })).1
        (record {
          packaged_resources_dir = some drive;
          path_override = some (rest ++ (58 ∷ override));
        })).0
      ≡ some r
cache_keys_collide h later cache drive rest override r e =
    let o : GitOptions = record {
      packaged_resources_dir = some (drive ++ (58 ∷ rest));
      path_override = some override;
    } in
    let other : GitOptions = record {
      packaged_resources_dir = some drive;
      path_override = some (rest ++ (58 ∷ override));
    } in
    let same : cache_key o ≡ cache_key other =
      unfold cache_key in append_assoc drive (58 ∷ rest) (58 ∷ override) in
    let kept = resolve-kept h cache o r e in
    ap (λ out. out.0)
      (resolve_hit later (resolve_git_path h cache o).1 other r
        (subst (λ k. get k (resolve_git_path h cache o).1 ≡ some r) same kept))
