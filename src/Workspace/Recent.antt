-- ===== src/Workspace/Recent.antt =====
-- packages/workspace-bridge/src/bridge.ts: the chats that are found are the latest ones of the folder.
use mathlib.Core.List.{Perm, append_assoc}
use mathlib.Core.List.Perm
use deepseek_harness.Common.{
  Text, text_eq, ℕ, ◌≤◌, Option, none, some, List, [], ◌∷◌, ◌≡◌, ◌⊎◌, inl, inr, refl, arith, sym,
  ap, ◌∙◌, filter, take, map, length, All, nat_eq, not, ◌++◌, length-take, filter-All, subst,
}
use deepseek_harness.Common.JsMap.Entries.{All-mono}
use deepseek_harness.Workspace.Folder.{
  ImportableChat, InterchangeChat, CandidateChat, is_of_folder, sort_recent, recent_chats, put_chat,
  read_chats, find_chats_for_folder,
}
use deepseek_harness.Workspace.Sorted.{
  IsSorted, sort_recent-IsSorted, sort_recent-All, take-All, take-IsSorted, sort_recent-Perm,
  filter-Perm, NoPlace, take-NoPlace, All-append,
}
use deepseek_harness.Workspace.Roots.{IsOfFolder, is_of_folder-IsOfFolder, not-IsOfFolder}

candidates_inj : {x y : List CandidateChat} → some x ≡ some y → x ≡ y
candidates_inj e = cc e

put_chat-entries :
    (c : ImportableChat) (read : Option InterchangeChat) (later : Option (List CandidateChat))
    (cs : List ImportableChat) (out : List CandidateChat)
    → ((rest : List CandidateChat) → later ≡ some rest → map (λ d. d.entry) rest ≡ cs)
    → put_chat c read later ≡ some out
    → map (λ d. d.entry) out ≡ c ∷ cs
put_chat-entries c none later cs out h e = absurd (cc e)
put_chat-entries c (some chat) none cs out h e = absurd (cc e)
put_chat-entries c (some chat) (some rest) cs out h e =
    ap (map (λ d. d.entry)) (sym (candidates_inj e)) ∙ ap (λ ds. c ∷ ds) (h rest refl)

read_chats-entries :
    (read : Text → Option InterchangeChat) (cs : List ImportableChat) (out : List CandidateChat)
    → read_chats read cs ≡ some out
    → map (λ d. d.entry) out ≡ cs
unfolding read_chats
read_chats-entries read [] out e = ap (map (λ d. d.entry)) (sym (candidates_inj e))
read_chats-entries read (c ∷ cs) out e =
    put_chat-entries c (read c.id) (read_chats read cs) cs out (read_chats-entries read cs) e

-- The latest chats of a folder: all are of the folder, each is as late as the next, there are at most as
-- many as the limit, and the listed chats are these and others, which are not of the folder, or for which a
-- full list has no place.
abbrev pub IsRecent : Text → ℕ → List ImportableChat → List ImportableChat → Type 0
IsRecent folder limit all found =
    (length found ≤ limit)
    × All (IsOfFolder folder) found
    × IsSorted found
    × ((others : List ImportableChat) × Perm (found ++ others) all
        × All (λ d. NoPlace limit found d ⊎ (¬ IsOfFolder folder d)) others)

recent_chats-IsRecent :
    (all : List ImportableChat) (folder : Text) (limit : ℕ)
    → IsRecent folder limit all (recent_chats all folder limit)
unfolding recent_chats
recent_chats-IsRecent all folder limit =
    let here = is_of_folder folder in
    let matched = filter here all in
    let gone = filter (λ c. not (here c)) all in
    let sorted = sort_recent matched in
    let is_sorted = sort_recent-IsSorted matched in
    let found = take limit sorted in
    let (rest, whole, places) = take-NoPlace limit sorted is_sorted in
    let kept : Perm (found ++ (rest ++ gone)) all =
      subst (λ cs. Perm cs all) (ap (λ cs. cs ++ gone) (sym whole) ∙ append_assoc found rest gone)
        (Perm.trans (Perm.append_right gone (sort_recent-Perm matched)) (filter-Perm here all)) in
    (
      omega (arith, length-take limit sorted),
      take-All (IsOfFolder folder) limit sorted (
          sort_recent-All (IsOfFolder folder) matched
            (All-mono matched (is_of_folder-IsOfFolder folder) (filter-All here all))),
      take-IsSorted limit sorted is_sorted,
      (
        rest ++ gone,
        kept,
        All-append _ rest gone (All-mono rest (λ d. inl) places) (
            All-mono gone (λ d h. inr (not-IsOfFolder folder d h))
              (filter-All (λ c. not (here c)) all)),
      ),
    )

-- What `findChatsForFolder` gives, if the importer can list the chats and read those that are
-- wanted: the chats are some of those that are listed, each as often as it is listed at most; there are
-- at most as many as the limit; the workspace of each is the folder, below it or above it; each is as
-- late as the next; and a listed chat that is not given is not of the folder, or there are as many as
-- the limit and none of them is earlier.
pub find_chats_for_folder-IsRecent :
    (read : Text → Option InterchangeChat) (all : List ImportableChat) (folder : Text) (limit : ℕ)
    (out : List CandidateChat)
    → find_chats_for_folder read (some all) folder (some limit) ≡ some out
    → IsRecent folder limit all (map (λ c. c.entry) out)
unfolding find_chats_for_folder
find_chats_for_folder-IsRecent read all folder limit out e =
    subst (IsRecent folder limit all)
      (sym (read_chats-entries read (recent_chats all folder limit) out e))
      (recent_chats-IsRecent all folder limit)
