-- ===== src/Workspace/Folder.antt =====
-- packages/workspace-bridge/src/bridge.ts: `findChatsForFolder`. Times are natural numbers; the sort is
-- the stable one that JavaScript has.
use deepseek_harness.Common.{
  Text, text_eq, ℕ, Bool, false, not, ◌||◌, Option, none, some, List, [], ◌∷◌, ◌++◌, map, filter,
  take, reverse, leb, length, ◌==◌, nat_eq, if◌then◌else◌,
}
use deepseek_harness.Supervisor.Output.{units}
use deepseek_harness.Policy.Reasoning.{starts_with}
use deepseek_harness.Update.Version.{trim}
use deepseek_harness.Models.Probe.{strip_slashes}

-- The members of packages/shared-types/src/chat.ts that are used.
pub data ContentPart : Type 0 where
  text tool : Text → ContentPart

pub data Content : Type 0 where
  plain : Text → Content
  parts : List ContentPart → Content

pub record ChatMessage : Type 0 where
  pub role : Text
  pub content : Content

pub record InterchangeChat : Type 0 where
  pub source_agent : Text
  pub title : Text
  pub updated_at : ℕ
  pub model : Option (Text × Text)
  pub messages : List ChatMessage

pub record ImportableChat : Type 0 where
  pub id : Text
  pub title : Text
  pub updated_at : ℕ
  pub workspace_root : Option Text

pub record CandidateChat : Type 0 where
  pub entry : ImportableChat
  pub chat : InterchangeChat
  pub snippet : Text

abbrev pub slash : ℕ → ℕ
slash c = if c == 92 then 47 else c

unfoldable pub norm : Text → Text
norm p = reverse (strip_slashes (reverse (map slash p))) ++ (47 ∷ [])

abbrev pub roots_match : Text → Text → Bool
roots_match target root = root == target || starts_with root target || starts_with target root

abbrev pub matches_root : Text → Option Text → Bool
matches_root target none = false
matches_root target (some []) = false
matches_root target (some (c ∷ root)) = roots_match target (norm (c ∷ root))

abbrev pub is_of_folder : Text → ImportableChat → Bool
is_of_folder folder c = matches_root (norm folder) c.workspace_root

-- `sort((a, b) => b.updatedAt - a.updatedAt)`.
abbrev pub insert : ImportableChat → List ImportableChat → List ImportableChat
insert c [] = c ∷ []
insert c (d ∷ ds) = if leb d.updated_at c.updated_at then c ∷ d ∷ ds else d ∷ insert c ds

abbrev pub sort_recent : List ImportableChat → List ImportableChat
sort_recent [] = []
sort_recent (c ∷ cs) = insert c (sort_recent cs)

unfoldable pub recent_chats : List ImportableChat → Text → ℕ → List ImportableChat
recent_chats all folder limit = take limit (sort_recent (filter (is_of_folder folder) all))

abbrev pub content_text : Content → Text
content_text (plain t) = t
content_text (parts ps) = units "[tool]"

abbrev pub is_shown : Text → Bool
is_shown t = not (length (trim t) == 0)

abbrev pub last_of : Text → List Text → Text
last_of t [] = t
last_of t (u ∷ us) = last_of u us

unfoldable pub snippet_of : InterchangeChat → Text
snippet_of chat =
    take 160 (last_of [] (filter is_shown (map (λ m. content_text m.content) chat.messages)))

-- The loop that reads the chats; `none` where a read throws.
abbrev pub put_chat :
    ImportableChat
    → Option InterchangeChat
    → Option (List CandidateChat)
    → Option (List CandidateChat)
put_chat c none later = none
put_chat c (some chat) none = none
put_chat c (some chat) (some out) =
    some (record { entry = c; chat = chat; snippet = snippet_of chat } ∷ out)

unfoldable pub read_chats :
    (Text → Option InterchangeChat) → List ImportableChat → Option (List CandidateChat)
read_chats read [] = some []
read_chats read (c ∷ cs) = put_chat c (read c.id) (read_chats read cs)

-- The list of the importer, `none` where it throws, and what its `read` gives.
abbrev pub find_in :
    (Text → Option InterchangeChat)
    → Option (List ImportableChat)
    → Text
    → ℕ
    → Option (List CandidateChat)
find_in read none folder limit = none
find_in read (some all) folder limit = read_chats read (recent_chats all folder limit)

unfoldable pub find_chats_for_folder :
    (Text → Option InterchangeChat)
    → Option (List ImportableChat)
    → Text
    → Option ℕ
    → Option (List CandidateChat)
find_chats_for_folder read listed folder none = find_in read listed folder 5
find_chats_for_folder read listed folder (some limit) = find_in read listed folder limit
