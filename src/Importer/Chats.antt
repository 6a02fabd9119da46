-- ===== src/Importer/Chats.antt =====
-- packages/chat-importer/src/index.ts: `importChats`, and packages/chat-importer/src/markers.ts: the
-- marker store, without its file. What an importer reads is an argument, and so is whether the file
-- of the store can be written.
use deepseek_harness.Common.{
  Text, text_eq, Bool, Option, none, some, List, [], ◌∷◌, ◌++◌, contains, if◌then◌else◌,
}

-- `${agent}:${chatId}`.
abbrev pub key : Text → Text → Text
key agent chat = agent ++ (58 ∷ chat)

-- The keys of a `JsonFileMarkerStore`, in the order of insertion.
abbrev pub Markers : Type 0
Markers = List Text

abbrev pub is_imported : Markers → Text → Text → Bool
is_imported markers agent chat = contains markers (key agent chat)

-- `this.markers.add(…)`.
abbrev pub mark_imported : Markers → Text → Text → Markers
mark_imported markers agent chat =
    if contains markers (key agent chat) then markers else markers ++ (key agent chat ∷ [])

-- An importer with its source: its id, and what `read` gives, or `none` where it throws.
pub record ChatImporter (Chat : Type 0) : Type 0 where
  pub id : Text
  pub read : Text → Option Chat

pub record Progress (Chat : Type 0) : Type 0 where
  pub imported : List Chat
  pub skipped : List Chat
  pub markers : Markers

-- The promise of `importChats`: it resolves with the lists, or rejects; the markers stay either way.
pub data Outcome (Chat : Type 0) : Type 0 where
  resolves : Progress Chat → Outcome Chat
  rejects : Markers → Outcome Chat

module _ {Chat : Type 0} (importer : ChatImporter Chat) (saves : Text → Bool) where
  abbrev pub skip_chat : Progress Chat → Option Chat → Outcome Chat
  skip_chat p none = rejects p.markers
  skip_chat p (some chat) = resolves (record p { skipped = p.skipped ++ (chat ∷ []) })

  abbrev pub take_chat : Progress Chat → Text → Option Chat → Outcome Chat
  take_chat p id none = rejects p.markers
  take_chat p id (some chat) =
      let markers = mark_imported p.markers importer.id id in
      if saves id
      then resolves (record p { imported = p.imported ++ (chat ∷ []); markers = markers })
      else rejects markers

  -- One pass of the loop.
  unfoldable pub import_chat : Progress Chat → Text → Outcome Chat
  import_chat p id =
      if is_imported p.markers importer.id id
      then skip_chat p (importer.read id)
      else take_chat p id (importer.read id)

  unfoldable pub import_from : Progress Chat → List Text → Outcome Chat
  unfolding import_chat
  import_from p [] = resolves p
  import_from p (id ∷ ids) = elim (import_chat p id) [
    | rejects markers ↦ rejects markers
    | resolves next ↦ import_from next ids
  ]

  unfoldable pub import_chats : List Text → Markers → Outcome Chat
  unfolding import_from
  import_chats ids markers =
      import_from (record { imported = []; skipped = []; markers = markers }) ids
