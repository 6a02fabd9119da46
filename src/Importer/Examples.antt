-- ===== src/Importer/Examples.antt =====
-- A concrete import: tests of packages/chat-importer/src/index.ts, and its theorem at it.
use deepseek_harness.Common.{Text, ◌≡◌, refl, true, some, List, [], ◌∷◌, length}
use deepseek_harness.Importer.Chats.{ChatImporter, Progress, Markers, resolves, import_chats}
use deepseek_harness.Importer.Once.{import_chats_once}

-- A chat is its id.
abbrev importer : ChatImporter Text
importer = record { id = 111 ∷ []; read = λ id. some id }

abbrev ids : List Text
ids = (1 ∷ []) ∷ (2 ∷ []) ∷ []

abbrev marked : Markers
marked = (111 ∷ 58 ∷ 1 ∷ []) ∷ (111 ∷ 58 ∷ 2 ∷ []) ∷ []

abbrev both : Progress Text
both = record { imported = ids; skipped = []; markers = marked }

import_chats_once_example :
    (q : Progress Text) × (import_chats importer (λ id. true) ids marked ≡ resolves q)
    × (q.imported ≡ [])
    × (q.markers ≡ marked)
    × (length q.skipped ≡ 2)
unfolding import_chats
import_chats_once_example = import_chats_once importer (λ id. true) ids [] both refl
