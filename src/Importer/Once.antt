-- ===== src/Importer/Once.antt =====
-- packages/chat-importer/src/index.ts: a chat is imported once.
use deepseek_harness.Common.{
  Text, text_eq, ◌+◌, ◌≡◌, refl, Bool, true, false, Option, none, some, List, [], ◌∷◌, ◌++◌,
  contains, contains-snoc, length, length-append, All, arith, Bool-cases, inl, inr, ◌||◌, ◌∙◌,
  subst,
}
use deepseek_harness.Importer.Chats.{
  key, Markers, is_imported, mark_imported, ChatImporter, Progress, Outcome, resolves, rejects,
  skip_chat, take_chat, import_chat, import_from, import_chats,
}

abbrev Grows : Markers → Markers → Type 0
Grows old new = (k : Text) → contains old k ≡ true → contains new k ≡ true

or_true : (a b : Bool) → b ≡ true → (a || b) ≡ true
or_true true b h = refl
or_true false b h = h

mark_imported-Grows :
    (markers : Markers) (agent id : Text) → Grows markers (mark_imported markers agent id)
mark_imported-Grows markers agent id k h = elim (Bool-cases (contains markers (key agent id))) [
  | inl old ↦ rw old h
  | inr new ↦ rw new (contains-snoc markers (key agent id) k ∙ rw h refl)
]

mark_imported-is_imported :
    (markers : Markers) (agent id : Text)
    → is_imported (mark_imported markers agent id) agent id ≡ true
mark_imported-is_imported markers agent id = elim (Bool-cases (contains markers (key agent id))) [
  | inl old ↦ rw old old
  | inr new ↦ rw new (
      contains-snoc markers (key agent id) (key agent id)
      ∙ or_true _ _ ((text_eq.decides (key agent id) (key agent id)).1 refl))
]

module _ {Chat : Type 0} (importer : ChatImporter Chat) (saves : Text → Bool) where
  -- What a pass that goes on has done.
  record Passed (p q : Progress Chat) (id : Text) : Type 0 where
    grows : Grows p.markers q.markers
    is_marked : is_imported q.markers importer.id id ≡ true
    is_read : (chat : Chat) × (importer.read id ≡ some chat)

  import_chat-Passed :
      (p q : Progress Chat) (id : Text)
      → import_chat importer saves p id ≡ resolves q
      → Passed p q id
  unfolding import_chat
  import_chat-Passed p q id h = elim (Bool-cases (is_imported p.markers importer.id id)) [
    | inl old ↦ by_skip (importer.read id) refl old (rw (old, import_chat) at h)
    | inr new ↦ by_take (importer.read id) refl (rw (new, import_chat) at h)
  ]
    where
      by_skip :
          (o : Option Chat)
          → importer.read id ≡ o
          → is_imported p.markers importer.id id ≡ true
          → skip_chat importer saves p o ≡ resolves q
          → Passed p q id
      by_skip none e old h = absurd (cc h)
      by_skip (some chat) e old h =
          let same : p.markers ≡ q.markers = cc h in
          record {
            grows =
                λ k. subst (λ m. contains p.markers k ≡ true → contains m k ≡ true) same (λ c. c);
            is_marked = subst (λ m. is_imported m importer.id id ≡ true) same old;
            is_read = (chat, e);
          }

      by_take :
          (o : Option Chat)
          → importer.read id ≡ o
          → take_chat importer saves p id o ≡ resolves q
          → Passed p q id
      by_take none e h = absurd (cc h)
      by_take (some chat) e h = elim (Bool-cases (saves id)) [
        | inr failed ↦ absurd (cc (rw failed at h))
        | inl saved ↦
            let same : mark_imported p.markers importer.id id ≡ q.markers = cc (rw saved at h) in
            record {
              grows = subst (Grows p.markers) same (mark_imported-Grows p.markers importer.id id);
              is_marked =
                  subst (λ m. is_imported m importer.id id ≡ true) same
                    (mark_imported-is_imported p.markers importer.id id);
              is_read = (chat, e);
            }
      ]

  -- The chats of an import that has resolved.
  IsDone : Markers → Text → Type 0
  IsDone markers id =
      (is_imported markers importer.id id ≡ true) × (chat : Chat) × (importer.read id ≡ some chat)

  import_from-IsDone :
      (p q : Progress Chat) (ids : List Text)
      → import_from importer saves p ids ≡ resolves q
      → Grows p.markers q.markers × All (IsDone q.markers) ids
  unfolding import_from IsDone
  import_from-IsDone p q [] h = (subst (λ r. Grows p.markers r) (cc h) (λ k c. c), tt)
  import_from-IsDone p q (id ∷ ids) h =
      by_pass (import_chat importer saves p id) refl h (λ next k. import_from-IsDone next q ids k)
    where
      by_pass :
          (o : Outcome Chat)
          → import_chat importer saves p id ≡ o
          → elim o [
            | rejects markers ↦ rejects markers
            | resolves next ↦ import_from importer saves next ids
          ]
            ≡ resolves q
          → ((next : Progress Chat)
              → import_from importer saves next ids ≡ resolves q
              → Grows next.markers q.markers × All (IsDone q.markers) ids)
          → Grows p.markers q.markers × All (IsDone q.markers) (id ∷ ids)
      by_pass (rejects markers) e h later = absurd (cc h)
      by_pass (resolves next) e h later =
          let passed = import_chat-Passed p next id e in
          let (grows, done) = later next h in
          (
            λ k c. grows k (passed.grows k c),
            ((grows _ passed.is_marked, passed.is_read.0, passed.is_read.1), done),
          )

  import_from_again :
      (p : Progress Chat) (ids : List Text)
      → All (IsDone p.markers) ids
      → (q : Progress Chat) × (import_from importer saves p ids ≡ resolves q)
        × (q.imported ≡ p.imported)
        × (q.markers ≡ p.markers)
        × (length q.skipped ≡ length p.skipped + length ids)
  unfolding import_from IsDone
  import_from_again p [] d = (p, refl, refl, refl, omega arith)
  import_from_again p (id ∷ ids) d =
      let (old, chat, read) = d.0 in
      let next : Progress Chat = record p { skipped = p.skipped ++ (chat ∷ []) } in
      let passed : import_chat importer saves p id ≡ resolves next =
        rw (old, read, import_chat) refl in
      let (q, rest, same, marks, count) = import_from_again next ids d.1 in
      let size = length-append p.skipped (chat ∷ []) in
      (q, rw (passed, import_from) rest, same, marks, omega arith)

  -- Once an import has resolved, the same import again resolves too: it imports nothing, skips every
  -- chat and leaves the markers alone.
  pub import_chats_once :
      (ids : List Text) (markers : Markers) (p : Progress Chat)
      → import_chats importer saves ids markers ≡ resolves p
      → (q : Progress Chat) × (import_chats importer saves ids p.markers ≡ resolves q)
        × (q.imported ≡ [])
        × (q.markers ≡ p.markers)
        × (length q.skipped ≡ length ids)
  unfolding import_chats
  import_chats_once ids markers p h =
      let first : Progress Chat = record { imported = []; skipped = []; markers = markers } in
      let again : Progress Chat = record { imported = []; skipped = []; markers = p.markers } in
      let done = (import_from-IsDone first p ids h).1 in
      let (q, ran, nothing, same, count) = import_from_again again ids done in
      (q, ran, nothing, same, omega arith)
