-- ===== src/Workspace/Handoff.antt =====
-- packages/workspace-bridge/src/bridge.ts: what `continueChat` sends in each case.
use deepseek_harness.Common.{Text, Option, none, some, [], ◌∷◌, List, ◌≡◌, ◌≢◌, ◌⊎◌, inl, inr, refl}
use deepseek_harness.Workspace.Folder.{InterchangeChat}
use deepseek_harness.Workspace.Continue.{
  Result, throws, returns, no_session_id, call, Created, Call, creates, prompts, Harness,
  non_empty_id, prompted, with_session, with_created, continue_chat, build_continue_system_message,
}

module _ (h : Harness) (chat : InterchangeChat) (folder : Text) (model : Option (Text × Text)) where
  -- A session, and then one prompt with the chat, to that session.
  abbrev pub handed_to : Text → List Call
  handed_to session_id =
      creates folder
      ∷ prompts session_id (build_continue_system_message h.iso chat folder) model
      ∷ []

  -- The session that was created has the id: as its `sessionId`, or, without one, as its `id`.
  abbrev pub Creates : Text → Type 0
  Creates session_id =
      (created : Created) × (call h.create_session ≡ returns created)
      × (session_id ≢ [])
      × ((created.session_id ≡ some session_id)
          ⊎ ((created.session_id ≡ none) × (created.id ≡ some session_id)))

  -- A session was created, but its `sessionId` is empty, or it has none and no `id` or an empty one.
  abbrev pub CreatesNameless : Type 0
  CreatesNameless =
      (created : Created) × (call h.create_session ≡ returns created)
      × ((created.session_id ≡ some [])
          ⊎ ((created.session_id ≡ none) × ((created.id ≡ none) ⊎ (created.id ≡ some []))))

  abbrev pub IsHandoff : List Call × Result Text → Type 0
  IsHandoff (calls, returns session_id) =
      (calls ≡ handed_to session_id)
      × Creates session_id
      × ((value : Text) × (call h.prompt ≡ returns value))
  IsHandoff (calls, throws failure) =
      ((calls ≡ creates folder ∷ [])
        × ((call h.create_session ≡ throws failure)
            ⊎ ((failure ≡ no_session_id) × CreatesNameless)))
      ⊎ ((session_id : Text) × (calls ≡ handed_to session_id)
          × Creates session_id
          × (call h.prompt ≡ throws failure))

  prompted-IsHandoff :
      (session_id : Text) (r : Result Text)
      → call h.prompt ≡ r
      → Creates session_id
      → IsHandoff (handed_to session_id, prompted session_id r)
  prompted-IsHandoff session_id (throws failure) e c = inr (session_id, refl, c, e)
  prompted-IsHandoff session_id (returns value) e c = (refl, c, (value, e))

  with_own_id-IsHandoff :
      (id : Option Text) (created : Created)
      → call h.create_session ≡ returns created
      → created.session_id ≡ none
      → created.id ≡ id
      → IsHandoff (with_session h chat folder model (non_empty_id id))
  with_own_id-IsHandoff none created e k i = inl (refl, inr (refl, (created, e, inr (k, inl i))))
  with_own_id-IsHandoff (some []) created e k i =
      inl (refl, inr (refl, (created, e, inr (k, inr i))))
  with_own_id-IsHandoff (some (c ∷ id)) created e k i =
      prompted-IsHandoff (c ∷ id) (call h.prompt) refl
        (created, e, (λ empty. absurd (cc empty)), inr (k, i))

  with_session_id-IsHandoff :
      (id : Option Text) (created : Created)
      → call h.create_session ≡ returns created
      → created.session_id ≡ id
      → IsHandoff (
          with_session h chat folder model
            (elim id [ none ↦ non_empty_id created.id | some s ↦ non_empty_id (some s) ]))
  with_session_id-IsHandoff none created e k = with_own_id-IsHandoff created.id created e k refl
  with_session_id-IsHandoff (some []) created e k = inl (refl, inr (refl, (created, e, inl k)))
  with_session_id-IsHandoff (some (c ∷ id)) created e k =
      prompted-IsHandoff (c ∷ id) (call h.prompt) refl
        (created, e, (λ empty. absurd (cc empty)), inl k)

  with_created-IsHandoff :
      (r : Result Created)
      → call h.create_session ≡ r
      → IsHandoff (with_created h chat folder model r)
  with_created-IsHandoff (throws failure) e = inl (refl, inl e)
  with_created-IsHandoff (returns created) e =
      with_session_id-IsHandoff created.session_id created e refl

-- Going on with a chat creates one session in the folder. If it succeeds, that is with the id of the
-- session that was created, which is not empty, after one prompt with the chat to that session. If it
-- fails, then without a prompt, with the failure of the creation or because the session that was
-- created has no id; or after one prompt to that session, with the failure of the prompt.
pub continue_chat-IsHandoff :
    (h : Harness) (chat : InterchangeChat) (folder : Text) (model : Option (Text × Text))
    → (out : List Call × Result Text) × (continue_chat h (some chat) folder model ≡ some out)
      × IsHandoff h chat folder model out
unfolding continue_chat
continue_chat-IsHandoff h chat folder model =
    (_, refl, with_created-IsHandoff h chat folder model (call h.create_session) refl)
