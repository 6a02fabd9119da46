-- ===== src/Workspace/Continue.antt =====
-- packages/workspace-bridge/src: the client for the harness, and `continueChat`. What is sent is kept as
-- a list of calls; `randomUUID` and the ids of the envelopes are left out.
use deepseek_harness.Common.{
  Text, text_eq, ℕ, Bool, true, false, Option, none, some, List, [], ◌∷◌, ◌++◌, map, join_with, leb,
  ◌-◌, ◌&&◌, nat_eq, if◌then◌else◌,
}
use deepseek_harness.Supervisor.Output.{units}
use deepseek_harness.Workspace.Folder.{
  ContentPart, text, tool, Content, plain, parts, ChatMessage, InterchangeChat,
}

-- What a POST comes to: it fails, a status that is no success, or a body; the value of the result is
-- `none` where the result is an error.
pub data Posted (Value : Type 0) : Type 0 where
  transport_failed : Posted Value
  http : ℕ → Posted Value
  body : Bool → Option Value → Posted Value

pub data RpcFailure : Type 0 where
  transport bad_envelope server_error no_session_id : RpcFailure
  http_status : ℕ → RpcFailure

pub data Result (Value : Type 0) : Type 0 where
  throws : RpcFailure → Result Value
  returns : Value → Result Value

abbrev pub call : {Value : Type 0} → Posted Value → Result Value
call transport_failed = throws transport
call (http status) = throws (http_status status)
call (body false value) = throws bad_envelope
call (body true none) = throws server_error
call (body true (some value)) = returns value

-- The value of `session.create`: its two members that may hold the id.
pub record Created : Type 0 where
  pub session_id : Option Text
  pub id : Option Text

pub data Call : Type 0 where
  creates : Text → Call
  prompts : Text → Text → Option (Text × Text) → Call

abbrev pub upper : ℕ → ℕ
upper c = if leb 97 c && leb c 122 then c - 32 else c

abbrev pub part_text : ContentPart → Text
part_text (text t) = t
part_text (tool name) = units "[tool " ++ (name ++ units "]")

abbrev pub message_text : Content → Text
message_text (plain t) = t
message_text (parts ps) = join_with 10 (map part_text ps)

abbrev pub message_line : ChatMessage → Text
message_line m = map upper m.role ++ (units ": " ++ message_text m.content)

-- `join('\n\n')`.
abbrev pub join_blank : List Text → Text
join_blank [] = []
join_blank (t ∷ []) = t
join_blank (t ∷ u ∷ us) = t ++ (10 ∷ 10 ∷ join_blank (u ∷ us))

abbrev pub model_text : Option (Text × Text) → Text
model_text none = units "desconocido"
model_text (some (provider, id)) = provider ++ (47 ∷ id)

-- With what `new Date(t).toISOString()` gives.
unfoldable pub build_continue_system_message : (ℕ → Text) → InterchangeChat → Text → Text
build_continue_system_message iso chat folder = join_with 10 (
    (units "Continuando una sesión previa ("
      ++ (chat.source_agent
          ++ (units ", \""
              ++ (chat.title
                  ++ (units "\", actualizada " ++ (iso chat.updated_at ++ units ")."))))))
    ∷ (units "Carpeta de trabajo: " ++ folder)
    ∷ (units "Modelo previo: " ++ model_text chat.model)
    ∷ []
    ∷ units "Historial de la conversación anterior:"
    ∷ []
    ∷ join_blank (map message_line chat.messages)
    ∷ [])

pub record Harness : Type 0 where
  pub create_session : Posted Created
  pub prompt : Posted Text
  pub iso : ℕ → Text

abbrev pub non_empty_id : Option Text → Option Text
non_empty_id none = none
non_empty_id (some []) = none
non_empty_id (some (c ∷ id)) = some (c ∷ id)

-- `created.sessionId ?? created.id`, which must not be empty.
abbrev pub id_of : Created → Option Text
id_of c = elim c.session_id [ none ↦ non_empty_id c.id | some id ↦ non_empty_id (some id) ]

abbrev pub prompted : Text → Result Text → Result Text
prompted session_id (throws failure) = throws failure
prompted session_id (returns value) = returns session_id

abbrev pub with_session :
    Harness → InterchangeChat → Text → Option (Text × Text) → Option Text → List Call × Result Text
with_session h chat folder model none = (creates folder ∷ [], throws no_session_id)
with_session h chat folder model (some session_id) = (
  creates folder ∷ prompts session_id (build_continue_system_message h.iso chat folder) model ∷ [],
  prompted session_id (call h.prompt),
)

abbrev pub with_created :
    Harness
    → InterchangeChat
    → Text
    → Option (Text × Text)
    → Result Created
    → List Call × Result Text
with_created h chat folder model (throws failure) = (creates folder ∷ [], throws failure)
with_created h chat folder model (returns created) =
    with_session h chat folder model (id_of created)

-- `none` where the importer's read throws, before anything is sent.
unfoldable pub continue_chat :
    Harness
    → Option InterchangeChat
    → Text
    → Option (Text × Text)
    → Option (List Call × Result Text)
continue_chat h none folder model = none
continue_chat h (some chat) folder model =
    some (with_created h chat folder model (call h.create_session))
