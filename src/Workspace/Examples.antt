-- ===== src/Workspace/Examples.antt =====
-- A concrete importer and harness: tests of packages/workspace-bridge/src, and each theorem at them.
use deepseek_harness.Common.{
  Text, ℕ, true, none, some, List, [], ◌∷◌, ◌≡◌, refl, map, nat_eq, text_eq,
}
use deepseek_harness.Supervisor.Output.{units}
use deepseek_harness.Workspace.Folder.{
  ImportableChat, InterchangeChat, CandidateChat, plain, find_chats_for_folder, norm,
}
use deepseek_harness.Workspace.Recent.{IsRecent, find_chats_for_folder-IsRecent}
use deepseek_harness.Workspace.Continue.{Harness, body, Call, Result, continue_chat}
use deepseek_harness.Workspace.Handoff.{IsHandoff, continue_chat-IsHandoff}

abbrev entry : ℕ → Text → ImportableChat
entry time root = record {
  id = units "i";
  title = [];
  updated_at = time;
  workspace_root = some root;
}

abbrev listed : List ImportableChat
listed = entry 1 (units "/w") ∷ entry 3 (units "/w/") ∷ entry 2 (units "/x") ∷ []

abbrev chat : InterchangeChat
chat = record {
  source_agent = units "opencode";
  title = units "t";
  updated_at = 3;
  model = none;
  messages = record { role = units "user"; content = plain (units "hi") } ∷ [];
}

abbrev found : List CandidateChat
found =
    record { entry = entry 3 (units "/w/"); chat = chat; snippet = units "hi" }
    ∷ record { entry = entry 1 (units "/w"); chat = chat; snippet = units "hi" }
    ∷ []

-- The later chat comes first, and the one of another folder is not there.
finds_listed :
    find_chats_for_folder (λ id. some chat) (some listed) (units "/w") (some 5) ≡ some found
unfolding find_chats_for_folder deepseek_harness.Workspace.Folder.recent_chats
    deepseek_harness.Workspace.Folder.read_chats deepseek_harness.Workspace.Folder.snippet_of norm
finds_listed = refl

find_chats_for_folder-IsRecent_example : IsRecent (units "/w") 5 listed (map (λ c. c.entry) found)
find_chats_for_folder-IsRecent_example =
    find_chats_for_folder-IsRecent (λ id. some chat) listed (units "/w") 5 found finds_listed

abbrev harness : Harness
harness = record {
  create_session = body true (some (record { session_id = some (units "s"); id = none }));
  prompt = body true (some []);
  iso = λ t. [];
}

continue_chat-IsHandoff_example :
    (out : List Call × Result Text) × (continue_chat harness (some chat) (units "/w") none
      ≡ some out)
    × IsHandoff harness chat (units "/w") none out
continue_chat-IsHandoff_example = continue_chat-IsHandoff harness chat (units "/w") none
