-- ===== src/Dialog/Bridge.antt =====
-- apps/shell/src/main/dialog-bridge.ts: the handler of a request. It gives what it does, in order; of a
-- reply the status and the error are kept. `t`, the parent window and the server itself are left out.
use deepseek_harness.Common.{
  Text, text_eq, Bool, false, not, ◌||◌, ℕ, Option, none, some, List, [], ◌∷◌, ◌++◌, ◌==◌,
  if◌then◌else◌,
}
use deepseek_harness.Supervisor.Output.{units}
use deepseek_harness.Policy.Reasoning.{starts_with}

-- A request; the token is `none` where the header is missing, and the body where it cannot be read.
pub record Request : Type 0 where
  pub method : Text
  pub url : Option Text
  pub token : Option Text
  pub body : Option Text

-- What `JSON.parse(body).path` is, when that does not throw.
pub data Parsed : Type 0 where
  throws : Parsed
  no_text : Parsed
  path : Text → Parsed

-- What a call of Electron comes to: it throws, or answers with a text: the failure of `openPath`, which
-- is empty if there is none, or the directory that was picked.
pub data Answer : Type 0 where
  fails : Text → Answer
  answers : Option Text → Answer

pub record Host : Type 0 where
  pub parse : Text → Parsed
  pub is_absolute : Text → Bool
  pub resolve : Text → Text
  pub sep : Text
  pub open_path : Text → Answer
  pub show_open_dialog : Answer

pub data Effect : Type 0 where
  opens : Text → Effect
  shows_dialog : Effect
  replies : ℕ → Effect
  picks : Option Text → Effect

abbrev pub pick_directory : Text
pick_directory = units "/pick-directory"

abbrev pub open_text_file : Text
open_text_file = units "/open-text-file"

abbrev pub or_empty : Option Text → Text
or_empty none = []
or_empty (some text) = text

-- `target === root || target.startsWith(root + sep)`.
abbrev pub is_inside : Host → Text → Text → Bool
is_inside h root target = target == root || starts_with (root ++ h.sep) target

abbrev pub opened : Answer → List Effect
opened (fails message) = replies 500 ∷ []
opened (answers none) = replies 200 ∷ []
opened (answers (some [])) = replies 200 ∷ []
opened (answers (some (c ∷ failure))) = replies 500 ∷ []

abbrev pub open_target : Host → Text → Text → List Effect
open_target h root target =
    if not (is_inside h root target)
    then replies 403 ∷ []
    else opens target ∷ opened (h.open_path target)

abbrev pub open_parsed : Host → Text → Parsed → List Effect
open_parsed h root throws = replies 500 ∷ []
open_parsed h root no_text = replies 400 ∷ []
open_parsed h root (path p) =
    if not (h.is_absolute p) then replies 400 ∷ [] else open_target h root (h.resolve p)

abbrev pub picked : Answer → List Effect
picked (fails message) = replies 500 ∷ []
picked (answers directory) = picks directory ∷ []

-- The part of the handler behind the two guards.
unfoldable pub serve_body : Host → Text → Text → Option Text → List Effect
serve_body h root url none = replies 500 ∷ []
serve_body h root url (some body) =
    if url == open_text_file
    then open_parsed h root (h.parse body)
    else shows_dialog ∷ picked h.show_open_dialog

abbrev pub is_route : Text → Bool
is_route url = url == pick_directory || url == open_text_file

abbrev pub has_token : Text → Option Text → Bool
has_token token none = false
has_token token (some sent) = sent == token

unfoldable pub handle : Host → Text → Text → Request → List Effect
handle h root token r =
    let url = or_empty r.url in
    if not (r.method == units "POST") || not (is_route url)
    then replies 404 ∷ []
    else if not (has_token token r.token)
    then replies 401 ∷ []
    else serve_body h root url r.body

unfoldable pub dialog_bridge : Host → Text → Text → Request → List Effect
dialog_bridge h allowed_root token r = handle h (h.resolve allowed_root) token r
