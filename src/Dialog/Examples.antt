-- ===== src/Dialog/Examples.antt =====
-- A request to the bridge of apps/shell/src/main/dialog-bridge.ts, and the theorem at it.
use deepseek_harness.Common.{true, none, some, [], ◌∷◌, ◌≡◌, refl}
use deepseek_harness.Supervisor.Output.{units}
use deepseek_harness.Dialog.Bridge.{
  Host, Request, path, answers, opens, replies, open_text_file, dialog_bridge,
}
use deepseek_harness.Dialog.Guards.{Serves, may_serve, dialog_bridge-Serves}

abbrev host : Host
host = record {
  parse = λ body. path body;
  is_absolute = λ p. true;
  resolve = λ p. p;
  sep = units "/";
  open_path = λ p. answers none;
  show_open_dialog = answers none;
}

abbrev request : Request
request = record {
  method = units "POST";
  url = some open_text_file;
  token = some (units "t");
  body = some (units "/r/a");
}

opens_below :
    dialog_bridge host (units "/r") (units "t") request ≡ opens (units "/r/a") ∷ replies 200 ∷ []
unfolding dialog_bridge deepseek_harness.Dialog.Bridge.handle
    deepseek_harness.Dialog.Bridge.serve_body
opens_below = refl

dialog_bridge-Serves_example :
    Serves host
      (units "/r")
      (may_serve (units "t") request)
      (dialog_bridge host (units "/r") (units "t") request)
dialog_bridge-Serves_example = dialog_bridge-Serves host (units "/r") (units "t") request
