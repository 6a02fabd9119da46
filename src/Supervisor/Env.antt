-- ===== src/Supervisor/Env.antt =====
-- apps/shell/src/main/harness-supervisor.ts: the environment of the child, built in `spawnOnce`.
use deepseek_harness.Common.{
  Option, none, some, List, [], ◌∷◌, String, ◌==◌, string_eq, if◌then◌else◌,
}
use deepseek_harness.Common.JsMap.{JsMap, get, set}
use deepseek_harness.Supervisor.State.{HarnessSupervisorConfig, BrowserBridge}

abbrev pub safe_env_keys : List String
safe_env_keys =
    "PATH" ∷ "HOME" ∷ "USER" ∷ "USERPROFILE" ∷ "HOMEDRIVE" ∷ "HOMEPATH" ∷ "TEMP" ∷ "TMP" ∷ "TMPDIR"
    ∷ "SYSTEMROOT" ∷ "WINDIR" ∷ "COMSPEC" ∷ "PROGRAMFILES" ∷ "PROGRAMFILES(X86)" ∷ "LOCALAPPDATA"
    ∷ "APPDATA" ∷ "COMMONPROGRAMFILES" ∷ "COMMONPROGRAMFILES(X86)" ∷ "ProgramData" ∷ "node_options"
    ∷ "NODE_OPTIONS" ∷ "ELECTRON_RUN_AS_NODE" ∷ "DSH_HOME" ∷ "OPENCODE2API_LB_URL"
    ∷ "FREECODE_EMBEDDED_BROWSER_ENDPOINT" ∷ "FREECODE_EMBEDDED_BROWSER_TOKEN"
    ∷ "FREECODE_PUBLIC_KEY" ∷ "DEEPSEEK_API_KEY" ∷ []

abbrev pub keep_safe :
    JsMap String String → String → Option String → JsMap String String → JsMap String String
keep_safe process_env key none env = env
keep_safe process_env key (some val) env = set key val env

-- The loop over the safe keys.
abbrev pub copy_safe : JsMap String String → List String → JsMap String String → JsMap String String
copy_safe process_env [] env = env
copy_safe process_env (key ∷ keys) env =
    copy_safe process_env keys (keep_safe process_env key (get key process_env) env)

-- `{ ...env, ...more }`.
abbrev pub spread : JsMap String String → JsMap String String → JsMap String String
spread env [] = env
spread env ((k, v) ∷ more) = spread (set k v env) more

abbrev pub lb_env : Option String → JsMap String String
lb_env none = []
lb_env (some url) = if url == "" then [] else ("OPENCODE2API_LB_URL", url) ∷ []

abbrev pub bridge_env : Option BrowserBridge → JsMap String String
bridge_env none = []
bridge_env (some bridge) =
    ("FREECODE_EMBEDDED_BROWSER_ENDPOINT", bridge.endpoint)
    ∷ ("FREECODE_EMBEDDED_BROWSER_TOKEN", bridge.token)
    ∷ []

unfoldable pub child_env : JsMap String String → HarnessSupervisorConfig → JsMap String String
child_env process_env cfg =
    let safe = copy_safe process_env safe_env_keys [] in
    let own = set "DSH_HOME" cfg.home_dir (spread safe cfg.node_env) in
    spread (spread (spread own (lb_env cfg.lb_url)) (bridge_env cfg.browser_bridge)) cfg.extra_env
