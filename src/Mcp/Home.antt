-- ===== src/Mcp/Home.antt =====
-- apps/shell/src/main/mcp-home.ts: the managed block, and the two operations on the home directory.
-- The writes succeed; the paths that the state also has are left out.
use deepseek_harness.Common.{
  Text, text_eq, ℕ, ◌-◌, leb, ◌&&◌, Bool, true, false, Option, none, some, List, [], ◌∷◌, ◌++◌,
  ◌==◌, nat_eq, map, join_with, if◌then◌else◌,
}
use deepseek_harness.Common.JsMap.{JsMap, set}
use deepseek_harness.Supervisor.Output.{units}
use deepseek_harness.Mcp.Patch.{patch_begin, patch_end, merge_managed_patch}
use deepseek_harness.Mcp.Catalogue.{
  McpHost, ManagedMcpServer, EmbeddedMcpOptions, EmbeddedMcpConfig, RawServer, ConfigFile, stored,
  process_cwd, read_config,
}

pub record Home : Type 0 where
  pub config : ConfigFile
  pub patch : Option Text

pub record EmbeddedMcpState : Type 0 where
  pub enabled : List Text
  pub servers : EmbeddedMcpConfig

-- `join(', ')`.
abbrev pub join_commas : List Text → Text
join_commas [] = []
join_commas (part ∷ []) = part
join_commas (part ∷ next ∷ parts) = part ++ (units ", " ++ join_commas (next ∷ parts))

module _ (h : McpHost) where
  abbrev pub yaml_value : Text → Text
  yaml_value value = if value == process_cwd then units "!!js process.cwd()" else h.stringify value

  abbrev pub disabled_value : Bool → Text
  disabled_value true = units "!!js process.env.FREECODE_WEB_MODE === '1'"
  disabled_value false = units "true"

  abbrev pub activation_lines : Option (Text × Text) → List Text
  activation_lines none = []
  activation_lines (some (tool, argument)) =
      units "    projectActivation:"
      ∷ (units "      toolName: " ++ h.stringify tool)
      ∷ (units "      pathArgument: " ++ h.stringify argument)
      ∷ []

  abbrev pub server_lines : ManagedMcpServer × Bool → List Text
  server_lines (s, enabled) =
      (units "- id: " ++ h.stringify (units "freecode-mcp-" ++ s.id))
        ∷ (units "  name: " ++ (34 ∷ units "@deepseek-ai/dsh-mcp-client" ++ (34 ∷ [])))
        ∷ (units "  disabled: " ++ disabled_value enabled)
        ∷ units "  config:"
        ∷ (units "    transport: " ++ h.stringify (units "stdio"))
        ∷ (units "    serverName: " ++ h.stringify s.server_name)
        ∷ (units "    command: " ++ h.stringify s.command)
        ∷ (units "    args: [" ++ (join_commas (map yaml_value s.args) ++ units "]"))
        ∷ (units "    cwd: " ++ yaml_value s.cwd)
        ∷ activation_lines s.project_activation
      ++ (units "    failOnStartupError: false"
          ∷ units "    reconnect:"
          ∷ units "      enabled: true"
          ∷ units "      initialDelayMs: 500"
          ∷ units "      maxDelayMs: 30000"
          ∷ units "      maxAttempts: 10"
          ∷ [])

  abbrev pub all_lines : EmbeddedMcpConfig → List Text
  all_lines [] = patch_end ∷ []
  all_lines (s ∷ servers) = server_lines s ++ all_lines servers

  unfoldable pub render_managed_patch : EmbeddedMcpConfig → Text
  render_managed_patch config =
      join_with 10 (
        patch_begin
        ∷ units "# Generated by FreeCode. Edit mcp/servers.json to toggle entries."
        ∷ units
            "# The MCP client bridge is bundled; external server executables are optional prerequisites."
        ∷ all_lines config)
      ++ (10 ∷ [])

  abbrev pub raw_of : ManagedMcpServer × Bool → RawServer
  raw_of (s, enabled) = record { id = some s.id; command = some s.command; enabled = some enabled }

  -- `writeAtomic` of the configuration.
  abbrev pub written : EmbeddedMcpConfig → ConfigFile
  written config = stored (some (map raw_of config))

  abbrev pub or_empty : Option Text → Text
  or_empty none = []
  or_empty (some text) = text

  abbrev pub enabled_ids : EmbeddedMcpConfig → List Text
  enabled_ids [] = []
  enabled_ids ((s, enabled) ∷ config) =
      if enabled then s.id ∷ enabled_ids config else enabled_ids config

  abbrev pub state_of : EmbeddedMcpConfig → EmbeddedMcpState
  state_of config = record { enabled = enabled_ids config; servers = config }

  abbrev pub write_home : EmbeddedMcpConfig → Option Text → Home
  write_home config patch = record {
    config = written config;
    patch = some (merge_managed_patch (or_empty patch) (render_managed_patch config));
  }

  unfoldable pub ensure_embedded_mcp_config : EmbeddedMcpOptions → Home → EmbeddedMcpState × Home
  ensure_embedded_mcp_config o home =
      let config = read_config h o home.config in (state_of config, write_home config home.patch)

  abbrev pub has_id : Text → EmbeddedMcpConfig → Bool
  has_id id [] = false
  has_id id ((s, enabled) ∷ config) = if s.id == id then true else has_id id config

  -- `config.servers.find(...)`, whose `enabled` is then set.
  abbrev pub toggle : Text → Bool → EmbeddedMcpConfig → EmbeddedMcpConfig
  toggle id enabled [] = []
  toggle id enabled ((s, old) ∷ config) =
      if s.id == id then (s, enabled) ∷ config else (s, old) ∷ toggle id enabled config

  -- `none` where the server is unknown, when the file has been refreshed already.
  unfoldable pub set_embedded_mcp_enabled :
      EmbeddedMcpOptions → Text → Bool → Home → Option EmbeddedMcpState × Home
  set_embedded_mcp_enabled o id enabled home =
      let home' = (ensure_embedded_mcp_config o home).1 in
      let config = read_config h o home'.config in
      let toggled = toggle id enabled config in
      if has_id id config
      then (some (state_of toggled), write_home toggled home'.patch)
      else (none, home')

-- `embeddedMcpEnvironment`, for servers whose ids are ASCII.
abbrev pub env_unit : ℕ → ℕ
env_unit c = if c == 45 then 95 else if leb 97 c && leb c 122 then c - 32 else c

abbrev pub env_key : Text → Text
env_key id = units "FREECODE_MCP_" ++ (map env_unit id ++ units "_ENABLED")

abbrev pub flag_text : Bool → Text
flag_text true = units "true"
flag_text false = units "false"

abbrev pub env_from : JsMap Text Text → EmbeddedMcpConfig → JsMap Text Text
env_from env [] = env
env_from env ((s, enabled) ∷ servers) =
    env_from (set (env_key s.id) (flag_text enabled) env) servers

unfoldable pub embedded_mcp_environment : EmbeddedMcpState → JsMap Text Text
embedded_mcp_environment state =
    env_from ((units "FREECODE_WEB_MODE", units "1") ∷ []) state.servers
