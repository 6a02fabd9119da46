-- ===== src/Mcp/Catalogue.antt =====
-- apps/shell/src/main/mcp-home.ts: the catalogue of servers and the file of its flags. What is written
-- to the file is read back as it was, as JSON is; a file that cannot be read or is no object of JSON
-- is `unreadable`.
use deepseek_harness.Common.{
  Text, text_eq, Bool, true, false, not, ◌&&◌, Option, none, some, List, [], ◌∷◌, ◌==◌, nat_eq, map,
  find, if◌then◌else◌,
}
use deepseek_harness.Common.JsMap.{JsMap, get, set}
use deepseek_harness.Supervisor.Output.{units}
use deepseek_harness.Policy.Reasoning.{lower_all}
use deepseek_harness.Update.Check.{ends_with}

-- `path.join`, `existsSync` and `JSON.stringify` of a text.
pub record McpHost : Type 0 where
  pub dirname : Text
  pub join : List Text → Text
  pub exists_sync : Text → Bool
  pub stringify : Text → Text

pub record ManagedMcpServer : Type 0 where
  pub id : Text
  pub server_name : Text
  pub command : Text
  pub args : List Text
  pub cwd : Text
  pub project_activation : Option (Text × Text)

pub record EmbeddedMcpOptions : Type 0 where
  pub uvx_command : Option Text
  pub serena_launcher_path : Option Text
  pub server_overrides : JsMap Text (Text × Option (List Text))

-- Each server with its `enabled`.
abbrev pub EmbeddedMcpConfig : Type 0
EmbeddedMcpConfig = List (ManagedMcpServer × Bool)

-- The members of a server of the file that have the type that they should.
pub record RawServer : Type 0 where
  pub id : Option Text
  pub command : Option Text
  pub enabled : Option Bool

-- What is in the file; `none` where `servers` is no array.
pub data ConfigFile : Type 0 where
  absent unreadable : ConfigFile
  stored : Option (List RawServer) → ConfigFile

abbrev pub process_cwd : Text
process_cwd = units "$process.cwd"

abbrev pub serena : Text
serena = units "serena"

abbrev pub free_search : Text
free_search = units "free-search"

abbrev pub set_all : List (Text × Bool) → JsMap Text Bool → JsMap Text Bool
set_all [] flags = flags
set_all ((id, enabled) ∷ more) flags = set_all more (set id enabled flags)

module _ (h : McpHost) where
  abbrev pub vendored_candidates : Text → List Text
  vendored_candidates subpath =
      h.join (
        h.dirname
        ∷ units ".."
        ∷ units ".."
        ∷ units ".."
        ∷ units "resources"
        ∷ units "freecode"
        ∷ subpath
        ∷ [])
      ∷ h.join (
          h.dirname ∷ units ".." ∷ units ".." ∷ units "resources" ∷ units "freecode" ∷ subpath ∷ [])
      ∷ []

  abbrev pub or_subpath : Text → Option Text → Text
  or_subpath subpath none = subpath
  or_subpath subpath (some path) = path

  abbrev pub resolve_vendored_mcp_exe : Text → Text
  resolve_vendored_mcp_exe subpath =
      or_subpath subpath (find h.exists_sync (vendored_candidates subpath))

  unfoldable pub base_server_definitions : List ManagedMcpServer
  base_server_definitions =
      record {
        id = serena;
        server_name = units "serena";
        command = resolve_vendored_mcp_exe (units ".uv-tools/serena-agent/Scripts/serena.exe");
        args = units "start-mcp-server" ∷ units "--context" ∷ units "claude-code" ∷ [];
        cwd = process_cwd;
        project_activation = some (units "activate_project", units "project");
      }
      ∷ record {
        id = free_search;
        server_name = units "free-search";
        command =
            resolve_vendored_mcp_exe
              (units ".uv-tools/free-search-mcp/Scripts/free-search-mcp.exe");
        args = [];
        cwd = process_cwd;
        project_activation = none;
      }
      ∷ []

  abbrev pub or_args : Option (List Text) → List Text → List Text
  or_args none args = args
  or_args (some args) old = args

  abbrev pub or_command : Option Text → Text → Text
  or_command none command = command
  or_command (some command) old = command

  abbrev pub with_uvx : Option Text → ManagedMcpServer → ManagedMcpServer
  with_uvx none s = s
  with_uvx (some uvx) s = if s.command == units "uvx" then record s { command = uvx } else s

  abbrev pub with_launcher : EmbeddedMcpOptions → Option Text → ManagedMcpServer → ManagedMcpServer
  with_launcher o none s = with_uvx o.uvx_command s
  with_launcher o (some launcher) s =
      if s.id == serena
      then record s {
        command = or_command o.uvx_command s.command;
        args =
            units "--from"
            ∷ units "git+https://github.com/oraios/serena"
            ∷ units "python"
            ∷ launcher
            ∷ units "start-mcp-server"
            ∷ units "--context"
            ∷ units "claude-code"
            ∷ [];
      }
      else with_uvx o.uvx_command s

  abbrev pub with_override :
      EmbeddedMcpOptions → Option (Text × Option (List Text)) → ManagedMcpServer → ManagedMcpServer
  with_override o none s = with_launcher o o.serena_launcher_path s
  with_override o (some (command, args)) s = record s {
    command = command;
    args = or_args args s.args;
  }

  abbrev pub definition : EmbeddedMcpOptions → ManagedMcpServer → ManagedMcpServer
  definition o s = with_override o (get s.id o.server_overrides) s

  unfoldable pub definitions : EmbeddedMcpOptions → List ManagedMcpServer
  definitions o = map (definition o) base_server_definitions

  abbrev pub default_config : EmbeddedMcpOptions → EmbeddedMcpConfig
  default_config o = map (λ s. (s, true)) (definitions o)

  abbrev pub is_serena : Option Text → Bool
  is_serena none = false
  is_serena (some id) = id == serena

  abbrev pub has_command : Option Text → Bool
  has_command none = false
  has_command (some command) = true

  abbrev pub command_of : Option RawServer → Option Text
  command_of none = none
  command_of (some s) = s.command

  abbrev pub is_uvx_path : Text → Bool
  is_uvx_path command = ends_with (units "uvx.exe") (lower_all command)

  abbrev pub kept_command : Option Text → Option Text
  kept_command none = none
  kept_command (some command) =
      if h.exists_sync command && not (is_uvx_path command)
      then none
      else if command == units "uvx"
      then none
      else if not (is_uvx_path command)
      then none
      else if h.exists_sync command
      then some command
      else none

  abbrev pub persisted_uvx_command : Option (List RawServer) → Option Text
  persisted_uvx_command none = none
  persisted_uvx_command (some servers) =
      kept_command (command_of (find (λ s. is_serena s.id && has_command s.command) servers))

  abbrev pub resolved_options :
      EmbeddedMcpOptions → Option Text → Option (List RawServer) → EmbeddedMcpOptions
  resolved_options o (some uvx) raw = o
  resolved_options o none raw = record {
    uvx_command = persisted_uvx_command raw;
    serena_launcher_path = none;
    server_overrides = [];
  }

  -- `new Map(servers.filter(...).map(...))`.
  abbrev pub flag_of : Option Text → Option Bool → List (Text × Bool)
  flag_of none enabled = []
  flag_of (some id) none = []
  flag_of (some id) (some enabled) = (id, enabled) ∷ []

  abbrev pub flags_from : JsMap Text Bool → List RawServer → JsMap Text Bool
  flags_from flags [] = flags
  flags_from flags (s ∷ servers) = flags_from (set_all (flag_of s.id s.enabled) flags) servers

  abbrev pub raw_flags : Option (List RawServer) → JsMap Text Bool
  raw_flags none = []
  raw_flags (some servers) = flags_from [] servers

  abbrev pub or_true : Option Bool → Bool
  or_true none = true
  or_true (some enabled) = enabled

  abbrev pub with_flags : JsMap Text Bool → List ManagedMcpServer → EmbeddedMcpConfig
  with_flags flags servers = map (λ s. (s, or_true (get s.id flags))) servers

  unfoldable pub read_config : EmbeddedMcpOptions → ConfigFile → EmbeddedMcpConfig
  read_config o absent = default_config o
  read_config o unreadable = default_config o
  read_config o (stored raw) =
      with_flags (raw_flags raw) (definitions (resolved_options o o.uvx_command raw))
