-- ===== src/Mcp/Toggle.antt =====
-- apps/shell/src/main/mcp-home.ts: a server that is switched stays switched.
use deepseek_harness.Common.{
  Text, text_eq, Bool, true, false, Option, none, some, List, ◌≡◌, refl, sym, ap, ◌∙◌, ◌==◌, ◌||◌,
  if◌then◌else◌,
}
use deepseek_harness.Mcp.Catalogue.{
  McpHost, EmbeddedMcpOptions, EmbeddedMcpConfig, stored, RawServer, serena, free_search,
  read_config, resolved_options, with_flags, raw_flags, definitions,
}
use deepseek_harness.Mcp.Home.{
  Home, write_home, state_of, written, ensure_embedded_mcp_config, set_embedded_mcp_enabled, toggle,
  has_id,
}
use deepseek_harness.Mcp.Flags.{
  flags_of, toggled, Has, Has-toggle, IsToggled, has_id-Has, read_config-Has, read_config-written,
}

toggle_known :
    (h : McpHost) (o next : EmbeddedMcpOptions) (id : Text) (enabled known : Bool)
    (config : EmbeddedMcpConfig) (home home' : Home) (a b : Bool)
    → Has a b (read_config h o home.config)
    → Has a b config
    → home'.config ≡ written h (read_config h o home.config)
    → known ≡ (serena == id || free_search == id)
    → IsToggled h o next id enabled home (
        if known
        then (
          some (state_of h (toggle h id enabled config)),
          write_home h (toggle h id enabled config) home'.patch,
        )
        else (none, home'))
toggle_known h o next id enabled false config home home' a b old has same known = (
  sym known,
  ap (λ file. flags_of (read_config h next file)) same
      ∙ (read_config-written h next (read_config h o home.config) a b old ∙ sym old),
)
toggle_known h o next id enabled true config home home' a b old has same known =
    let (a', b', has', flags) = Has-toggle h id enabled a b config has in
    (
      sym known,
      flags ∙ ap (toggled id enabled) (sym old),
      read_config-written h next (toggle h id enabled config) a' b' has' ∙ sym has',
    )

-- Switching a server changes its flag and no other one, and on the next start the flags are read back so,
-- whatever the options are then. A server is unknown only if it is none of the two; then the flags stay as
-- they were.
pub set_embedded_mcp_enabled-IsToggled :
    (h : McpHost) (o next : EmbeddedMcpOptions) (id : Text) (enabled : Bool) (home : Home)
    → IsToggled h o next id enabled home (set_embedded_mcp_enabled h o id enabled home)
unfolding set_embedded_mcp_enabled ensure_embedded_mcp_config
set_embedded_mcp_enabled-IsToggled h o next id enabled home =
    let config = read_config h o home.config in
    let (a, b, has) = read_config-Has h o home.config in
    let again = read_config-written h o config a b has in
    toggle_known h o next id enabled (has_id h id (read_config h o (written h config)))
      (read_config h o (written h config)) home (write_home h config home.patch) a b has again refl
      (has_id-Has h id a b (read_config h o (written h config)) again)

-- Once the file is there and no uvx was found, the launcher and the overrides of the options are not
-- looked at any more.
stored_config_ignores_options :
    (h : McpHost) (o other : EmbeddedMcpOptions) (raw : Option (List RawServer))
    → o.uvx_command ≡ none
    → other.uvx_command ≡ none
    → read_config h o (stored raw) ≡ read_config h other (stored raw)
unfolding read_config
stored_config_ignores_options h o other raw e f =
    ap (λ uvx. with_flags h (raw_flags h raw) (definitions h (resolved_options h o uvx raw))) e
    ∙ ap (λ uvx. with_flags h (raw_flags h raw) (definitions h (resolved_options h other uvx raw)))
        (sym f)
