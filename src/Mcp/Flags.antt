-- ===== src/Mcp/Flags.antt =====
-- apps/shell/src/main/mcp-home.ts: the flags of the servers, through the file.
use deepseek_harness.Common.{
  Text, text_eq, Bool, true, false, Option, none, some, List, [], ◌∷◌, ◌≡◌, refl, ap, ◌∙◌, nat_eq,
  map, ◌==◌, ◌||◌, arith, if◌then◌else◌, Bool-cases, inl, inr,
}
use deepseek_harness.Common.JsMap.{JsMap, get, set}
use deepseek_harness.Mcp.Catalogue.{
  McpHost, ManagedMcpServer, EmbeddedMcpOptions, EmbeddedMcpConfig, ConfigFile, stored, absent,
  unreadable, serena, free_search, base_server_definitions, definition, definitions, with_override,
  with_launcher, with_uvx, read_config, with_flags, raw_flags, or_true, resolved_options,
  default_config, flags_from, set_all,
}
use deepseek_harness.Mcp.Home.{Home, EmbeddedMcpState, written, raw_of, toggle, has_id}

-- The ids with their flags.
abbrev pub flags_of : EmbeddedMcpConfig → JsMap Text Bool
flags_of [] = []
flags_of ((s, enabled) ∷ config) = (s.id, enabled) ∷ flags_of config

abbrev pub toggled : Text → Bool → JsMap Text Bool → JsMap Text Bool
toggled id enabled [] = []
toggled id enabled ((i, old) ∷ flags) =
    if i == id then (i, enabled) ∷ flags else (i, old) ∷ toggled id enabled flags

-- The flags of the two servers.
abbrev pub Has : Bool → Bool → EmbeddedMcpConfig → Type 0
Has a b config = flags_of config ≡ (serena, a) ∷ (free_search, b) ∷ []

if-id :
    (b : Bool) (x y : ManagedMcpServer) (id : Text)
    → x.id ≡ id
    → y.id ≡ id
    → (if b then x else y).id ≡ id
if-id true x y id p q = p
if-id false x y id p q = q

toggled_two :
    (id : Text) (enabled a b : Bool)
    → (a' b' : Bool) × (toggled id enabled ((serena, a) ∷ (free_search, b) ∷ [])
        ≡ (serena, a') ∷ (free_search, b') ∷ [])
toggled_two id enabled a b = elim (Bool-cases (serena == id)) [
  | inl first ↦ (enabled, b, rw first refl)
  | inr other ↦ elim (Bool-cases (free_search == id)) [
    | inl second ↦ (a, enabled, rw (other, second) refl)
    | inr unknown ↦ (a, b, rw (other, unknown) refl)
  ]
]

flags_of-toggle :
    (id : Text) (enabled : Bool) (config : EmbeddedMcpConfig) (h : McpHost)
    → flags_of (toggle h id enabled config) ≡ toggled id enabled (flags_of config)
flags_of-toggle id enabled [] h = refl
flags_of-toggle id enabled ((s, old) ∷ config) h = elim (Bool-cases (s.id == id)) [
  | inl here ↦ rw here refl
  | inr later ↦ rw later (ap (λ f. (s.id, old) ∷ f) (flags_of-toggle id enabled config h))
]

either : (x y : Bool) → (if x then true else if y then true else false) ≡ (x || y)
either x y = ground arith

abbrev is_among : Text → JsMap Text Bool → Bool
is_among id [] = false
is_among id ((i, enabled) ∷ flags) = if i == id then true else is_among id flags

has_id-flags :
    (h : McpHost) (id : Text) (config : EmbeddedMcpConfig)
    → has_id h id config ≡ is_among id (flags_of config)
has_id-flags h id [] = refl
has_id-flags h id ((s, enabled) ∷ config) =
    ap (λ later. if s.id == id then true else later) (has_id-flags h id config)

pub has_id-Has :
    (h : McpHost) (id : Text) (a b : Bool) (config : EmbeddedMcpConfig)
    → Has a b config
    → has_id h id config ≡ (serena == id || free_search == id)
has_id-Has h id a b config has =
    has_id-flags h id config ∙ ap (is_among id) has ∙ either (serena == id) (free_search == id)

module _ (h : McpHost) where
  with_uvx-id : (uvx : Option Text) (s : ManagedMcpServer) → (with_uvx h uvx s).id ≡ s.id
  with_uvx-id none s = refl
  with_uvx-id (some uvx) s = if-id _ (record s { command = uvx }) s s.id refl refl

  with_launcher-id :
      (o : EmbeddedMcpOptions) (launcher : Option Text) (s : ManagedMcpServer)
      → (with_launcher h o launcher s).id ≡ s.id
  with_launcher-id o none s = with_uvx-id o.uvx_command s
  with_launcher-id o (some launcher) s =
      if-id _ _ (with_uvx h o.uvx_command s) s.id refl (with_uvx-id o.uvx_command s)

  with_override-id :
      (o : EmbeddedMcpOptions) (override : Option (Text × Option (List Text)))
      (s : ManagedMcpServer)
      → (with_override h o override s).id ≡ s.id
  with_override-id o none s = with_launcher-id o o.serena_launcher_path s
  with_override-id o (some (command, args)) s = refl

  definition-id : (o : EmbeddedMcpOptions) (s : ManagedMcpServer) → (definition h o s).id ≡ s.id
  definition-id o s = with_override-id o (get s.id o.server_overrides) s

  flags_of-definitions :
      (o : EmbeddedMcpOptions) (flag : Text → Bool) (servers : List ManagedMcpServer)
      → flags_of (map (λ s. (s, flag s.id)) (map (definition h o) servers))
        ≡ map (λ s. (s.id, flag s.id)) servers
  flags_of-definitions o flag [] = refl
  flags_of-definitions o flag (s ∷ servers) = cc (
    ap {B = Text × Bool} (λ id. (id, flag id)) (definition-id o s),
    flags_of-definitions o flag servers,
  )

  flags_of-with_flags :
      (o : EmbeddedMcpOptions) (flags : JsMap Text Bool)
      → Has
          (or_true h (get serena flags))
          (or_true h (get free_search flags))
          (with_flags h flags (definitions h o))
  unfolding definitions base_server_definitions
  flags_of-with_flags o flags =
      flags_of-definitions o (λ id. or_true h (get id flags)) (base_server_definitions h)

  flags_of-default_config : (o : EmbeddedMcpOptions) → Has true true (default_config h o)
  unfolding definitions base_server_definitions
  flags_of-default_config o = flags_of-definitions o (λ id. true) (base_server_definitions h)

  flags_from-written :
      (flags : JsMap Text Bool) (config : EmbeddedMcpConfig)
      → flags_from h flags (map (raw_of h) config) ≡ set_all (flags_of config) flags
  flags_from-written flags [] = refl
  flags_from-written flags ((s, enabled) ∷ config) =
      flags_from-written (set s.id enabled flags) config

  -- Some flags, whatever the file is.
  pub read_config-Has :
      (o : EmbeddedMcpOptions) (file : ConfigFile) → (a b : Bool) × Has a b (read_config h o file)
  unfolding read_config
  read_config-Has o absent = (true, true, flags_of-default_config o)
  read_config-Has o unreadable = (true, true, flags_of-default_config o)
  read_config-Has o (stored raw) =
      (_, _, flags_of-with_flags (resolved_options h o o.uvx_command raw) (raw_flags h raw))

  pub read_config-written :
      (o : EmbeddedMcpOptions) (config : EmbeddedMcpConfig) (a b : Bool)
      → Has a b config
      → Has a b (read_config h o (written h config))
  unfolding read_config
  read_config-written o config a b has =
      let raw = some (map (raw_of h) config) in
      flags_of-with_flags (resolved_options h o o.uvx_command raw) (raw_flags h raw)
      ∙ ap
          (λ flags.
            (serena, or_true h (get serena flags))
            ∷ (free_search, or_true h (get free_search flags))
            ∷ [])
          (flags_from-written [] config ∙ ap (λ f. set_all f []) has)

  pub Has-toggle :
      (id : Text) (enabled a b : Bool) (config : EmbeddedMcpConfig)
      → Has a b config
      → (a' b' : Bool) × Has a' b' (toggle h id enabled config)
        × (flags_of (toggle h id enabled config)
            ≡ toggled id enabled ((serena, a) ∷ (free_search, b) ∷ []))
  Has-toggle id enabled a b config has =
      let (a', b', two) = toggled_two id enabled a b in
      let flags = flags_of-toggle id enabled config h ∙ ap (toggled id enabled) has in
      (a', b', flags ∙ two, flags)

-- What `setEmbeddedMcpEnabled` gives when it knows the server.
abbrev pub IsToggled :
    McpHost
    → EmbeddedMcpOptions
    → EmbeddedMcpOptions
    → Text
    → Bool
    → Home
    → Option EmbeddedMcpState × Home
    → Type 0
IsToggled h o next id enabled home (none, home') =
    ((serena == id || free_search == id) ≡ false)
    × (flags_of (read_config h next home'.config) ≡ flags_of (read_config h o home.config))
IsToggled h o next id enabled home (some state, home') =
    ((serena == id || free_search == id) ≡ true)
    × (flags_of state.servers ≡ toggled id enabled (flags_of (read_config h o home.config)))
    × (flags_of (read_config h next home'.config) ≡ flags_of state.servers)
