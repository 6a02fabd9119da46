-- ===== src/Models/Seed.antt =====
-- apps/shell/src/main/provider-seeder.ts: `seedProviders`, on the parsed settings.
use deepseek_harness.Common.{
  Text, text_eq, Bool, true, false, not, ◌&&◌, ◌||◌, Option, none, some, List, [], ◌∷◌, contains,
  ◌==◌, if◌then◌else◌,
}
use deepseek_harness.Common.JsMap.{JsMap, get, set, delete}
use deepseek_harness.Supervisor.Output.{units}
use deepseek_harness.Policy.Reasoning.{
  reasoning_efforts_for_model, compat_for_model, is_deepseek_model,
}
use deepseek_harness.Models.Settings.{
  ModelObject, ModelEntry, name, object, neither, ProviderEntry, DefaultModel, Settings,
  efforts_json, with_compat, free_provider,
}

pub record SeederConfig : Type 0 where
  pub lb_base_url : Text
  pub api_key_env : Option Text

abbrev pub free_provider_display_name : Text
free_provider_display_name = units "OpenCode Free Pool"

abbrev pub legacy_display_names : List Text
legacy_display_names = units "DeepSeek Free (pool)" ∷ units "DeepSeek Free Pool" ∷ []

abbrev pub fallback_id : Text
fallback_id = units "x-preview-f"

-- `cloneFallbackModels()`.
unfoldable pub fallback_models : List ModelEntry
fallback_models =
    object (record {
      id = some fallback_id;
      reasoning_efforts = some (efforts_json (reasoning_efforts_for_model fallback_id));
      compat = none;
      rest = [];
    })
    ∷ []

-- Whether two values have the same `JSON.stringify`.
abbrev pub same_json : Option Text → Option Text → Bool
same_json none none = true
same_json (some a) (some b) = a == b
same_json _ _ = false

abbrev pub same_entries : JsMap Text Text → JsMap Text Text → Bool
same_entries [] [] = true
same_entries ((j, v) ∷ m) ((k, w) ∷ n) = j == k && v == w && same_entries m n
same_entries _ _ = false

abbrev pub same_compat : Option (JsMap Text Text) → JsMap Text Text → Bool
same_compat none merged = false
same_compat (some compat) merged = same_entries compat merged

abbrev pub entries_of : Option (JsMap Text Text) → JsMap Text Text
entries_of none = []
entries_of (some compat) = compat

-- An entry with the id that it has, and whether it was changed.
abbrev pub normalize_as : ModelObject → Text → Bool → ModelObject × Bool
normalize_as o id true =
    let desired = efforts_json (reasoning_efforts_for_model id) in
    let merged = with_compat (entries_of o.compat) in
    if same_json o.reasoning_efforts (some desired) && same_compat o.compat merged
    then (o, false)
    else (record o { reasoning_efforts = some desired; compat = some merged }, true)
normalize_as o id false =
    let desired = efforts_json (reasoning_efforts_for_model id) in
    if same_json o.reasoning_efforts (some desired)
    then (o, false)
    else (record o { reasoning_efforts = some desired }, true)

abbrev pub normalize_object : ModelObject → Option Text → ModelObject × Bool
normalize_object o none = (o, false)
normalize_object o (some id) = normalize_as o id (compat_for_model id)

unfoldable pub normalize_entry : ModelEntry → ModelEntry × Bool
normalize_entry (name text) = (name text, false)
normalize_entry (neither value) = (neither value, false)
normalize_entry (object o) = (object (normalize_object o o.id).0, (normalize_object o o.id).1)

unfoldable pub normalize_model_entries : List ModelEntry → List ModelEntry × Bool
unfolding normalize_entry
normalize_model_entries [] = ([], false)
normalize_model_entries (e ∷ es) = (
  (normalize_entry e).0 ∷ (normalize_model_entries es).0,
  (normalize_entry e).1 || (normalize_model_entries es).1,
)

-- Each change of an existing entry: the new value of the field, and whether it is one.
abbrev pub fix_display_name : Option Text → Option Text × Bool
fix_display_name none = (some free_provider_display_name, true)
fix_display_name (some []) = (some free_provider_display_name, true)
fix_display_name (some (c ∷ cs)) =
    if contains legacy_display_names (c ∷ cs)
    then (some free_provider_display_name, true)
    else (some (c ∷ cs), false)

abbrev pub fix_models : Option (List ModelEntry) → Option (List ModelEntry) × Bool
unfolding normalize_model_entries fallback_models
fix_models none = (none, false)
fix_models (some []) = (some (normalize_model_entries fallback_models).0, true)
fix_models (some (e ∷ es)) =
    (some (normalize_model_entries (e ∷ es)).0, (normalize_model_entries (e ∷ es)).1)

abbrev pub is_set {ℓ} : {A : Type ℓ} → Option A → Bool
is_set none = false
is_set (some a) = true

unfoldable pub seed_existing : SeederConfig → ProviderEntry → ProviderEntry × Bool
unfolding normalize_model_entries fallback_models
seed_existing cfg p = (
  record p {
    display_name = (fix_display_name p.display_name).0;
    base_url = cfg.lb_base_url;
    models = (fix_models p.models).0;
    reasoning = none;
  },
  (fix_display_name p.display_name).1
      || not (p.base_url == cfg.lb_base_url)
      || (fix_models p.models).1
      || is_set p.reasoning,
)

abbrev pub key_env : Option Text → Text
key_env none = units "FREECODE_PUBLIC_KEY"
key_env (some env) = env

unfoldable pub new_entry : SeederConfig → ProviderEntry
unfolding fallback_models
new_entry cfg = record {
  display_name = some free_provider_display_name;
  api = units "openai-completions";
  base_url = cfg.lb_base_url;
  api_key_env = some (key_env cfg.api_key_env);
  default_input = units "text" ∷ [];
  models = some fallback_models;
  compat = some ((units "thinkingFormat", units "\"deepseek\"") ∷ []);
  reasoning = none;
}

unfoldable pub seed_free : SeederConfig → Option ProviderEntry → ProviderEntry × Bool
unfolding seed_existing new_entry
seed_free cfg none = (new_entry cfg, true)
seed_free cfg (some p) = seed_existing cfg p

abbrev pub perplexity : Text
perplexity = units "perplexity-free"

abbrev pub gemini : Text
gemini = units "gemini-web"

abbrev pub is_named : Text → Option ProviderEntry → Bool
is_named label none = false
is_named label (some p) = elim p.display_name [ none ↦ false | some d ↦ d == label ]

-- The routes of older releases are removed.
unfoldable pub remove_perplexity : JsMap Text ProviderEntry → JsMap Text ProviderEntry × Bool
remove_perplexity providers =
    if is_named (units "Perplexity Free (local)") (get perplexity providers)
    then (delete perplexity providers, true)
    else (providers, false)

unfoldable pub remove_gemini : JsMap Text ProviderEntry → JsMap Text ProviderEntry × Bool
remove_gemini providers =
    if is_set (get gemini providers) then (delete gemini providers, true) else (providers, false)

abbrev pub first_id : List ModelEntry → Text
first_id [] = fallback_id
first_id (name text ∷ rest) = first_id rest
first_id (neither value ∷ rest) = first_id rest
first_id (object o ∷ rest) = elim o.id [ none ↦ first_id rest | some id ↦ id ]

abbrev pub first_model : Option ProviderEntry → Text
first_model none = fallback_id
first_model (some p) = elim p.models [ none ↦ fallback_id | some entries ↦ first_id entries ]

abbrev pub is_free : Option Text → Bool
is_free none = false
is_free (some provider) = provider == free_provider

abbrev pub is_deepseek : Option Text → Bool
is_deepseek none = false
is_deepseek (some model) = is_deepseek_model model

abbrev pub points_to : Text → DefaultModel
points_to model = record {
  provider = some free_provider;
  model = some model;
  reasoning_effort = none;
}

unfoldable pub seed_default : Text → Option DefaultModel → Option DefaultModel × Bool
seed_default first none = (some (points_to first), true)
seed_default first (some d) =
    if not (is_free d.provider)
    then (some (points_to first), true)
    else if is_set d.reasoning_effort && not (is_deepseek d.model)
    then (some (record d { reasoning_effort = none }), true)
    else (some d, false)

pub record Seeded : Type 0 where
  pub seeded : Bool
  pub settings : Settings
  pub marks : Bool  -- the marker file is written

-- The settings file is written where `seeded` is set.
unfoldable pub seed_providers : SeederConfig → Settings → Seeded
seed_providers cfg s =
    let existing = get free_provider s.providers in
    let free = seed_free cfg existing in
    let placed = set free_provider free.0 s.providers in
    let without_perplexity = remove_perplexity placed in
    let without_gemini = remove_gemini without_perplexity.0 in
    let default = seed_default (first_model (get free_provider without_gemini.0)) s.default_model in
    let seeded = free.1 || without_perplexity.1 || without_gemini.1 || default.1 in
    record {
      seeded = seeded;
      settings = record { providers = without_gemini.0; default_model = default.0 };
      marks = seeded && not (is_set existing);
    }
