-- ===== src/Models/Settings.antt =====
-- The part of settings.yaml that apps/shell/src/main/model-refresher.ts and provider-seeder.ts read and
-- write. A value that the code only compares by `JSON.stringify` is the text that this gives.
use deepseek_harness.Common.{Text, text_eq, Option, none, some, List, [], if◌then◌else◌}
use deepseek_harness.Common.JsMap.{JsMap, set}
use deepseek_harness.Supervisor.Output.{units}
use deepseek_harness.Policy.Reasoning.{
  Efforts, no_reasoning, off_high, off_low_high, off_low_high_max, reasoning_efforts_for_model,
  compat_for_model,
}

-- An entry of a `models` list that is an object. `id` is `none` where it is no text; `rest` stands for
-- its other fields.
pub record ModelObject : Type 0 where
  pub id : Option Text
  pub reasoning_efforts : Option Text
  pub compat : Option (JsMap Text Text)
  pub rest : Text

-- An entry of a `models` list: a text, an object, or neither.
pub data ModelEntry : Type 0 where
  name : Text → ModelEntry
  object : ModelObject → ModelEntry
  neither : Text → ModelEntry

-- A provider; `models` is `none` where it is no list.
pub record ProviderEntry : Type 0 where
  pub display_name : Option Text
  pub api : Text
  pub base_url : Text
  pub api_key_env : Option Text
  pub default_input : List Text
  pub models : Option (List ModelEntry)
  pub compat : Option (JsMap Text Text)
  pub reasoning : Option Text

pub record DefaultModel : Type 0 where
  pub provider : Option Text
  pub model : Option Text
  pub reasoning_effort : Option Text

-- The section `llm-pi-ai` with its providers, and the section `agent-default-model`.
pub record Settings : Type 0 where
  pub providers : JsMap Text ProviderEntry
  pub default_model : Option DefaultModel

-- `JSON.stringify` of a `ModelReasoningEfforts`.
abbrev pub efforts_json : Efforts → Text
efforts_json no_reasoning = units "false"
efforts_json off_high = units "{\"off\":null,\"high\":\"high\"}"
efforts_json off_low_high = units "{\"off\":null,\"low\":\"low\",\"high\":\"high\"}"
efforts_json off_low_high_max =
    units "{\"off\":null,\"low\":\"low\",\"high\":\"high\",\"max\":\"max\"}"

-- `{ ...compat, thinkingFormat: 'deepseek', supportsReasoningEffort: false }`.
abbrev pub with_compat : JsMap Text Text → JsMap Text Text
with_compat compat =
    set (units "supportsReasoningEffort") (units "false")
      (set (units "thinkingFormat") (units "\"deepseek\"") compat)

-- `modelSettingsForModel`.
unfoldable pub model_settings_for_model : Text → ModelEntry
unfolding reasoning_efforts_for_model compat_for_model
model_settings_for_model id = object (record {
  id = some id;
  reasoning_efforts = some (efforts_json (reasoning_efforts_for_model id));
  compat = if compat_for_model id then some (with_compat []) else none;
  rest = [];
})

abbrev pub free_provider : Text
free_provider = units "deepseek-free"
