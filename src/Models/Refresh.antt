-- ===== src/Models/Refresh.antt =====
-- apps/shell/src/main/model-refresher.ts: `refreshModels` and what it calls. What the routes answer is an
-- argument, and so is JavaScript's `sort`: its result is left open where the comparison is not
-- consistent, as here.
use deepseek_harness.Common.{
  Text, text_eq, ℕ, Bool, true, false, not, ◌||◌, Option, none, some, List, [], ◌∷◌, ◌++◌, map,
  filter, contains, ◌==◌, nat_eq, if◌then◌else◌,
}
use deepseek_harness.Common.JsMap.{JsMap, get, set}
use deepseek_harness.Supervisor.Output.{units}
use deepseek_harness.Models.Settings.{
  ModelEntry, name, object, neither, ProviderEntry, Settings, model_settings_for_model,
  free_provider,
}
use deepseek_harness.Models.Probe.{
  CatalogModel, ProviderRefreshTarget, preview, ModelsAnswer, list_model_ids, Probe, probe_models,
  compare_latency, Sort, provider_base_url,
}

abbrev pub new_provider : ProviderRefreshTarget → ProviderEntry
unfolding provider_base_url
new_provider target =
    let is_free = target.provider == free_provider in
    record {
      display_name = none;
      api = units "openai-completions";
      base_url = provider_base_url target.base_url;
      api_key_env = if is_free then some (units "FREECODE_PUBLIC_KEY") else none;
      default_input = if is_free then units "text" ∷ [] else units "text" ∷ units "image" ∷ [];
      models = some [];
      compat = none;
      reasoning = none;
    }

abbrev pub ids : List CatalogModel → List Text
ids entries = map (λ m. m.id) entries

-- `typeof model === 'string' ? model : model?.id`, for the ids that are texts.
abbrev pub entry_id : ModelEntry → Option Text
entry_id (name text) = some text
entry_id (object o) = o.id
entry_id (neither value) = none

abbrev pub entry_ids : List ModelEntry → List Text
entry_ids [] = []
entry_ids (e ∷ es) = elim (entry_id e) [ none ↦ entry_ids es | some id ↦ id ∷ entry_ids es ]

abbrev pub list_of : Option (List ModelEntry) → List ModelEntry
list_of none = []
list_of (some entries) = entries

unfoldable pub advertised : ProviderRefreshTarget → List CatalogModel → List CatalogModel
advertised target entries = filter (λ m. contains target.always_exposed_models m.id) entries

unfoldable pub responders : Sort → List CatalogModel → List CatalogModel
unfolding compare_latency
responders sort entries =
    sort (λ a b. compare_latency a.latency_ms b.latency_ms) (filter (λ m. m.responds) entries)

abbrev pub settings_for : List Text → List ModelEntry
unfolding model_settings_for_model
settings_for [] = []
settings_for (id ∷ rest) = model_settings_for_model id ∷ settings_for rest

-- The ids of a provider with responders.
unfoldable pub responding_ids : Sort → ProviderRefreshTarget → List CatalogModel → List Text
unfolding responders advertised
responding_ids sort target entries =
    let found = ids (responders sort entries) in
    found ++ filter (λ id. not (contains found id)) (ids (advertised target entries))

-- The ids that a degraded provider is given besides those that it has. Each `filter` is over before the
-- `map` after it has noted any id.
unfoldable pub fallback_ids : ProviderRefreshTarget → List Text → List Text
fallback_ids target current = filter (λ id. not (contains current id)) target.fallback_models

unfoldable pub fallback_advertised :
    ProviderRefreshTarget → List CatalogModel → List Text → List Text
unfolding advertised
fallback_advertised target entries noted =
    filter (λ id. not (contains noted id)) (ids (advertised target entries))

unfoldable pub added_ids : ProviderRefreshTarget → List CatalogModel → List Text → List Text
unfolding fallback_ids fallback_advertised
added_ids target entries current =
    let fallback = fallback_ids target current in
    fallback ++ fallback_advertised target entries (current ++ fallback)

-- Where nothing is added the list is not written, so that a value that is no list stays.
abbrev pub degraded_models : Option (List ModelEntry) → List Text → Option (List ModelEntry)
unfolding model_settings_for_model
degraded_models models [] = models
degraded_models models (id ∷ rest) = some (list_of models ++ settings_for (id ∷ rest))

abbrev pub synced_models :
    Sort
    → ProviderRefreshTarget
    → List CatalogModel
    → Option (List ModelEntry)
    → List CatalogModel
    → Option (List ModelEntry)
unfolding model_settings_for_model responding_ids added_ids
synced_models sort target entries models [] =
    degraded_models models (added_ids target entries (entry_ids (list_of models)))
synced_models sort target entries models (r ∷ rs) =
    some (settings_for (responding_ids sort target entries))

abbrev pub or_new : Option ProviderEntry → ProviderRefreshTarget → ProviderEntry
unfolding provider_base_url
or_new none target = new_provider target
or_new (some p) target = p

unfoldable pub sync_provider :
    Sort → ProviderRefreshTarget → List CatalogModel → ProviderEntry → ProviderEntry
unfolding responding_ids added_ids responders model_settings_for_model
sync_provider sort target entries p = record p {
  models = synced_models sort target entries p.models (responders sort entries);
}

unfoldable pub sync_provider_models :
    Sort
    → JsMap Text ProviderEntry
    → ProviderRefreshTarget
    → List CatalogModel
    → JsMap Text ProviderEntry
unfolding sync_provider provider_base_url
sync_provider_models sort providers target entries =
    set target.provider
      (sync_provider sort target entries (or_new (get target.provider providers) target)) providers

-- The targets of a refresh: the pool, and the configured ones that are not the pool.
unfoldable pub targets : Text → List ProviderRefreshTarget → List ProviderRefreshTarget
targets lb_base_url configured =
    record {
      provider = free_provider;
      base_url = lb_base_url;
      probe_models = true;
      always_exposed_models = preview ∷ [];
      fallback_models = preview ∷ [];
    }
    ∷ filter (λ t. not (t.provider == free_provider)) configured

pub data Availability : Type 0 where
  ready degraded : Availability

pub record ModelCatalog : Type 0 where
  pub refreshed_at : ℕ
  pub availability : Availability
  pub providers : JsMap Text (List CatalogModel)

abbrev pub Results : Type 0
Results = List (ProviderRefreshTarget × List CatalogModel)

-- What a target answers: to `/models`, and to the probe of each model.
abbrev pub entries_of :
    ProviderRefreshTarget → ModelsAnswer → (Text → Probe) → ℕ → Option (List CatalogModel)
unfolding list_model_ids probe_models
entries_of target answer probe now = elim (list_model_ids answer) [
  | none ↦ none
  | some listed ↦ some (probe_models target.probe_models listed probe now)
]

abbrev pub or_empty : Option (List CatalogModel) → List CatalogModel
or_empty none = []
or_empty (some entries) = entries

abbrev pub any_responds : List CatalogModel → Bool
any_responds [] = false
any_responds (m ∷ ms) = m.responds || any_responds ms

abbrev pub any_ready : Results → Bool
any_ready [] = false
any_ready ((t, entries) ∷ rest) = any_responds entries || any_ready rest

abbrev pub catalog_entries :
    JsMap Text (List CatalogModel) → Results → JsMap Text (List CatalogModel)
catalog_entries out [] = out
catalog_entries out ((t, entries) ∷ rest) = catalog_entries (set t.provider entries out) rest

module _ (sort : Sort) (answer : Text → ModelsAnswer) (probe : Text → Text → Probe) (now : ℕ) where
  abbrev pub optional_results : List ProviderRefreshTarget → Results
  unfolding list_model_ids probe_models
  optional_results [] = []
  optional_results (t ∷ ts) =
      (t, or_empty (entries_of t (answer t.base_url) (probe t.base_url) now)) ∷ optional_results ts

  -- The first target has to answer; `none`: it throws.
  abbrev pub results_of : List ProviderRefreshTarget → Option Results
  unfolding list_model_ids probe_models
  results_of [] = some []
  results_of (t ∷ ts) = elim (entries_of t (answer t.base_url) (probe t.base_url) now) [
    | none ↦ none
    | some entries ↦ some ((t, entries) ∷ optional_results ts)
  ]

  abbrev pub catalog_of : Results → ModelCatalog
  catalog_of results = record {
    refreshed_at = now;
    availability = if any_ready results then ready else degraded;
    providers = catalog_entries [] results;
  }

  unfoldable pub sync_all : JsMap Text ProviderEntry → Results → JsMap Text ProviderEntry
  unfolding sync_provider_models
  sync_all providers [] = providers
  sync_all providers ((t, entries) ∷ rest) =
      sync_all (sync_provider_models sort providers t entries) rest

  -- `none`: it throws, and writes neither the catalogue nor the settings.
  unfoldable pub refresh_models :
      Text → List ProviderRefreshTarget → Settings → Option (ModelCatalog × Settings)
  unfolding targets sync_all list_model_ids probe_models
  refresh_models lb_base_url configured settings =
      elim (results_of (targets lb_base_url configured)) [
        | none ↦ none
        | some results ↦ some (
          catalog_of results,
          record settings { providers = sync_all settings.providers results },
        )
      ]
