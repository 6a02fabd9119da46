-- ===== src/Models/Examples.antt =====
-- Concrete catalogues and settings: tests of apps/shell/src/main/model-refresher.ts and
-- provider-seeder.ts, and each theorem at one of them.
use deepseek_harness.Common.{
  String, text_eq, Bool, true, false, ◌||◌, none, some, List, [], ◌∷◌, ◌≡◌, refl, contains,
}
use deepseek_harness.Supervisor.Output.{units}
use deepseek_harness.Models.Settings.{name, ProviderEntry, Settings, free_provider}
use deepseek_harness.Models.Probe.{CatalogModel, ProviderRefreshTarget, Sort, provider_base_url}
use deepseek_harness.Models.Refresh.{sync_provider, entry_ids, list_of}
use deepseek_harness.Models.Sync.{Permutes, responds_as, is_exposed, sync_provider_offers}
use deepseek_harness.Models.Seed.{SeederConfig, seed_providers, gemini}
use deepseek_harness.Models.Idempotence.{seed_providers-seed_providers}

-- A sort that leaves the order alone.
abbrev sort : Sort
sort f xs = xs

permutes : Permutes sort
permutes = record { sized = λ f xs. refl; counted = λ f xs p. refl }

abbrev target : ProviderRefreshTarget
target = record {
  provider = units "p";
  base_url = units "http://h//";
  probe_models = true;
  always_exposed_models = units "x" ∷ [];
  fallback_models = units "f" ∷ units "a" ∷ [];
}

abbrev model : String → Bool → CatalogModel
model id responds = record {
  id = units id;
  responds = responds;
  latency_ms = some 5;
  last_seen = 1;
}

abbrev provider : ProviderEntry
provider = record {
  display_name = none;
  api = [];
  base_url = [];
  api_key_env = none;
  default_input = [];
  models = some (name (units "a") ∷ []);
  compat = none;
  reasoning = some [];
}

abbrev answered : List CatalogModel
answered = model "a" true ∷ model "b" false ∷ model "x" false ∷ []

abbrev silent : List CatalogModel
silent = model "a" false ∷ model "x" false ∷ []

sync_provider_offers_example :
    contains (entry_ids (list_of (sync_provider sort target answered provider).models)) (units "x")
    ≡ (responds_as (units "x") answered || is_exposed target (units "x") answered)
sync_provider_offers_example =
    sync_provider_offers sort permutes target answered provider (units "x") refl

-- A test: the address of a provider.
address : provider_base_url (units "http://h//") ≡ units "http://h/v1"
unfolding provider_base_url
address = refl

abbrev cfg : SeederConfig
cfg = record { lb_base_url = units "http://h/v1"; api_key_env = none }

abbrev settings : Settings
settings = record {
  providers = (free_provider, provider) ∷ (gemini, provider) ∷ [];
  default_model = none;
}

seed_providers-seed_providers_example :
    seed_providers cfg (seed_providers cfg settings).settings
    ≡ record { seeded = false; settings = (seed_providers cfg settings).settings; marks = false }
seed_providers-seed_providers_example = seed_providers-seed_providers cfg settings
