-- ===== src/Models/Probe.antt =====
-- apps/shell/src/main/model-refresher.ts: the answers of the routes, the order by latency, and the URLs.
use deepseek_harness.Common.{
  Text, text_eq, ℕ, ◌+◌, ◌-◌, Bool, true, false, Option, none, some, List, [], ◌∷◌, ◌++◌, map,
  reverse, ltb, leb, ◌==◌, nat_eq, if◌then◌else◌,
}
use deepseek_harness.Supervisor.Output.{units}
use deepseek_harness.Policy.Reasoning.{starts_with}

pub record CatalogModel : Type 0 where
  pub id : Text
  pub responds : Bool
  pub latency_ms : Option ℕ
  pub last_seen : ℕ

pub record ProviderRefreshTarget : Type 0 where
  pub provider : Text
  pub base_url : Text
  pub probe_models : Bool  -- not set to false
  pub always_exposed_models : List Text
  pub fallback_models : List Text

abbrev pub preview : Text
preview = units "x-preview-f"

-- The answer of a route to `/models`: no answer, a status that is not ok, no list, or the ids, `none`
-- for an entry without one.
pub data ModelsAnswer : Type 0 where
  no_answer not_ok no_list : ModelsAnswer
  lists : List (Option Text) → ModelsAnswer

abbrev pub ids_of : List (Option Text) → List Text
ids_of [] = []
ids_of (none ∷ rest) = ids_of rest
ids_of (some id ∷ rest) = id ∷ ids_of rest

abbrev pub non_empty_ids : List Text → Option (List Text)
non_empty_ids [] = none
non_empty_ids (id ∷ ids) = some (id ∷ ids)

-- `none`: it throws `CATALOG_UNAVAILABLE`.
unfoldable pub list_model_ids : ModelsAnswer → Option (List Text)
list_model_ids (lists entries) = non_empty_ids (ids_of entries)
list_model_ids no_answer = none
list_model_ids not_ok = none
list_model_ids no_list = none

-- The answer to the probe of a model: none in time, or whether it is ok and after how long.
pub data Probe : Type 0 where
  silent : Probe
  answers : Bool → ℕ → Probe

abbrev pub probed : Text → ℕ → Probe → CatalogModel
probed id now silent = record { id = id; responds = false; latency_ms = none; last_seen = now }
probed id now (answers ok ms) = record {
  id = id;
  responds = ok;
  latency_ms = some ms;
  last_seen = now;
}

unfoldable pub probe_models : Bool → List Text → (Text → Probe) → ℕ → List CatalogModel
probe_models probing ids probe now =
    if probing
    then map (λ id. probed id now (probe id)) ids
    else map (λ id. record { id = id; responds = true; latency_ms = none; last_seen = now }) ids

-- What the comparison function of the sort says: nothing, or which of the two comes first.
pub data Comparison : Type 0 where
  ties first_before second_before : Comparison

-- `none` stands for `Infinity`; the difference of two is no number, which counts as a tie.
unfoldable pub compare_latency : Option ℕ → Option ℕ → Comparison
compare_latency none none = ties
compare_latency none (some b) = second_before
compare_latency (some a) none = first_before
compare_latency (some a) (some b) =
    if leb ((a - b) + (b - a)) 1 then ties else if ltb a b then first_before else second_before

abbrev pub Sort : Type 0
Sort = (CatalogModel → CatalogModel → Comparison) → List CatalogModel → List CatalogModel

abbrev pub strip_slashes : Text → Text
strip_slashes [] = []
strip_slashes (c ∷ cs) = if c == 47 then strip_slashes cs else c ∷ cs

-- `baseUrl.replace(/\/+$/u, '')`, with `/v1` at the end.
unfoldable pub provider_base_url : Text → Text
provider_base_url base_url =
    let base = reverse (strip_slashes (reverse base_url)) in
    if starts_with (reverse (units "/v1")) (reverse base) then base else base ++ units "/v1"

unfoldable pub endpoint_url : Text → Text → Text
unfolding provider_base_url
endpoint_url base_url suffix = provider_base_url base_url ++ suffix
