-- ===== src/Models/Sync.antt =====
-- apps/shell/src/main/model-refresher.ts: which models a provider offers after a refresh.
use deepseek_harness.Common.{
  Text, text_eq, ℕ, ◌+◌, ◌<◌, Bool, true, false, not, ◌&&◌, ◌||◌, Option, some, List, [], ◌∷◌, ◌++◌,
  filter, contains, length, ltb, ◌==◌, nat_eq, ◌≡◌, refl, sym, ap, ◌∙◌, arith, All, Bool-cases, inl,
  inr, subst, not_true,
}
use mathlib.Core.List.{append-nil}
use deepseek_harness.Common.JsMap.Entries.{All-mono}
use deepseek_harness.Common.Members.{
  contains-append, contains-fresh, fresh-All, nil_of_length, All-append, contains_more,
  contains_later, contains_self,
}
use deepseek_harness.Models.Settings.{
  ModelEntry, name, object, neither, ProviderEntry, model_settings_for_model,
}
use deepseek_harness.Models.Probe.{
  CatalogModel, ProviderRefreshTarget, Comparison, ties, first_before, compare_latency, Sort,
}
use deepseek_harness.Models.Refresh.{
  ids, entry_ids, list_of, advertised, responders, settings_for, responding_ids, fallback_ids,
  fallback_advertised, added_ids, degraded_models, synced_models, sync_provider, any_responds,
}

-- What a sort gives has the elements of its input, as often, whatever the comparison says.
pub record Permutes (sort : Sort) : Type 0 where
  pub sized :
      (f : CatalogModel → CatalogModel → Comparison) (xs : List CatalogModel)
      → length (sort f xs) ≡ length xs
  pub counted :
      (f : CatalogModel → CatalogModel → Comparison) (xs : List CatalogModel)
      (p : CatalogModel → Bool)
      → length (filter p (sort f xs)) ≡ length (filter p xs)

entry_ids-append : (xs ys : List ModelEntry) → entry_ids (xs ++ ys) ≡ entry_ids xs ++ entry_ids ys
entry_ids-append [] ys = refl
entry_ids-append (name text ∷ xs) ys = ap (λ r. text ∷ r) (entry_ids-append xs ys)
entry_ids-append (neither v ∷ xs) ys = entry_ids-append xs ys
entry_ids-append (object o ∷ xs) ys = ground (arith, entry_ids-append xs ys)

entry_ids-settings_for : (xs : List Text) → entry_ids (settings_for xs) ≡ xs
unfolding model_settings_for_model
entry_ids-settings_for [] = refl
entry_ids-settings_for (x ∷ xs) = ap (λ r. x ∷ r) (entry_ids-settings_for xs)

-- The entries that respond under an id.
abbrev pub responds_as : Text → List CatalogModel → Bool
responds_as id [] = false
responds_as id (m ∷ ms) = (m.responds && m.id == id) || responds_as id ms

-- The entries that are shown in any case, by their id.
abbrev pub is_exposed : ProviderRefreshTarget → Text → List CatalogModel → Bool
is_exposed target id [] = false
is_exposed target id (m ∷ ms) =
    (contains target.always_exposed_models m.id && m.id == id) || is_exposed target id ms

contains-count :
    (xs : List CatalogModel) (id : Text)
    → contains (ids xs) id ≡ ltb 0 (length (filter (λ m. m.id == id) xs))
contains-count [] id = refl
contains-count (m ∷ ms) id = ground (arith, contains-count ms id)

responding-contains :
    (xs : List CatalogModel) (id : Text)
    → contains (ids (filter (λ m. m.responds) xs)) id ≡ responds_as id xs
responding-contains [] id = refl
responding-contains (m ∷ ms) id = ground (arith, responding-contains ms id)

advertised-contains :
    (target : ProviderRefreshTarget) (xs : List CatalogModel) (id : Text)
    → contains (ids (advertised target xs)) id ≡ is_exposed target id xs
unfolding advertised
advertised-contains target [] id = refl
advertised-contains target (m ∷ ms) id = ground (arith, advertised-contains target ms id)

silent-nil : (xs : List CatalogModel) → any_responds xs ≡ false → filter (λ m. m.responds) xs ≡ []
silent-nil [] h = refl
silent-nil (m ∷ ms) h = ground (arith, silent-nil ms)

some_found :
    (xs : List CatalogModel) → any_responds xs ≡ true → 0 < length (filter (λ m. m.responds) xs)
some_found [] h = absurd (cc h)
some_found (m ∷ ms) h = ground (arith, some_found ms)

degraded_models_lem :
    (models : Option (List ModelEntry)) (added : List Text)
    → list_of (degraded_models models added) ≡ list_of models ++ settings_for added
unfolding model_settings_for_model
degraded_models_lem models [] = sym (append-nil (list_of models))
degraded_models_lem models (id ∷ rest) = refl

added_fresh :
    (target : ProviderRefreshTarget) (entries : List CatalogModel) (current : List Text)
    → All (λ id. contains current id ≡ false) (added_ids target entries current)
unfolding added_ids
added_fresh target entries current =
    let fallback = fallback_ids target current in
    All-append (λ id. contains current id ≡ false) fallback
      (fallback_advertised target entries (current ++ fallback))
      (unfold fallback_ids in fresh-All current target.fallback_models)
      (All-mono (fallback_advertised target entries (current ++ fallback))
        (λ id h.
          not_true (contains current id) (λ here. cc (h, contains_more current fallback id here)))
        (unfold fallback_advertised in fresh-All (current ++ fallback) _))

fallback_offered :
    (target : ProviderRefreshTarget) (entries : List CatalogModel) (current : List Text)
    → All
        (λ id. contains (current ++ added_ids target entries current) id ≡ true)
        target.fallback_models
unfolding added_ids fallback_ids
fallback_offered target entries current =
    All-mono target.fallback_models
      (λ id h. elim (Bool-cases (contains current id)) [
        | inl here ↦ contains_more current (added_ids target entries current) id here
        | inr absent ↦ contains_later current (added_ids target entries current) id (
            contains_more (fallback_ids target current)
              (fallback_advertised target entries (current ++ fallback_ids target current)) id
              (contains-fresh current target.fallback_models id ∙ rw absent h))
      ])
      (contains_self target.fallback_models)

module _ (sort : Sort) (permutes : Permutes sort) (target : ProviderRefreshTarget) where
  responders_silent :
      (entries : List CatalogModel) → any_responds entries ≡ false → responders sort entries ≡ []
  unfolding responders
  responders_silent entries h =
      nil_of_length (responders sort entries)
        (permutes.sized _ (filter (λ m. m.responds) entries) ∙ ap length (silent-nil entries h))

  responders_sized :
      (entries : List CatalogModel)
      → length (responders sort entries) ≡ length (filter (λ m. m.responds) entries)
  unfolding responders
  responders_sized entries = permutes.sized _ (filter (λ m. m.responds) entries)

  responders-contains :
      (entries : List CatalogModel) (id : Text)
      → contains (ids (responders sort entries)) id ≡ responds_as id entries
  unfolding responders
  responders-contains entries id =
      let found = filter (λ m. m.responds) entries in
      contains-count (responders sort entries) id
      ∙ ap (λ n. ltb 0 n) (permutes.counted _ found (λ m. m.id == id))
      ∙ sym (contains-count found id)
      ∙ responding-contains entries id

  responding_ids-contains :
      (entries : List CatalogModel) (id : Text)
      → contains (responding_ids sort target entries) id
        ≡ (responds_as id entries || is_exposed target id entries)
  unfolding responding_ids
  responding_ids-contains entries id =
      let found = ids (responders sort entries) in
      ground (
        arith,
        contains-append found
            (filter (λ i. not (contains found i)) (ids (advertised target entries))) id,
        contains-fresh found (ids (advertised target entries)) id,
        responders-contains entries id,
        advertised-contains target entries id,
      )

  -- Where some model responds, a provider offers exactly the models that respond and the advertised
  -- ones that are shown in any case.
  pub sync_provider_offers :
      (entries : List CatalogModel) (p : ProviderEntry) (id : Text)
      → any_responds entries ≡ true
      → contains (entry_ids (list_of (sync_provider sort target entries p).models)) id
        ≡ (responds_as id entries || is_exposed target id entries)
  unfolding sync_provider
  sync_provider_offers entries p id h = by_found (responders sort entries) refl
    where
      by_found :
          (found : List CatalogModel)
          → responders sort entries ≡ found
          → contains (entry_ids (list_of (synced_models sort target entries p.models found))) id
            ≡ (responds_as id entries || is_exposed target id entries)
      by_found [] e =
          let none_found : length (responders sort entries) ≡ 0 = ap length e in
          absurd (omega (arith, none_found, some_found entries h, responders_sized entries))
      by_found (r ∷ rs) e =
          ap (λ names. contains names id)
            (entry_ids-settings_for (responding_ids sort target entries))
          ∙ responding_ids-contains entries id

  -- Where none responds, a provider keeps its models in their order, and then has models that it did not
  -- have, so that all its fallback models are there.
  pub sync_provider_keeps :
      (entries : List CatalogModel) (p : ProviderEntry)
      → any_responds entries ≡ false
      → (added : List Text) × (list_of (sync_provider sort target entries p).models
          ≡ list_of p.models ++ settings_for added)
        × All (λ id. contains (entry_ids (list_of p.models)) id ≡ false) added
        × All
            (λ id.
              contains (entry_ids (list_of (sync_provider sort target entries p).models)) id ≡ true)
            target.fallback_models
  unfolding sync_provider
  sync_provider_keeps entries p h =
      let current = entry_ids (list_of p.models) in
      let added = added_ids target entries current in
      let models : list_of (sync_provider sort target entries p).models
          ≡ list_of p.models ++ settings_for added =
        ap (λ found. list_of (synced_models sort target entries p.models found))
          (responders_silent entries h)
        ∙ degraded_models_lem p.models added in
      let named : entry_ids (list_of (sync_provider sort target entries p).models)
          ≡ current ++ added =
        ap entry_ids models
        ∙ entry_ids-append (list_of p.models) (settings_for added)
        ∙ ap (λ names. current ++ names) (entry_ids-settings_for added) in
      (
        added,
        models,
        added_fresh target entries current,
        subst (λ names. All (λ id. contains names id ≡ true) target.fallback_models) (sym named)
            (fallback_offered target entries current),
      )

-- The comparison of the sort is not consistent: of three latencies that are each a millisecond apart the
-- neighbours tie and the outer two do not, so that the language leaves the order open.
compare_latency_inconsistent :
    (ms : ℕ)
    → (compare_latency (some ms) (some (ms + 1)) ≡ ties)
      × (compare_latency (some (ms + 1)) (some (ms + 2)) ≡ ties)
      × (compare_latency (some ms) (some (ms + 2)) ≡ first_before)
unfolding compare_latency
compare_latency_inconsistent ms = ground arith
