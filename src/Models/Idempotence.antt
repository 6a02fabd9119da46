-- ===== src/Models/Idempotence.antt =====
-- apps/shell/src/main/provider-seeder.ts: seeding twice is seeding once, and other providers are left
-- alone.
use deepseek_harness.Common.{
  Text, text_eq, text_beq_iff, true, false, not, ◌&&◌, Option, none, some, ◌==◌, ◌≡◌, refl, ap, ◌∙◌,
  arith, Bool-cases, inl, inr,
}
use deepseek_harness.Common.JsMap.{JsMap, get, set, get-set, get-delete}
use deepseek_harness.Supervisor.Output.{units}
use deepseek_harness.Models.Settings.{ProviderEntry, DefaultModel, Settings, free_provider}
use deepseek_harness.Models.Normal.{
  set_present, seed_free-IsStable, seed_free-some, seed_free_fields,
}
use deepseek_harness.Models.Seed.{
  SeederConfig, is_set, seed_free, perplexity, gemini, is_named, remove_perplexity, remove_gemini,
  first_model, is_free, is_deepseek, points_to, seed_default, seed_providers,
}

is_free_lem : (provider : Option Text) → is_free provider ≡ true → provider ≡ some free_provider
is_free_lem none h = absurd (cc h)
is_free_lem (some provider) h = ap some ((text_beq_iff provider free_provider).0 h)

seed_default_free :
    (first : Text) (d : Option DefaultModel)
    → (e : DefaultModel) × ((seed_default first d).0 ≡ some e) × (e.provider ≡ some free_provider)
unfolding seed_default
seed_default_free first none = (points_to first, refl, refl)
seed_default_free first (some d) = elim (Bool-cases (is_free d.provider)) [
  | inr other ↦ rw other (points_to first, refl, refl)
  | inl free ↦ elim (Bool-cases (is_set d.reasoning_effort && not (is_deepseek d.model))) [
    | inl stale ↦
        rw (free, stale) (record d { reasoning_effort = none }, refl, is_free_lem d.provider free)
    | inr good ↦ rw (free, good) (d, refl, is_free_lem d.provider free)
  ]
]

abbrev Providers : Type 0
Providers = JsMap Text ProviderEntry

get-remove_perplexity :
    (k : Text) (m : Providers) → (perplexity == k) ≡ false → get k (remove_perplexity m).0 ≡ get k m
unfolding remove_perplexity
get-remove_perplexity k m h = ground (arith, get-delete perplexity k m)

get-remove_gemini :
    (k : Text) (m : Providers) → (gemini == k) ≡ false → get k (remove_gemini m).0 ≡ get k m
unfolding remove_gemini
get-remove_gemini k m h = ground (arith, get-delete gemini k m)

perplexity_gone :
    (m : Providers)
    → is_named (units "Perplexity Free (local)") (get perplexity (remove_perplexity m).0) ≡ false
unfolding remove_perplexity
perplexity_gone m =
    elim (Bool-cases (is_named (units "Perplexity Free (local)") (get perplexity m))) [
      | inl old ↦ rw old (rw (get-delete perplexity perplexity m) refl)
      | inr other ↦ rw other other
    ]

gemini_gone : (m : Providers) → is_set (get gemini (remove_gemini m).0) ≡ false
unfolding remove_gemini
gemini_gone m = elim (Bool-cases (is_set (get gemini m))) [
  | inl old ↦ rw old (rw (get-delete gemini gemini m) refl)
  | inr other ↦ rw other other
]

seed_default-IsStable :
    (first again : Text) (d : Option DefaultModel)
    → seed_default again (seed_default first d).0 ≡ ((seed_default first d).0, false)
unfolding seed_default
seed_default-IsStable first again none = refl
seed_default-IsStable first again (some d) = elim (Bool-cases (is_free d.provider)) [
  | inr other ↦ rw other refl
  | inl free ↦ elim (Bool-cases (is_set d.reasoning_effort && not (is_deepseek d.model))) [
    | inl stale ↦ rw (free, stale) (rw free refl)
    | inr good ↦ rw (free, good) (rw (free, good) refl)
  ]
]

removed_perplexity :
    (m : Providers)
    → is_named (units "Perplexity Free (local)") (get perplexity m) ≡ false
    → remove_perplexity m ≡ (m, false)
unfolding remove_perplexity
removed_perplexity m h = rw h refl

removed_gemini : (m : Providers) → is_set (get gemini m) ≡ false → remove_gemini m ≡ (m, false)
unfolding remove_gemini
removed_gemini m h = rw h refl

seed_again :
    (cfg : SeederConfig) (p : ProviderEntry) (m : Providers) (d : Option DefaultModel)
    → get free_provider m ≡ some p
    → seed_free cfg (some p) ≡ (p, false)
    → remove_perplexity m ≡ (m, false)
    → remove_gemini m ≡ (m, false)
    → ((first : Text) → seed_default first d ≡ (d, false))
    → seed_providers cfg (record { providers = m; default_model = d }) ≡ record {
      seeded = false;
      settings = record { providers = m; default_model = d };
      marks = false;
    }
unfolding seed_providers
seed_again cfg p m d here same no_perplexity no_gemini default = rw here (
    rw same (
      rw (set_present free_provider p m here)
        (rw no_perplexity (rw no_gemini (rw (default (first_model (get free_provider m))) refl)))))

-- Seeding is idempotent: settings that were just seeded are seeded again without a change and without a
-- write of the settings or the marker.
pub seed_providers-seed_providers :
    (cfg : SeederConfig) (s : Settings)
    → seed_providers cfg (seed_providers cfg s).settings
      ≡ record { seeded = false; settings = (seed_providers cfg s).settings; marks = false }
unfolding seed_providers
seed_providers-seed_providers cfg s =
    let free = seed_free cfg (get free_provider s.providers) in
    let placed = set free_provider free.0 s.providers in
    let inner = (remove_perplexity placed).0 in
    let m = (remove_gemini inner).0 in
    let first = first_model (get free_provider m) in
    let here : get free_provider m ≡ some free.0 =
      get-remove_gemini free_provider inner refl
      ∙ get-remove_perplexity free_provider placed refl
      ∙ get-set free_provider free_provider free.0 s.providers in
    let no_perplexity =
      ap (is_named (units "Perplexity Free (local)")) (get-remove_gemini perplexity inner refl)
      ∙ perplexity_gone placed in
    seed_again cfg free.0 m (seed_default first s.default_model).0 here
      (seed_free-some cfg free.0 ∙ seed_free-IsStable cfg (get free_provider s.providers))
      (removed_perplexity m no_perplexity) (removed_gemini m (gemini_gone inner))
      (λ again. seed_default-IsStable first again s.default_model)

-- After seeding, the pool's provider has the given address and no effort for the whole route, the
-- default model is one of that provider, and every provider but the pool's and the two of older releases
-- is as it was.
seed_providers_lem :
    (cfg : SeederConfig) (s : Settings)
    → ((p : ProviderEntry) × (get free_provider (seed_providers cfg s).settings.providers ≡ some p)
        × (p.base_url ≡ cfg.lb_base_url)
        × (p.reasoning ≡ none))
      × ((d : DefaultModel) × ((seed_providers cfg s).settings.default_model ≡ some d)
          × (d.provider ≡ some free_provider))
      × ((k : Text)
          → (free_provider == k) ≡ false
          → (perplexity == k) ≡ false
          → (gemini == k) ≡ false
          → get k (seed_providers cfg s).settings.providers ≡ get k s.providers)
unfolding seed_providers
seed_providers_lem cfg s =
    let free = seed_free cfg (get free_provider s.providers) in
    let placed = set free_provider free.0 s.providers in
    let inner = (remove_perplexity placed).0 in
    let m = (remove_gemini inner).0 in
    let here : get free_provider m ≡ some free.0 =
      get-remove_gemini free_provider inner refl
      ∙ get-remove_perplexity free_provider placed refl
      ∙ get-set free_provider free_provider free.0 s.providers in
    let fields = seed_free_fields cfg (get free_provider s.providers) in
    (
      (free.0, here, fields.0, fields.1),
      seed_default_free (first_model (get free_provider m)) s.default_model,
      λ k a b c.
          get-remove_gemini k inner c
          ∙ get-remove_perplexity k placed b
          ∙ get-set free_provider k free.0 s.providers
          ∙ rw a refl,
    )
