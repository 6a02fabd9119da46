-- ===== src/Models/Normal.antt =====
-- apps/shell/src/main/provider-seeder.ts: each change of an entry is made once.
use deepseek_harness.Common.{
  Text, text_eq, text_beq_iff, Bool, true, false, ◌&&◌, Option, none, some, List, [], ◌∷◌, contains,
  ◌==◌, ◌≡◌, refl, ap, ◌∙◌, arith, Bool-cases, inl, inr,
}
use deepseek_harness.Common.JsMap.{JsMap, get, set, get-set}
use deepseek_harness.Supervisor.Output.{units}
use deepseek_harness.Policy.Reasoning.{reasoning_efforts_for_model, compat_for_model}
use deepseek_harness.Models.Settings.{
  ModelObject, ModelEntry, name, object, neither, ProviderEntry, efforts_json, with_compat,
}
use deepseek_harness.Models.Seed.{
  SeederConfig, legacy_display_names, fallback_models, same_json, same_entries, same_compat,
  entries_of, normalize_as, normalize_object, normalize_entry, normalize_model_entries,
  fix_display_name, fix_models, seed_existing, new_entry, seed_free,
}

-- A change that is made once: the second time nothing changes, and it says so.
abbrev pub IsStable : {A : Type 0} → (A → A × Bool) → A → Type 0
IsStable f a = f (f a).0 ≡ ((f a).0, false)

pub set_present {ℓ} :
    {V : Type ℓ} (k : Text) (v : V) (m : JsMap Text V) → get k m ≡ some v → set k v m ≡ m
set_present k v [] h = absurd (cc h)
set_present k v ((j, w) ∷ m) h = elim (Bool-cases (j == k)) [
  | inl same ↦ let value : w ≡ v = cc (rw same at h) in rw (same, value) refl
  | inr other ↦ rw other (ap (λ r. (j, w) ∷ r) (set_present k v m (rw other at h)))
]

with_compat_twice : (m : JsMap Text Text) → with_compat (with_compat m) ≡ with_compat m
with_compat_twice m =
    let thinking = units "thinkingFormat" in
    let supports = units "supportsReasoningEffort" in
    let inner = set thinking (units "\"deepseek\"") m in
    let first : get thinking (with_compat m) ≡ some (units "\"deepseek\"") =
      get-set supports thinking (units "false") inner
      ∙ get-set thinking thinking (units "\"deepseek\"") m in
    let second : get supports (with_compat m) ≡ some (units "false") =
      get-set supports supports (units "false") inner in
    ap (set supports (units "false"))
      (set_present thinking (units "\"deepseek\"") (with_compat m) first)
    ∙ set_present supports (units "false") (with_compat m) second

same_entries_refl : (m : JsMap Text Text) → same_entries m m ≡ true
same_entries_refl [] = refl
same_entries_refl ((k, v) ∷ m) =
    ground (arith, text_beq_iff k k, text_beq_iff v v, same_entries_refl m)

normalize_as-IsStable :
    (o : ModelObject) (id : Text) (is_mimo : Bool)
    → normalize_as (normalize_as o id is_mimo).0 id is_mimo ≡ ((normalize_as o id is_mimo).0, false)
normalize_as-IsStable o id true =
    let desired = efforts_json (reasoning_efforts_for_model id) in
    let merged = with_compat (entries_of o.compat) in
    elim (Bool-cases
      (same_json o.reasoning_efforts (some desired) && same_compat o.compat merged)) [
        | inl matches ↦ rw matches (rw matches refl)
        | inr changed ↦
            let efforts : (desired == desired) ≡ true = (text_beq_iff desired desired).1 refl in
            rw changed (
              rw (with_compat_twice (entries_of o.compat))
                (rw (efforts, same_entries_refl merged) refl))
      ]
normalize_as-IsStable o id false =
    let desired = efforts_json (reasoning_efforts_for_model id) in
    elim (Bool-cases (same_json o.reasoning_efforts (some desired))) [
      | inl matches ↦ rw matches (rw matches refl)
      | inr changed ↦ rw changed (rw ((text_beq_iff desired desired).1 refl) refl)
    ]

normalize_as-id :
    (o : ModelObject) (id : Text) (is_mimo : Bool) → (normalize_as o id is_mimo).0.id ≡ o.id
normalize_as-id o id true = ground arith
normalize_as-id o id false = ground arith

normalize_object-IsStable :
    (o : ModelObject) (id : Option Text)
    → normalize_object (normalize_object o id).0 id ≡ ((normalize_object o id).0, false)
normalize_object-IsStable o none = refl
normalize_object-IsStable o (some id) = normalize_as-IsStable o id (compat_for_model id)

normalize_object-id : (o : ModelObject) (id : Option Text) → (normalize_object o id).0.id ≡ o.id
normalize_object-id o none = refl
normalize_object-id o (some id) = normalize_as-id o id (compat_for_model id)

normalize_entry-IsStable :
    (e : ModelEntry) → normalize_entry (normalize_entry e).0 ≡ ((normalize_entry e).0, false)
unfolding normalize_entry
normalize_entry-IsStable (name text) = refl
normalize_entry-IsStable (neither value) = refl
normalize_entry-IsStable (object o) =
    let again =
      ap (normalize_object (normalize_object o o.id).0) (normalize_object-id o o.id)
      ∙ normalize_object-IsStable o o.id in
    cc (ap (λ r. object r.0) again, ap (λ r. r.1) again)

normalize_model_entries-IsStable :
    (es : List ModelEntry)
    → normalize_model_entries (normalize_model_entries es).0
      ≡ ((normalize_model_entries es).0, false)
unfolding normalize_model_entries
normalize_model_entries-IsStable [] = refl
normalize_model_entries-IsStable (e ∷ es) =
    let first = normalize_entry-IsStable e in
    let rest = normalize_model_entries-IsStable es in rw (first, rest) refl

fix_display_name-IsStable :
    (d : Option Text) → fix_display_name (fix_display_name d).0 ≡ ((fix_display_name d).0, false)
fix_display_name-IsStable none = refl
fix_display_name-IsStable (some []) = refl
fix_display_name-IsStable (some (c ∷ cs)) =
    elim (Bool-cases (contains legacy_display_names (c ∷ cs))) [
      | inl legacy ↦ rw legacy refl
      | inr kept ↦ rw kept (rw kept refl)
    ]

fix_models-IsStable :
    (m : Option (List ModelEntry)) → fix_models (fix_models m).0 ≡ ((fix_models m).0, false)
unfolding normalize_model_entries fallback_models
fix_models-IsStable none = refl
fix_models-IsStable (some []) =
    let again = normalize_model_entries-IsStable fallback_models in
    cc (ap (λ r. some r.0) again, ap (λ r. r.1) again)
fix_models-IsStable (some (e ∷ es)) =
    let again = normalize_model_entries-IsStable (e ∷ es) in
    cc (ap (λ r. some r.0) again, ap (λ r. r.1) again)

seed_existing-IsStable :
    (cfg : SeederConfig) (p : ProviderEntry)
    → seed_existing cfg (seed_existing cfg p).0 ≡ ((seed_existing cfg p).0, false)
unfolding seed_existing
seed_existing-IsStable cfg p =
    let label = fix_display_name-IsStable p.display_name in
    let models = fix_models-IsStable p.models in
    rw (label, models, (text_beq_iff cfg.lb_base_url cfg.lb_base_url).1 refl) refl

new_entry-IsStable :
    (cfg : SeederConfig) → seed_existing cfg (new_entry cfg) ≡ (new_entry cfg, false)
unfolding seed_existing new_entry reasoning_efforts_for_model compat_for_model
new_entry-IsStable cfg = rw ((text_beq_iff cfg.lb_base_url cfg.lb_base_url).1 refl) refl

pub seed_free-some :
    (cfg : SeederConfig) (p : ProviderEntry) → seed_free cfg (some p) ≡ seed_existing cfg p
unfolding seed_free
seed_free-some cfg p = refl

pub seed_free-IsStable :
    (cfg : SeederConfig) (existing : Option ProviderEntry)
    → seed_existing cfg (seed_free cfg existing).0 ≡ ((seed_free cfg existing).0, false)
unfolding seed_free
seed_free-IsStable cfg none = new_entry-IsStable cfg
seed_free-IsStable cfg (some p) = seed_existing-IsStable cfg p

pub seed_free_fields :
    (cfg : SeederConfig) (existing : Option ProviderEntry)
    → ((seed_free cfg existing).0.base_url ≡ cfg.lb_base_url)
      × ((seed_free cfg existing).0.reasoning ≡ none)
unfolding seed_free
seed_free_fields cfg none = (refl, refl)
seed_free_fields cfg (some p) = (refl, refl)
