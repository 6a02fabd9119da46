-- ===== src/Browser/Active.antt =====
-- apps/shell/src/main/embedded-browser.ts: the number of tabs, and the active one, after the writes of
-- the `Map` of tabs.
use deepseek_harness.Common.{
  Text, text_eq, text_beq_iff, suc, ◌≤◌, false, Option, none, some, [], ◌∷◌, ◌≡◌, refl, arith, sym,
  ap, ◌∙◌, subst, length, ◌==◌, nat_eq, Bool-cases, inl, inr, if◌then◌else◌,
}
use deepseek_harness.Common.JsMap.{JsMap, get, set, delete, get-set, get-delete}
use deepseek_harness.Browser.Tabs.{BrowserTab, first_id, is_active}

abbrev Tabs : Type 0
Tabs = JsMap Text BrowserTab

pub length-set : (k : Text) (v : BrowserTab) (m : Tabs) → length (set k v m) ≤ suc (length m)
length-set k v [] = omega arith
length-set k v ((j, w) ∷ m) = elim (Bool-cases (j == k)) [
  | inl here ↦ rw here (omega arith)
  | inr other ↦ rw other (omega (arith, length-set k v m))
]

pub length-set_known :
    (k : Text) (v : BrowserTab) (m : Tabs) {w : BrowserTab}
    → get k m ≡ some w
    → length (set k v m) ≡ length m
length-set_known k v [] h = absurd (cc h)
length-set_known k v ((j, w) ∷ m) h = elim (Bool-cases (j == k)) [
  | inl here ↦ rw here refl
  | inr other ↦ rw other (
      ap (λ n. suc n)
        (length-set_known k v m (ap (λ b. if b then some w else get k m) (sym other) ∙ h)))
]

pub length-delete : (k : Text) (m : Tabs) → length (delete k m) ≤ length m
length-delete k [] = omega arith
length-delete k ((j, w) ∷ m) = elim (Bool-cases (j == k)) [
  | inl here ↦ rw here (omega (arith, length-delete k m))
  | inr other ↦ rw other (omega (arith, length-delete k m))
]

-- An active tab that is there.
abbrev pub IsThere : Option Text → JsMap Text BrowserTab → Type 0
IsThere active tabs =
    (id : Text) × (tab : BrowserTab) × (active ≡ some id) × (get id tabs ≡ some tab)

pub set-IsThere :
    (k : Text) (v : BrowserTab) (active : Option Text) (tabs : Tabs)
    → IsThere active tabs
    → IsThere active (set k v tabs)
set-IsThere k v active tabs (id, tab, e, h) = elim (Bool-cases (k == id)) [
  | inl same ↦ (id, v, e, get-set k id v tabs ∙ ap (λ b. if b then some v else get id tabs) same)
  | inr other ↦
      (id, tab, e, get-set k id v tabs ∙ ap (λ b. if b then some v else get id tabs) other ∙ h)
]

pub new-IsThere : (k : Text) (v : BrowserTab) (tabs : Tabs) → IsThere (some k) (set k v tabs)
new-IsThere k v tabs = (
  k,
  v,
  refl,
  get-set k k v tabs ∙ ap (λ b. if b then some v else get k tabs) ((text_beq_iff k k).1 refl),
)

pub first-IsThere :
    (tabs : Tabs) → (length tabs == 0) ≡ false → IsThere (first_id (λ t. none) tabs) tabs
first-IsThere [] h = absurd (cc h)
first-IsThere ((id, tab) ∷ tabs) h =
    (id, tab, refl, ap (λ b. if b then some tab else get id tabs) ((text_beq_iff id id).1 refl))

not_same : (a b : Text) → (a == b) ≡ false → (b == a) ≡ false
not_same a b h = ground (arith, text_beq_iff a b, text_beq_iff b a)

pub delete-IsThere :
    (k : Text) (active : Option Text) (tabs : Tabs)
    → is_active (λ t. none) active k ≡ false
    → IsThere active tabs
    → IsThere active (delete k tabs)
delete-IsThere k none tabs h (id, tab, e, g) = absurd (cc e)
delete-IsThere k (some active) tabs h (id, tab, e, g) = (
  id,
  tab,
  e,
  get-delete k id tabs
      ∙ ap (λ b. if b then none else get id tabs)
          (not_same id k (subst (λ t. (t == k) ≡ false) (cc e) h))
      ∙ g,
)
