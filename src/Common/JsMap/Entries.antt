-- ===== src/Common/JsMap/Entries.antt =====
-- What the writes of a `Map` keep: that no key stands twice, and a predicate over the entries.
use mathlib.Core.Path.{◌≡◌, refl, sym, subst}
use mathlib.Core.Logic.{inl, inr}
use mathlib.Core.Option.{some}
use mathlib.Core.Option.{none}
use mathlib.Core.List.{List, [], ◌∷◌}
use native.Mathlib.Omega.{arith}
use deepseek_harness.Common.Tests.{Eq, ◌==◌, Bool-cases}
use deepseek_harness.Common.Lists.{All}
use deepseek_harness.Common.JsMap.{JsMap, get, set, delete, get-set, get-delete, values, Uniq}

module _ {ℓ} {A : Type ℓ} where
  pub All-mono {κ κ'} :
      {P : A → Type κ} {Q : A → Type κ'} (xs : List A) → ((a : A) → P a → Q a) → All P xs → All Q xs
  All-mono [] f h = tt
  All-mono (x ∷ xs) f h = (f x h.0, All-mono xs f h.1)

module _ {ℓ κ} {K : Type ℓ} {V : Type κ} ⦃e : Eq K⦄ where
  pub set-Uniq : (k : K) (v : V) (m : JsMap K V) → Uniq m → Uniq (set k v m)
  set-Uniq k v [] u = (refl, tt)
  set-Uniq k v ((j, w) ∷ m) u =
      ground (arith, set-Uniq k v m u.1, get-set k j v m, e.decides j k, e.decides k j)

  pub delete-Uniq : (k : K) (m : JsMap K V) → Uniq m → Uniq (delete k m)
  delete-Uniq k [] u = tt
  delete-Uniq k ((j, w) ∷ m) u = ground (arith, delete-Uniq k m u.1, get-delete k j m)

module _ {ℓ κ ρ} {K : Type ℓ} {V : Type κ} ⦃e : Eq K⦄ (P : K × V → Type ρ) where
  pub set-All : (k : K) (v : V) (m : JsMap K V) → P (k, v) → All P m → All P (set k v m)
  set-All k v [] h a = (h, tt)
  set-All k v ((j, w) ∷ m) h a = elim (Bool-cases (j == k)) [
    | inl same ↦ rw same (subst (λ i. P (i, v)) (sym ((e.decides j k).0 same)) h, a.1)
    | inr other ↦ rw other (a.0, set-All k v m h a.1)
  ]

  pub delete-All : (k : K) (m : JsMap K V) → All P m → All P (delete k m)
  delete-All k [] a = tt
  delete-All k ((j, w) ∷ m) a = elim (Bool-cases (j == k)) [
    | inl same ↦ rw same (delete-All k m a.1)
    | inr other ↦ rw other (a.0, delete-All k m a.1)
  ]

  pub get-All : (k : K) (m : JsMap K V) {v : V} → All P m → get k m ≡ some v → P (k, v)
  get-All k [] a h = absurd (cc h)
  get-All k ((j, w) ∷ m) {v} a h = elim (Bool-cases (j == k)) [
    | inl same ↦ subst P (cc ((e.decides j k).0 same, rw same at h)) a.0
    | inr other ↦ get-All k m a.1 (rw other at h)
  ]

  pub values-All :
      {Q : V → Type ρ} (m : JsMap K V)
      → ((k : K) (v : V) → P (k, v) → Q v)
      → All P m
      → All Q (values m)
  values-All [] f a = tt
  values-All ((k, v) ∷ m) f a = (f k v a.0, values-All m f a.1)

module _ {ℓ κ} {K : Type ℓ} {V : Type κ} ⦃e : Eq K⦄ where
  get-none-All : (k : K) (v : V) (m : JsMap K V) → get k m ≡ none → All (λ b. b.0 ≡ k → b.1 ≡ v) m
  get-none-All k v [] h = tt
  get-none-All k v ((j, w) ∷ m) h = elim (Bool-cases (j == k)) [
    | inl same ↦ absurd (cc (rw same at h))
    | inr other ↦
        (λ i. absurd (cc (other, (e.decides j k).1 i)), get-none-All k v m (rw other at h))
  ]

  -- The entries of a key are the one that `get` finds.
  pub Uniq-All :
      (k : K) (m : JsMap K V) {v : V} → Uniq m → get k m ≡ some v → All (λ b. b.0 ≡ k → b.1 ≡ v) m
  Uniq-All k [] u h = tt
  Uniq-All k ((j, w) ∷ m) {v} u h = elim (Bool-cases (j == k)) [
    | inl same ↦
        let here : w ≡ v = cc (rw same at h) in
        (λ i. here, get-none-All k v m (subst (λ i. get i m ≡ none) ((e.decides j k).0 same) u.0))
    | inr other ↦ (λ i. absurd (cc (other, (e.decides j k).1 i)), Uniq-All k m u.1 (rw other at h))
  ]
