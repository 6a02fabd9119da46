-- ===== src/Common/Members.antt =====
-- Membership in lists of texts: appended lists, and the elements that another list does not have.
use mathlib.Core.Path.{◌≡◌, refl, ap}
use mathlib.Core.Logic.{inl, inr}
use mathlib.Core.Bool.{true, false, not, ◌&&◌, ◌||◌}
use mathlib.Core.List.{List, [], ◌∷◌, ◌++◌}
use native.Mathlib.Omega.{arith}
use deepseek_harness.Common.Tests.{Bool-cases}
use deepseek_harness.Common.Lists.{All, contains, filter, length}
use deepseek_harness.Common.Texts.{Text, text_eq, text_beq_iff}
use deepseek_harness.Common.JsMap.Entries.{All-mono}

pub contains-append :
    (xs ys : List Text) (x : Text) → contains (xs ++ ys) x ≡ (contains xs x || contains ys x)
contains-append [] ys x = refl
contains-append (y ∷ xs) ys x = ground (arith, contains-append xs ys x)

pub contains-fresh :
    (old xs : List Text) (x : Text)
    → contains (filter (λ y. not (contains old y)) xs) x ≡ (not (contains old x) && contains xs x)
contains-fresh old [] x = ground arith
contains-fresh old (y ∷ xs) x =
    ground
      (arith, contains-fresh old xs x, text_beq_iff y x, λ (same : y ≡ x). ap (contains old) same)

pub fresh-All :
    (old xs : List Text) → All (λ y. contains old y ≡ false) (filter (λ y. not (contains old y)) xs)
fresh-All old [] = tt
fresh-All old (y ∷ xs) = elim (Bool-cases (contains old y)) [
  | inl known ↦ rw known (fresh-All old xs)
  | inr new ↦ rw new (new, fresh-All old xs)
]

pub nil_of_length {ℓ} : {A : Type ℓ} (xs : List A) → length xs ≡ 0 → xs ≡ []
nil_of_length [] h = refl
nil_of_length (x ∷ xs) h = absurd (omega (arith, h))

pub All-append {ℓ κ} :
    {A : Type ℓ} (P : A → Type κ) (xs ys : List A) → All P xs → All P ys → All P (xs ++ ys)
All-append P [] ys a b = b
All-append P (x ∷ xs) ys a b = (a.0, All-append P xs ys a.1 b)

pub contains_more :
    (xs ys : List Text) (x : Text) → contains xs x ≡ true → contains (xs ++ ys) x ≡ true
contains_more xs ys x h = ground (arith, contains-append xs ys x)

pub contains_later :
    (xs ys : List Text) (x : Text) → contains ys x ≡ true → contains (xs ++ ys) x ≡ true
contains_later xs ys x h = elim (Bool-cases (contains xs x)) [
  | inl here ↦ contains_more xs ys x here
  | inr absent ↦ ground (arith, contains-append xs ys x)
]

pub contains_self : (xs : List Text) → All (λ x. contains xs x ≡ true) xs
contains_self [] = tt
contains_self (x ∷ xs) = (
  ground (arith, text_beq_iff x x),
  All-mono xs (λ y h. contains_later (x ∷ []) xs y h) (contains_self xs),
)
