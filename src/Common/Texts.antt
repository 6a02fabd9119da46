-- ===== src/Common/Texts.antt =====
-- JavaScript strings as the lists of their UTF-16 units: their equality and their first units.
use Prim.Native.Nat.{ℕ, zero, suc, ◌-◌, min}
use mathlib.Core.Path.{◌≡◌, refl}
use mathlib.Core.Logic.{◌↔◌, inl, inr}
use mathlib.Core.Bool.{Bool, true, false, ◌&&◌, ◌||◌}
use mathlib.Core.List.{List, [], ◌∷◌, ◌++◌}
use native.Mathlib.Omega.{arith}
use deepseek_harness.Common.Tests.{Eq, nat_eq, nat_beq, nat_beq_iff, Bool-cases, ◌==◌}
use deepseek_harness.Common.Lists.{length, contains, All}

abbrev pub Text : Type 0
Text = List ℕ

abbrev pub text_beq : Text → Text → Bool
text_beq [] [] = true
text_beq [] (y ∷ ys) = false
text_beq (x ∷ xs) [] = false
text_beq (x ∷ xs) (y ∷ ys) = nat_beq x y && text_beq xs ys

pub text_beq_iff : (a b : Text) → (text_beq a b ≡ true) ↔ (a ≡ b)
text_beq_iff [] [] = (λ h. refl, λ h. refl)
text_beq_iff [] (y ∷ ys) = ((λ h. absurd (cc h)), λ h. absurd (cc h))
text_beq_iff (x ∷ xs) [] = ((λ h. absurd (cc h)), λ h. absurd (cc h))
text_beq_iff (x ∷ xs) (y ∷ ys) = ground (arith, text_beq_iff xs ys, nat_beq_iff x y)

instance abbrev pub text_eq : Eq Text
text_eq = record { beq = text_beq; decides = text_beq_iff }

-- `s.slice(0, n)`.
abbrev pub take {ℓ} : {A : Type ℓ} → ℕ → List A → List A
take zero xs = []
take (suc n) [] = []
take (suc n) (x ∷ xs) = x ∷ take n xs

pub length-take {ℓ} : {A : Type ℓ} (n : ℕ) (xs : List A) → length (take n xs) ≡ min n (length xs)
length-take zero xs = omega arith
length-take (suc n) [] = omega arith
length-take (suc n) (x ∷ xs) = omega (arith, length-take n xs)

-- `s.slice(n)`.
abbrev pub drop {ℓ} : {A : Type ℓ} → ℕ → List A → List A
drop zero xs = xs
drop (suc n) [] = []
drop (suc n) (x ∷ xs) = drop n xs

pub length-drop {ℓ} : {A : Type ℓ} (n : ℕ) (xs : List A) → length (drop n xs) ≡ length xs - n
length-drop zero xs = omega arith
length-drop (suc n) [] = omega arith
length-drop (suc n) (x ∷ xs) = omega (arith, length-drop n xs)

pub contains-snoc :
    (xs : List Text) (x y : Text) → contains (xs ++ (x ∷ [])) y ≡ (contains xs y || x == y)
contains-snoc [] x y = ground arith
contains-snoc (z ∷ xs) x y = elim (Bool-cases (z == y)) [
  | inl here ↦ rw here refl
  | inr there ↦ rw there (contains-snoc xs x y)
]

-- `text.split(separator)`, and `parts.join(separator)`, for a separator of one unit.
abbrev pub put_unit : Bool → ℕ → List Text → List Text
put_unit is_end c [] = [] ∷ []
put_unit true c (part ∷ parts) = [] ∷ part ∷ parts
put_unit false c (part ∷ parts) = (c ∷ part) ∷ parts

abbrev pub split_at : ℕ → Text → List Text
split_at separator [] = [] ∷ []
split_at separator (c ∷ cs) = put_unit (c == separator) c (split_at separator cs)

abbrev pub join_after : ℕ → Text → List Text → Text
join_after separator part [] = part
join_after separator part (next ∷ parts) = part ++ (separator ∷ join_after separator next parts)

abbrev pub join_with : ℕ → List Text → Text
join_with separator [] = []
join_with separator (part ∷ parts) = join_after separator part parts

put_unit-first :
    (is_end : Bool) (c : ℕ) (parts : List Text)
    → (part : Text) × (rest : List Text) × (put_unit is_end c parts ≡ part ∷ rest)
put_unit-first is_end c [] = ([], [], refl)
put_unit-first true c (part ∷ parts) = ([], part ∷ parts, refl)
put_unit-first false c (part ∷ parts) = (c ∷ part, parts, refl)

pub split_at-first :
    (separator : ℕ) (text : Text)
    → (part : Text) × (rest : List Text) × (split_at separator text ≡ part ∷ rest)
split_at-first separator [] = ([], [], refl)
split_at-first separator (c ∷ cs) = put_unit-first (c == separator) c (split_at separator cs)

put_unit-end :
    (c : ℕ) {part : Text} {rest : List Text} (parts : List Text)
    → parts ≡ part ∷ rest
    → put_unit true c parts ≡ [] ∷ parts
put_unit-end c [] e = absurd (cc e)
put_unit-end c (part ∷ parts) e = refl

pub split_at-part :
    (separator : ℕ) (part rest : Text)
    → contains part separator ≡ false
    → split_at separator (part ++ (separator ∷ rest)) ≡ part ∷ split_at separator rest
split_at-part separator [] rest h =
    rw ((nat_beq_iff separator separator).1 refl)
      (put_unit-end separator (split_at separator rest) (split_at-first separator rest).2)
split_at-part separator (c ∷ cs) rest h = ground (arith, split_at-part separator cs rest)

pub split_at-whole :
    (separator : ℕ) (part : Text)
    → contains part separator ≡ false
    → split_at separator part ≡ part ∷ []
split_at-whole separator [] h = refl
split_at-whole separator (c ∷ cs) h = ground (arith, split_at-whole separator cs)

split_at-join_after :
    (separator : ℕ) (part : Text) (parts : List Text)
    → contains part separator ≡ false
    → All (λ p. contains p separator ≡ false) parts
    → split_at separator (join_after separator part parts) ≡ part ∷ parts
split_at-join_after separator part [] h a = split_at-whole separator part h
split_at-join_after separator part (next ∷ parts) h a =
    rw (split_at-part separator part (join_after separator next parts) h)
      (rw (split_at-join_after separator next parts a.0 a.1) refl)

-- What was joined is split again, unless there was nothing.
pub split_at-join_with :
    (separator : ℕ) (part : Text) (parts : List Text)
    → All (λ p. contains p separator ≡ false) (part ∷ parts)
    → split_at separator (join_with separator (part ∷ parts)) ≡ part ∷ parts
split_at-join_with separator part parts a = split_at-join_after separator part parts a.0 a.1
