-- ===== src/Secrets/Xor.antt =====
-- The exclusive or of native numbers, digit by digit: what the obfuscation in
-- apps/shell/src/main/secret-store.ts rests on.
use Prim.Native.Nat.{bit_xor, digits, differ, bit_xor-bitwise}
use deepseek_harness.Common.{
  ◌<◌, ℕ, zero, suc, ◌+◌, ◌*◌, ◌/◌, ◌%◌, ◌≤◌, ◌≡◌, refl, ◌∙◌, ap, ◌-◌, arith,
}

abbrev xor_digits : ℕ → ℕ → ℕ → ℕ
xor_digits n a b = digits (λ b. b) differ n a b

xor_digits_fuel : (n m a b : ℕ) → a ≤ n → a ≤ m → xor_digits n a b ≡ xor_digits m a b
xor_digits_fuel zero zero a b p q = refl
xor_digits_fuel zero (suc m) zero b p q = refl
xor_digits_fuel zero (suc m) (suc a) b p q = absurd (omega arith)
xor_digits_fuel (suc n) zero zero b p q = refl
xor_digits_fuel (suc n) zero (suc a) b p q = absurd (omega arith)
xor_digits_fuel (suc n) (suc m) zero b p q = refl
xor_digits_fuel (suc n) (suc m) (suc a) b p q =
    omega (arith, xor_digits_fuel n m (suc a / 2) (b / 2) (omega arith) (omega arith))

zero-bit_xor : (b : ℕ) → bit_xor 0 b ≡ b
zero-bit_xor b = bit_xor-bitwise 0 b

bit_xor-suc :
    (a b : ℕ) → bit_xor (suc a) b ≡ bit_xor (suc a / 2) (b / 2) * 2 + differ (suc a % 2) (b % 2)
bit_xor-suc a b = omega (
  arith,
  bit_xor-bitwise (suc a) b,
  bit_xor-bitwise (suc a / 2) (b / 2),
  xor_digits_fuel a (suc a / 2) (suc a / 2) (b / 2) (omega arith) (omega arith),
)

differ_lem : (x y : ℕ) → differ x y ≡ (x - y) + (y - x)
differ_lem zero y = omega arith
differ_lem (suc x) zero = omega arith
differ_lem (suc x) (suc y) = omega (arith, differ_lem x y)

bit_xor_step : (a b : ℕ) → bit_xor a b ≡ bit_xor (a / 2) (b / 2) * 2 + differ (a % 2) (b % 2)
bit_xor_step zero b = omega (arith, zero-bit_xor b, zero-bit_xor (b / 2), differ_lem 0 (b % 2))
bit_xor_step (suc a) b = bit_xor-suc a b

bit_xor-half : (a b : ℕ) → bit_xor a b / 2 ≡ bit_xor (a / 2) (b / 2)
bit_xor-half a b = omega (arith, bit_xor_step a b, differ_lem (a % 2) (b % 2))

bit_xor-digit : (a b : ℕ) → bit_xor a b % 2 ≡ differ (a % 2) (b % 2)
bit_xor-digit a b = omega (arith, bit_xor_step a b, differ_lem (a % 2) (b % 2))

cancel_fuel : (n a b : ℕ) → a ≤ n → b ≤ n → bit_xor (bit_xor a b) b ≡ a
cancel_fuel zero zero zero h k = refl
cancel_fuel zero zero (suc b) h k = absurd (omega arith)
cancel_fuel zero (suc a) b h k = absurd (omega arith)
cancel_fuel (suc n) a b h k =
    let x = bit_xor a b in
    let inner =
      ap (λ y. bit_xor y (b / 2)) (bit_xor-half a b)
      ∙ cancel_fuel n (a / 2) (b / 2) (omega arith) (omega arith) in
    omega (
      arith,
      bit_xor_step x b,
      inner,
      bit_xor-digit a b,
      differ_lem (a % 2) (b % 2),
      differ_lem (x % 2) (b % 2),
    )

-- The same key twice gives the number back.
pub bit_xor-bit_xor : (a b : ℕ) → bit_xor (bit_xor a b) b ≡ a
bit_xor-bit_xor a b = cancel_fuel (a + b) a b (omega arith) (omega arith)

zero_fuel : (n a : ℕ) → a ≤ n → bit_xor a 0 ≡ a
zero_fuel n zero h = refl
zero_fuel zero (suc a) h = absurd (omega arith)
zero_fuel (suc n) (suc a) h =
    omega (
      arith,
      bit_xor_step (suc a) 0,
      zero_fuel n (suc a / 2) (omega arith),
      differ_lem (suc a % 2) 0,
    )

-- A key below 128 changes the last seven digits only.
pub bit_xor-high : (a b : ℕ) → b < 128 → bit_xor a b / 128 ≡ a / 128
bit_xor-high a b h =
    let a1 = a / 2 in
    let a2 = a1 / 2 in
    let a3 = a2 / 2 in
    let a4 = a3 / 2 in
    let a5 = a4 / 2 in
    let a6 = a5 / 2 in
    let b1 = b / 2 in
    let b2 = b1 / 2 in
    let b3 = b2 / 2 in
    let b4 = b3 / 2 in
    let b5 = b4 / 2 in
    let b6 = b5 / 2 in
    let none_left : b6 / 2 ≡ 0 = omega arith in
    let last = ap (bit_xor (a6 / 2)) none_left ∙ zero_fuel (a6 / 2) (a6 / 2) (omega arith) in
    omega (
      arith,
      bit_xor-half a b,
      bit_xor-half a1 b1,
      bit_xor-half a2 b2,
      bit_xor-half a3 b3,
      bit_xor-half a4 b4,
      bit_xor-half a5 b5,
      bit_xor-half a6 b6,
      last,
    )
