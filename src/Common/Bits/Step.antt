-- ===== src/Common/Bits/Step.antt =====
-- One equation for the lowest binary digit of `bit_and`, `bit_or` and `bit_xor`, from the recursion on digits
-- that the native operations stand for.
use Prim.Native.Nat.{ℕ, zero, suc, ◌+◌, ◌*◌, ◌/◌, ◌%◌, ◌≤◌, min, max, bit_and, bit_or, bit_xor}
use Prim.Native.Nat.{two, digits, bitwise, bit_and-bitwise, bit_or-bitwise, bit_xor-bitwise, differ}
use mathlib.Core.Path.{◌≡◌, refl}
use native.Mathlib.Omega.{arith}

-- The fuel of the recursion does not matter, once it is enough.
module _ (base : ℕ → ℕ) (digit : ℕ → ℕ → ℕ) where
  digits_enough : (i j x y : ℕ) → x ≤ i → x ≤ j → digits base digit i x y ≡ digits base digit j x y
  digits_enough i j zero y enough enough_too = zeros i j
    where
      zeros : (u v : ℕ) → digits base digit u zero y ≡ digits base digit v zero y
      zeros zero zero = refl
      zeros zero (suc v) = refl
      zeros (suc u) zero = refl
      zeros (suc u) (suc v) = refl
  digits_enough zero j (suc x) y enough enough_too = absurd (omega arith)
  digits_enough (suc i) zero (suc x) y enough enough_too = absurd (omega arith)
  digits_enough (suc i) (suc j) (suc x) y enough enough_too =
      rw (digits_enough i j (suc x / 2) (y / 2) (omega arith) (omega arith))

  bitwise_step :
      (x y : ℕ)
      → bitwise base digit (suc x) y
        ≡ bitwise base digit (suc x / 2) (y / 2) * 2 + digit (suc x % 2) (y % 2)
  bitwise_step x y =
      omega (arith, digits_enough x (suc x / 2) (suc x / 2) (y / 2) (omega arith) (omega arith))

pub bit_or_step : (x y : ℕ) → bit_or x y ≡ bit_or (x / 2) (y / 2) * 2 + max (x % 2) (y % 2)
bit_or_step zero y = simp bit_or-bitwise (omega arith)
bit_or_step (suc x) y = simp bit_or-bitwise (bitwise_step (λ d. d) max x y)

pub bit_and_step : (x y : ℕ) → bit_and x y ≡ bit_and (x / 2) (y / 2) * 2 + min (x % 2) (y % 2)
bit_and_step zero y = simp bit_and-bitwise (omega arith)
bit_and_step (suc x) y = simp bit_and-bitwise (bitwise_step (λ d. 0) min x y)

differ_bits : (a b : ℕ) → a ≤ 1 → b ≤ 1 → differ a b ≡ (a + b) % 2
differ_bits zero b h k = omega arith
differ_bits (suc zero) zero h k = refl
differ_bits (suc zero) (suc zero) h k = refl
differ_bits (suc zero) (suc (suc b)) h k = absurd (omega arith)
differ_bits (suc (suc a)) b h k = absurd (omega arith)

pub bit_xor_step : (x y : ℕ) → bit_xor x y ≡ bit_xor (x / 2) (y / 2) * 2 + (x % 2 + y % 2) % 2
bit_xor_step zero y = simp bit_xor-bitwise (omega arith)
bit_xor_step (suc x) y =
    let d : differ (suc x % two) (y % two) ≡ (suc x % 2 + y % 2) % 2 =
      differ_bits (suc x % 2) (y % 2) (omega arith) (omega arith) in
    simp bit_xor-bitwise (omega (arith, d, bitwise_step (λ d. d) differ x y))
