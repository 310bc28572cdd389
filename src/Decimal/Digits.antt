-- ===== src/Decimal/Digits.antt =====
-- Decimal digits and big-endian bytes as numbers: a step of either loop, and texts of digits.
use fast_uuid.Common.{
  ℕ, zero, suc, ◌+◌, ◌-◌, ◌*◌, ◌/◌, ◌%◌, ◌^◌, ◌<◌, ◌≤◌, ◌≡◌, refl, ap, ◌∙◌, arith, true, false,
  List, [], ◌∷◌, length, All, IsByte, replicate, bit_and, bit_or, Bool-cases, inl, inr,
}
use fast_uuid.Common.Bits.{masks, bit_or_low}
use fast_uuid.Uuid.Order.{be_value}
use fast_uuid.Layout.{u8, shr}
use fast_uuid.Decimal.{div_ten, any_nonzero, mul_ten}

abbrev pub IsDigit : ℕ → Type 0
IsDigit c = (b'0' ≤ c) × (c ≤ b'9')

-- The number that the digits spell behind `n`.
abbrev pub spelled : List ℕ → ℕ → ℕ
spelled [] n = n
spelled (c ∷ cs) n = spelled cs (n * 10 + (c - b'0'))

pub le-spelled : (cs : List ℕ) (n : ℕ) → n ≤ spelled cs n
le-spelled [] n = omega arith
le-spelled (c ∷ cs) n = omega (arith, le-spelled cs (n * 10 + (c - b'0')))

-- Equally many digits that spell the same number are the same.
pub spelled_injective :
    (cs ds : List ℕ) (n m : ℕ)
    → length cs ≡ length ds
    → All IsDigit cs
    → All IsDigit ds
    → spelled cs n ≡ spelled ds m
    → (n ≡ m) × (cs ≡ ds)
spelled_injective [] [] n m l h k e = (e, refl)
spelled_injective [] (d ∷ ds) n m l h k e = absurd (omega arith)
spelled_injective (c ∷ cs) [] n m l h k e = absurd (omega arith)
spelled_injective (c ∷ cs) (d ∷ ds) n m l h k e =
    let (p, q) =
      spelled_injective cs ds (n * 10 + (c - b'0')) (m * 10 + (d - b'0')) (omega arith) h.1 k.1 e in
    let head : c ≡ d = omega (arith, h.0, k.0) in (omega (arith, h.0, k.0), rw (head, q) refl)

-- The same for bytes.
pub be_value_injective :
    (xs ys : List ℕ) (n m : ℕ)
    → length xs ≡ length ys
    → All IsByte xs
    → All IsByte ys
    → be_value xs n ≡ be_value ys m
    → (n ≡ m) × (xs ≡ ys)
be_value_injective [] [] n m l h k e = (e, refl)
be_value_injective [] (y ∷ ys) n m l h k e = absurd (omega arith)
be_value_injective (x ∷ xs) [] n m l h k e = absurd (omega arith)
be_value_injective (x ∷ xs) (y ∷ ys) n m l h k e =
    let (p, q) = be_value_injective xs ys (n * 256 + x) (m * 256 + y) (omega arith) h.1 k.1 e in
    let head : x ≡ y = omega (arith, h.0, k.0) in (omega (arith, h.0, k.0), rw (head, q) refl)

-- A round of the division: ten times the quotient, and the remainder.
pub div_ten_lem :
    (xs : List ℕ) (rem n : ℕ)
    → All IsByte xs
    → rem < 10
    → (be_value (div_ten xs rem).0 n * 10 + (div_ten xs rem).1 ≡ be_value xs (n * 10 + rem))
      × ((div_ten xs rem).1 < 10)
      × (length (div_ten xs rem).0 ≡ length xs)
      × All IsByte (div_ten xs rem).0
unfolding div_ten
div_ten_lem [] rem n h k = (refl, k, refl, tt)
div_ten_lem (x ∷ xs) rem n h k =
    let cur : bit_or (rem * 2 ^ 8) x ≡ rem * 256 + x = bit_or_low 8 rem x h.0 in
    let (e, b, l, a) =
      div_ten_lem xs ((rem * 256 + x) % 10) (n * 256 + (rem * 256 + x) / 10) h.1 (omega arith) in
    let q : u8 ((rem * 256 + x) / 10) ≡ (rem * 256 + x) / 10 = omega (arith, h.0) in
    let f : (n * 256 + (rem * 256 + x) / 10) * 10 + (rem * 256 + x) % 10
        ≡ (n * 10 + rem) * 256 + x =
      omega arith in
    rw (cur, q) (e ∙ ap (be_value xs) f, b, ap suc l, (omega (arith, h.0), a))

pub any_nonzero-be_value :
    (xs : List ℕ)
    → (any_nonzero xs ≡ false)
    → (n : ℕ) → be_value xs n ≡ be_value (replicate (length xs) 0) n
any_nonzero-be_value [] h n = refl
any_nonzero-be_value (x ∷ xs) h n =
    let (x0, rest) : (x ≡ 0) × (any_nonzero xs ≡ false) = ground (arith, h) in
    rw x0 (any_nonzero-be_value xs rest (n * 256 + 0))

-- A round of the multiplication, with the carry in front.
pub mul_ten_lem :
    (xs : List ℕ) (carry n : ℕ)
    → (be_value (mul_ten xs carry).0 (n * 10 + (mul_ten xs carry).1) ≡ be_value xs n * 10 + carry)
      × (length (mul_ten xs carry).0 ≡ length xs)
      × All IsByte (mul_ten xs carry).0
unfolding mul_ten
mul_ten_lem [] carry n = (refl, refl, tt)
mul_ten_lem (x ∷ xs) carry n =
    let (e, l, a) = mul_ten_lem xs carry (n * 256 + x) in
    let c = (mul_ten xs carry).1 in
    let f : (n * 10 + shr (x * 10 + c) 8) * 256 + bit_and (x * 10 + c) 0xff
        ≡ (n * 256 + x) * 10 + c =
      omega (arith, masks) in
    (ap (be_value (mul_ten xs carry).0) f ∙ e, ap suc l, (omega (arith, masks), a))

pub le-be_value : (xs : List ℕ) (n : ℕ) → n ≤ be_value xs n
le-be_value [] n = omega arith
le-be_value (x ∷ xs) n = omega (arith, le-be_value xs (n * 256 + x))

zeros-be_value : (n : ℕ) → be_value (replicate n 0) 0 ≡ 0
zeros-be_value zero = refl
zeros-be_value (suc n) = zeros-be_value n

-- `nz` tells whether the number is 0.
pub be_value_zero : (xs : List ℕ) → any_nonzero xs ≡ false → be_value xs 0 ≡ 0
be_value_zero xs h = any_nonzero-be_value xs h 0 ∙ zeros-be_value (length xs)

pub be_value_pos : (xs : List ℕ) (n : ℕ) → any_nonzero xs ≡ true → 1 ≤ be_value xs n
be_value_pos [] n h = absurd (ground arith)
be_value_pos (x ∷ xs) n h = elim (Bool-cases (any_nonzero xs)) [
  | inl e ↦ be_value_pos xs (n * 256 + x) e
  | inr e ↦ ground (arith, h, e, le-be_value xs (n * 256 + x))
]

-- The same with nothing in front.
pub mul_ten-be_value :
    (xs : List ℕ) (carry : ℕ)
    → be_value (mul_ten xs carry).0 (mul_ten xs carry).1 ≡ be_value xs 0 * 10 + carry
mul_ten-be_value xs carry =
    let c = (mul_ten xs carry).1 in
    let f : c ≡ 0 * 10 + c = omega arith in
    ap (be_value (mul_ten xs carry).0) f ∙ (mul_ten_lem xs carry 0).0
