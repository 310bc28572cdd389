-- ===== src/Common/Bits/Xor.antt =====
-- Laws of `^` of C, by its digits, and on the bytes of a little-endian word.
use fast_uuid.Common.Bits.Step.{bit_xor_step}
use Prim.Native.Nat.{ℕ, zero, suc, ◌+◌, ◌*◌, ◌/◌, ◌%◌, ◌^◌, ◌≤◌, ◌<◌, bit_xor, bit_xor-bitwise}
use mathlib.Core.Path.{◌≡◌, refl, ap}
use native.Mathlib.Omega.{arith}
use native.Mathlib.Nat.{pow-suc}

pub zero-bit_xor : (y : ℕ) → bit_xor 0 y ≡ y
zero-bit_xor y = bit_xor-bitwise 0 y

-- With enough fuel for both numbers.
xor_zero_below : (fuel x : ℕ) → x ≤ fuel → bit_xor x 0 ≡ x
xor_zero_below fuel zero h = refl
xor_zero_below zero (suc x) h = absurd (omega arith)
xor_zero_below (suc fuel) (suc x) h =
    omega (arith, bit_xor_step (suc x) 0, xor_zero_below fuel (suc x / 2) (omega arith))

pub bit_xor-zero : (x : ℕ) → bit_xor x 0 ≡ x
bit_xor-zero x = xor_zero_below x x (omega arith)

half : (x y : ℕ) → bit_xor x y / 2 ≡ bit_xor (x / 2) (y / 2)
half x y = omega (arith, bit_xor_step x y)

odd : (x y : ℕ) → bit_xor x y % 2 ≡ (x % 2 + y % 2) % 2
odd x y = omega (arith, bit_xor_step x y)

xor_assoc_below :
    (fuel x y z : ℕ) → x ≤ fuel → y ≤ fuel → bit_xor (bit_xor x y) z ≡ bit_xor x (bit_xor y z)
xor_assoc_below zero zero zero z h k = rw (zero-bit_xor z, zero-bit_xor z)
xor_assoc_below zero zero (suc y) z h k = absurd (omega arith)
xor_assoc_below zero (suc x) y z h k = absurd (omega arith)
xor_assoc_below (suc fuel) x y z h k = omega (
  arith,
  bit_xor_step (bit_xor x y) z,
  bit_xor_step x (bit_xor y z),
  odd x y,
  odd y z,
  ap (λ t. bit_xor t (z / 2)) (half x y),
  ap (λ t. bit_xor (x / 2) t) (half y z),
  xor_assoc_below fuel (x / 2) (y / 2) (z / 2) (omega arith) (omega arith),
)

pub bit_xor_assoc : (x y z : ℕ) → bit_xor (bit_xor x y) z ≡ bit_xor x (bit_xor y z)
bit_xor_assoc x y z = xor_assoc_below (x + y) x y z (omega arith) (omega arith)

-- A low part and a high part are combined each by itself.
pub bit_xor_parts :
    (width a b x y : ℕ)
    → a < 2 ^ width
    → b < 2 ^ width
    → bit_xor (a + 2 ^ width * x) (b + 2 ^ width * y) ≡ bit_xor a b + 2 ^ width * bit_xor x y
bit_xor_parts zero zero zero x y h k =
    let ex : 0 + 1 * x ≡ x = omega arith in
    let ey : 0 + 1 * y ≡ y = omega arith in
    omega (arith, ap (λ t. bit_xor t (0 + 1 * y)) ex, ap (λ t. bit_xor x t) ey)
bit_xor_parts zero zero (suc b) x y h k = absurd (omega arith)
bit_xor_parts zero (suc a) b x y h k = absurd (omega arith)
bit_xor_parts (suc width) a b x y h k =
    let p = pow-suc 2 width in
    let px : 2 ^ suc width * x ≡ 2 * (2 ^ width * x) = omega (arith, ap (λ t. t * x) p) in
    let py : 2 ^ suc width * y ≡ 2 * (2 ^ width * y) = omega (arith, ap (λ t. t * y) p) in
    let pz : 2 ^ suc width * bit_xor x y ≡ 2 * (2 ^ width * bit_xor x y) =
      omega (arith, ap (λ t. t * bit_xor x y) p) in
    let l : (a + 2 ^ suc width * x) / 2 ≡ a / 2 + 2 ^ width * x = omega arith in
    let m : (b + 2 ^ suc width * y) / 2 ≡ b / 2 + 2 ^ width * y = omega arith in
    omega (
      arith,
      p,
      bit_xor_step (a + 2 ^ suc width * x) (b + 2 ^ suc width * y),
      bit_xor_step a b,
      ap (λ t. bit_xor t ((b + 2 ^ suc width * y) / 2)) l,
      ap (λ t. bit_xor (a / 2 + 2 ^ width * x) t) m,
      bit_xor_parts width (a / 2) (b / 2) x y (omega arith) (omega arith),
    )

-- A number below a power of two on both sides stays below it.
pub bit_xor-lt : (width x y : ℕ) → x < 2 ^ width → y < 2 ^ width → bit_xor x y < 2 ^ width
bit_xor-lt zero zero zero h k = omega arith
bit_xor-lt zero zero (suc y) h k = absurd (omega arith)
bit_xor-lt zero (suc x) y h k = absurd (omega arith)
bit_xor-lt (suc width) x y h k =
    let p = pow-suc 2 width in
    omega (arith, p, bit_xor_step x y, bit_xor-lt width (x / 2) (y / 2) (omega arith) (omega arith))
