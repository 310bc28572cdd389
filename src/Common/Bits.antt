-- ===== src/Common/Bits.antt =====
-- `&`, `|` and `<<` of C on fields of a word, as arithmetic.
mod Step
pub mod Xor
use Step.{bit_or_step, bit_and_step}
use fast_uuid.Common.Tests.{◌==◌}
use Prim.Native.Nat.{bit_or-bitwise}
use Prim.Native.Nat.{ℕ, zero, suc, ◌+◌, ◌-◌, ◌*◌, ◌/◌, ◌%◌, ◌^◌, ◌≤◌, ◌<◌, bit_and, bit_or}
use mathlib.Core.Path.{◌≡◌, refl, ap}
use mathlib.Core.Bool.{Bool, true, ◌&&◌}
use native.Mathlib.Omega.{arith}
use native.Mathlib.Nat.{pow-suc, one-le-pow}

-- A claim about every byte, or every number below a bound, is checked by evaluation.
unfoldable pub all_below : ℕ → (ℕ → Bool) → Bool
all_below zero p = true
all_below (suc n) p = p n && all_below n p

pub all_below_sound :
    (bound : ℕ) (test : ℕ → Bool) (x : ℕ) → all_below bound test ≡ true → x < bound → test x ≡ true
unfolding all_below
all_below_sound zero test x holds below = absurd (omega arith)
all_below_sound (suc bound) test x holds below = ground (arith, all_below_sound bound test x)

against_zero : (fuel x : ℕ) → x ≤ fuel → (bit_or x 0 ≡ x) × (bit_and x 0 ≡ 0)
against_zero fuel zero enough = (refl, refl)
against_zero zero (suc x) enough = absurd (omega arith)
against_zero (suc fuel) (suc x) enough =
    let half = against_zero fuel (suc x / 2) (omega arith) in
    (omega (arith, half.0, bit_or_step (suc x) 0), omega (arith, half.1, bit_and_step (suc x) 0))

bit_or-zero : (x : ℕ) → bit_or x 0 ≡ x
bit_or-zero x = (against_zero x x (omega arith)).0

bit_and-zero : (x : ℕ) → bit_and x 0 ≡ 0
bit_and-zero x = (against_zero x x (omega arith)).1

double_shift : (high width : ℕ) → high * 2 ^ suc width ≡ 2 * (high * 2 ^ width)
double_shift high width = omega (arith, ap (λ (t : ℕ). high * t) (pow-suc 2 width))

-- `(high << width) | low` is a sum when `low` fits in the low `width` bits.
pub bit_or_low :
    (width high low : ℕ) → low < 2 ^ width → bit_or (high * 2 ^ width) low ≡ high * 2 ^ width + low
bit_or_low zero high low below = ground (arith, bit_or-zero high)
bit_or_low (suc width) high low below = ground (
  arith,
  bit_or_step (high * 2 ^ suc width) low,
  double_shift high width,
  bit_or_low width high (low / 2) (omega arith),
)

bit_and_low :
    (width high low : ℕ) → low < 2 ^ width → bit_and (high * 2 ^ width + low) (2 ^ width - 1) ≡ low
bit_and_low zero high low below = ground (arith, bit_and-zero (high * 1 + low))
bit_and_low (suc width) high low below = ground (
  arith,
  bit_and_step (high * 2 ^ suc width + low) (2 ^ suc width - 1),
  double_shift high width,
  pow-suc 2 width,
  bit_and_low width high (low / 2) (omega arith),
)

-- A mask of `width` ones is the remainder by `2 ^ width`.
pub bit_and_mask : (width x : ℕ) → bit_and x (2 ^ width - 1) ≡ x % 2 ^ width
bit_and_mask width x =
    ground (arith, one-le-pow width 2, bit_and_low width (x / 2 ^ width) (x % 2 ^ width))

zero-bit_or : (b : ℕ) → bit_or 0 b ≡ b
zero-bit_or b = bit_or-bitwise 0 b

-- The same with the low part on the left.
pub bit_or_high :
    (width high low : ℕ) → low < 2 ^ width → bit_or low (high * 2 ^ width) ≡ high * 2 ^ width + low
bit_or_high zero high zero below = omega (arith, zero-bit_or (high * 1))
bit_or_high zero high (suc low) below = absurd (omega arith)
bit_or_high (suc width) high low below = ground (
  arith,
  bit_or_step low (high * 2 ^ suc width),
  double_shift high width,
  bit_or_high width high (low / 2) (omega arith),
)

-- Fields that do not overlap add up.
pub bit_or_add :
    (width high l low : ℕ) → l ≡ high * 2 ^ width → low < 2 ^ width → bit_or l low ≡ l + low
bit_or_add width high l low e below = rw e (bit_or_low width high low below)

-- The version nibble over the low half of a byte, and the RFC variant over six bits.
pub version_nibble : (x v : ℕ) → bit_or (bit_and x 0x0f) (v * 2 ^ 4) ≡ v * 16 + x % 16
version_nibble x v = rw (bit_and_mask 4 x) (bit_or_high 4 v (x % 16) (omega arith))

pub variant_bits : (x : ℕ) → bit_or (bit_and x 0x3f) 0x80 ≡ 128 + x % 64
variant_bits x = rw (bit_and_mask 6 x) (bit_or_high 6 2 (x % 64) (omega arith))

-- The masks of the layouts, for `simp`.
pub mask_4 : (x : ℕ) → bit_and x 0x0f ≡ x % 16
mask_4 x = bit_and_mask 4 x

pub mask_6 : (x : ℕ) → bit_and x 0x3f ≡ x % 64
mask_6 x = bit_and_mask 6 x

pub mask_8 : (x : ℕ) → bit_and x 0xff ≡ x % 256
mask_8 x = bit_and_mask 8 x

pub mask_12 : (x : ℕ) → bit_and x 0x0fff ≡ x % 4096
mask_12 x = bit_and_mask 12 x

pub mask_14 : (x : ℕ) → bit_and x 0x3fff ≡ x % 16384
mask_14 x = bit_and_mask 14 x

pub mask_16 : (x : ℕ) → bit_and x 0xffff ≡ x % 65536
mask_16 x = bit_and_mask 16 x

pub mask_32 : (x : ℕ) → bit_and x 0xffffffff ≡ x % 4294967296
mask_32 x = bit_and_mask 32 x

pub mask_60 : (x : ℕ) → bit_and x 0xfffffffffffffff ≡ x % 2 ^ 60
mask_60 x = bit_and_mask 60 x

pub ruleset masks = (mask_4, mask_6, mask_8, mask_12, mask_14, mask_16, mask_32, mask_60)

-- A constant over a low field.
pub or_0x60 : (x : ℕ) → bit_or 0x60 (bit_and x 0x0f) ≡ 96 + x % 16
or_0x60 x = rw (mask_4 x) (bit_or_low 4 6 (x % 16) (omega arith))

pub or_0x70 : (x : ℕ) → bit_or 0x70 (bit_and x 0x0f) ≡ 112 + x % 16
or_0x70 x = rw (mask_4 x) (bit_or_low 4 7 (x % 16) (omega arith))

pub or_0x80 : (x : ℕ) → bit_or 0x80 (bit_and x 0x3f) ≡ 128 + x % 64
or_0x80 x = rw (mask_6 x) (bit_or_low 6 2 (x % 64) (omega arith))

pub or_0x1000 : (x : ℕ) → bit_or (bit_and x 0x0fff % 2 ^ 16) 0x1000 ≡ 4096 + x % 4096
or_0x1000 x =
    omega
      (arith, mask_12 x, bit_or_high 12 1 (bit_and x 0x0fff % 2 ^ 16) (omega (arith, mask_12 x)))

pub or_0x20 : (x : ℕ) → bit_or (bit_and x 0x0f) 0x20 ≡ 32 + x % 16
or_0x20 x = omega (arith, version_nibble x 2)

pub ruleset fields = (variant_bits, or_0x60, or_0x70, or_0x80, or_0x1000, or_0x20)

-- The masks of the variant, which keep the high bits of a byte.
high_masks : ℕ → Bool
high_masks x =
    bit_and x 0x80 == x / 128 * 128
    && bit_and x 0xC0 == x / 64 * 64
    && bit_and x 0xE0 == x / 32 * 32

high_masks_table : all_below 256 high_masks ≡ true
unfolding all_below high_masks
high_masks_table = refl

pub mask_high :
    (x : ℕ)
    → x < 256
    → (bit_and x 0x80 ≡ x / 128 * 128)
      × (bit_and x 0xC0 ≡ x / 64 * 64)
      × (bit_and x 0xE0 ≡ x / 32 * 32)
unfolding high_masks
mask_high x h = ground (arith, all_below_sound 256 high_masks x high_masks_table h)
