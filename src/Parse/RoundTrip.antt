-- ===== src/Parse/RoundTrip.antt =====
-- `fu_parse` reads back what the formatters write.
use fast_uuid.Common.{
  ℕ, zero, suc, ◌+◌, ◌*◌, ◌/◌, ◌%◌, ◌<◌, ◌≡◌, ◌≢◌, refl, some, List, get_or, arith,
}
use fast_uuid.Common.Bits.{bit_or_low}
use fast_uuid.Zend.{Zend}
use fast_uuid.Uuid.{Uuid, IsBytes}
use fast_uuid.Hex.{lut, nib_lut, hex32_scalar, format36}
use fast_uuid.Hex.Digits.{nib_lut-lut_high, nib_lut-lut_low}
use fast_uuid.Parse.{strip_urn, strip_braces, strip, hex_byte, parse_digits}

hex_byte-lut :
    (x : ℕ) → x < 256 → hex_byte (nib_lut (lut (x * 2))) (nib_lut (lut (x * 2 + 1))) ≡ some x
unfolding hex_byte
hex_byte-lut x h =
    rw (nib_lut-lut_high x h, nib_lut-lut_low x h) (ground (arith, bit_or_low 4 (x / 16) (x % 16)))

-- Text that does not begin like a wrapper is left alone.
pub strip-eq_self :
    (n : ℕ) (z : Zend) (s : List ℕ)
    → get_or s 0 0 ≢ b'u'
    → get_or s 0 0 ≢ b'U'
    → get_or s 0 0 ≢ b'{'
    → strip n z s ≡ s
unfolding strip
strip-eq_self zero z s u v b = refl
strip-eq_self (suc n) z s u v b = rw (unwrapped) (strip-eq_self n z s u v b)
  where
    no_urn : strip_urn z s ≡ s
    no_urn = ground arith

    unwrapped : strip_braces (strip_urn z s) ≡ s
    unwrapped = rw no_urn (ground arith)

pub parse_digits-format36 : (u : Uuid) → IsBytes u → parse_digits (format36 u) ≡ some u
unfolding parse_digits format36
parse_digits-format36 u h = simp (
  hex_byte-lut u.b0 h.0,
  hex_byte-lut u.b1 h.1.0,
  hex_byte-lut u.b2 h.1.1.0,
  hex_byte-lut u.b3 h.1.1.1.0,
  hex_byte-lut u.b4 h.1.1.1.1.0,
  hex_byte-lut u.b5 h.1.1.1.1.1.0,
  hex_byte-lut u.b6 h.1.1.1.1.1.1.0,
  hex_byte-lut u.b7 h.1.1.1.1.1.1.1.0,
  hex_byte-lut u.b8 h.1.1.1.1.1.1.1.1.0,
  hex_byte-lut u.b9 h.1.1.1.1.1.1.1.1.1.0,
  hex_byte-lut u.b10 h.1.1.1.1.1.1.1.1.1.1.0,
  hex_byte-lut u.b11 h.1.1.1.1.1.1.1.1.1.1.1.0,
  hex_byte-lut u.b12 h.1.1.1.1.1.1.1.1.1.1.1.1.0,
  hex_byte-lut u.b13 h.1.1.1.1.1.1.1.1.1.1.1.1.1.0,
  hex_byte-lut u.b14 h.1.1.1.1.1.1.1.1.1.1.1.1.1.1.0,
  hex_byte-lut u.b15 h.1.1.1.1.1.1.1.1.1.1.1.1.1.1.1.0,
)

pub parse_digits-hex32_scalar : (u : Uuid) → IsBytes u → parse_digits (hex32_scalar u) ≡ some u
unfolding parse_digits hex32_scalar
parse_digits-hex32_scalar u h = simp (
  hex_byte-lut u.b0 h.0,
  hex_byte-lut u.b1 h.1.0,
  hex_byte-lut u.b2 h.1.1.0,
  hex_byte-lut u.b3 h.1.1.1.0,
  hex_byte-lut u.b4 h.1.1.1.1.0,
  hex_byte-lut u.b5 h.1.1.1.1.1.0,
  hex_byte-lut u.b6 h.1.1.1.1.1.1.0,
  hex_byte-lut u.b7 h.1.1.1.1.1.1.1.0,
  hex_byte-lut u.b8 h.1.1.1.1.1.1.1.1.0,
  hex_byte-lut u.b9 h.1.1.1.1.1.1.1.1.1.0,
  hex_byte-lut u.b10 h.1.1.1.1.1.1.1.1.1.1.0,
  hex_byte-lut u.b11 h.1.1.1.1.1.1.1.1.1.1.1.0,
  hex_byte-lut u.b12 h.1.1.1.1.1.1.1.1.1.1.1.1.0,
  hex_byte-lut u.b13 h.1.1.1.1.1.1.1.1.1.1.1.1.1.0,
  hex_byte-lut u.b14 h.1.1.1.1.1.1.1.1.1.1.1.1.1.1.0,
  hex_byte-lut u.b15 h.1.1.1.1.1.1.1.1.1.1.1.1.1.1.1.0,
)

-- Canonical text begins with a digit.
pub format36_head : (u : Uuid) → get_or (format36 u) 0 0 ≡ lut (u.b0 * 2)
unfolding format36
format36_head u = refl

pub hex32_scalar_head : (u : Uuid) → get_or (hex32_scalar u) 0 0 ≡ lut (u.b0 * 2)
unfolding hex32_scalar
hex32_scalar_head u = refl
