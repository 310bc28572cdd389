-- ===== src/Parse.antt =====
-- fast_uuid.c: `fu_parse`, on the byte codes of the text. `none` is the result 0; the bytes that a
-- failing call has written by then are read by no caller, and are left out.
pub mod RoundTrip
pub mod Wrappers
pub mod Sound
pub mod Accept
use fast_uuid.Common.{
  ℕ, zero, suc, ◌+◌, ◌-◌, ◌*◌, ◌%◌, ◌^◌, Bool, true, false, not, ◌&&◌, ◌||◌, Option, none, some,
  List, [], ◌∷◌, get_or, take, drop, length, ltb, leb, ◌==◌, if◌then◌else◌, bit_or,
}
use fast_uuid.Common.Int.{ℤ, pos, negsuc}
use fast_uuid.Zend.{Zend}
use fast_uuid.Uuid.{Uuid, of_list}
use fast_uuid.Hex.{nib_lut}
use mathlib.Core.Option

-- "urn:uuid:"
abbrev pub urn : List ℕ
urn = b'u' ∷ b'r' ∷ b'n' ∷ b':' ∷ b'u' ∷ b'u' ∷ b'i' ∷ b'd' ∷ b':' ∷ []

abbrev pub is_zero : ℤ → Bool
is_zero (pos zero) = true
is_zero (pos (suc n)) = false
is_zero (negsuc n) = false

unfoldable pub has_urn : Zend → List ℕ → Bool
has_urn z s =
    leb 9 (length s)
    && (get_or s 0 0 == b'u' || get_or s 0 0 == b'U')
    && is_zero (z.strncasecmp s urn 9)

-- The first test of a pass of the loop: the prefix "urn:uuid:" is taken off.
unfoldable pub strip_urn : Zend → List ℕ → List ℕ
unfolding has_urn
strip_urn z s = if has_urn z s then drop 9 s else s

unfoldable pub has_braces : List ℕ → Bool
has_braces s = leb 2 (length s) && get_or s 0 0 == b'{' && get_or s (length s - 1) 0 == b'}'

-- The second: the braces around the text are taken off.
unfoldable pub strip_braces : List ℕ → List ℕ
unfolding has_braces
strip_braces s = if has_braces s then take (length s - 2) (drop 1 s) else s

-- `for (int pass = 0; pass < n; pass++)`
unfoldable pub strip : ℕ → Zend → List ℕ → List ℕ
unfolding strip_urn strip_braces
strip zero z s = s
strip (suc n) z s = strip n z (strip_braces (strip_urn z s))

-- `(hi << 4) | lo` of two digits; -1 for either makes the macro return.
unfoldable pub hex_byte : Option ℕ → Option ℕ → Option ℕ
hex_byte (some hi) (some lo) = some (bit_or (hi * 2 ^ 4) lo % 2 ^ 8)
hex_byte (some hi) none = none
hex_byte none lo = none

unfoldable pub join_byte : Option ℕ → Option (List ℕ) → Option (List ℕ)
join_byte none rest = none
join_byte (some x) none = none
join_byte (some x) (some xs) = some (x ∷ xs)

-- `FU_PARSE_HEX_BYTE_AT(pos, outidx)` at each of the positions, with `outidx` = 0, 1, ….
unfoldable pub read_bytes : List ℕ → List ℕ → Option (List ℕ)
unfolding join_byte
read_bytes s [] = some []
read_bytes s (p ∷ ps) =
    join_byte (hex_byte (nib_lut (get_or s p 0)) (nib_lut (get_or s (p + 1) 0))) (read_bytes s ps)

abbrev pub dashed_positions : List ℕ
dashed_positions = 0 ∷ 2 ∷ 4 ∷ 6 ∷ 9 ∷ 11 ∷ 14 ∷ 16 ∷ 19 ∷ 21 ∷ 24 ∷ 26 ∷ 28 ∷ 30 ∷ 32 ∷ 34 ∷ []

-- `i * 2` for `i` from `i` on.
abbrev pub bare_positions : ℕ → ℕ → List ℕ
bare_positions zero i = []
bare_positions (suc n) i = (i * 2) ∷ bare_positions n (i + 1)

abbrev pub has_dashes : List ℕ → Bool
has_dashes s =
    get_or s 8 0 == b'-' && get_or s 13 0 == b'-' && get_or s 18 0 == b'-' && get_or s 23 0 == b'-'

-- What follows the loop.
unfoldable pub parse_digits : List ℕ → Option Uuid
unfolding read_bytes
parse_digits s =
    if length s == 36
    then (if has_dashes s then Option.map of_list (read_bytes s dashed_positions) else none)
    else if length s == 32
    then Option.map of_list (read_bytes s (bare_positions 16 0))
    else none

unfoldable pub parse : Zend → List ℕ → Option Uuid
unfolding strip parse_digits
parse z s = parse_digits (strip 2 z s)
