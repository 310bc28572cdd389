-- ===== src/Decimal.antt =====
-- fast_uuid.c, big-integer helpers: `fu_to_decimal` and `fu_from_decimal`.
pub mod Digits
pub mod Print
pub mod Read
pub mod RoundTrip
use fast_uuid.Common.{
  ℕ, zero, suc, ◌+◌, ◌-◌, ◌*◌, ◌/◌, ◌%◌, ◌^◌, Bool, true, false, not, ◌&&◌, ◌||◌, Option, none,
  some, List, [], ◌∷◌, length, get_or, replicate, ltb, ◌==◌, if◌then◌else◌, bit_and, bit_or,
}
use fast_uuid.Uuid.{Uuid, of_list, to_list}
use fast_uuid.Layout.{u8, shr}

-- The inner loop of `fu_to_decimal` over the bytes that are left: the quotients by ten, and the last
-- remainder.
unfoldable pub div_ten : List ℕ → ℕ → List ℕ × ℕ
div_ten [] rem = ([], rem)
div_ten (x ∷ xs) rem =
    let cur = bit_or (rem * 2 ^ 8) x in
    let (qs, r) = div_ten xs (cur % 10) in (u8 (cur / 10) ∷ qs, r)

-- `nz`
abbrev pub any_nonzero : List ℕ → Bool
any_nonzero [] = false
any_nonzero (x ∷ xs) = not (x == 0) || any_nonzero xs

-- `do … while (nz)`; the fuel is the room of `buf`, and `digits` is what it holds from `pos` on.
unfoldable pub decimal_loop : ℕ → List ℕ → List ℕ → List ℕ
unfolding div_ten
decimal_loop zero t digits = digits
decimal_loop (suc room) t digits =
    let (qs, rem) = div_ten t 0 in
    let longer = (b'0' + rem) ∷ digits in
    let rest = decimal_loop room qs longer in if any_nonzero qs then rest else longer

unfoldable pub to_decimal : Uuid → List ℕ
unfolding decimal_loop
to_decimal b = decimal_loop 40 (to_list b) []

-- The inner loop of `fu_from_decimal`, from the last byte on: the new bytes, and the carry.
unfoldable pub mul_ten : List ℕ → ℕ → List ℕ × ℕ
mul_ten [] carry = ([], carry)
mul_ten (x ∷ xs) carry =
    let (ys, c) = mul_ten xs carry in let cur = x * 10 + c in (bit_and cur 0xff ∷ ys, shr cur 8)

-- The loop over the digits; `none` is the result 0.
unfoldable pub read_digits : List ℕ → List ℕ → Option (List ℕ)
unfolding mul_ten
read_digits [] out = some out
read_digits (c ∷ cs) out =
    let (out', carry) = mul_ten out (c - b'0') in
    let rest = read_digits cs out' in
    if ltb c b'0' || ltb b'9' c then none else if not (carry == 0) then none else rest

unfoldable pub as_uuid : Option (List ℕ) → Option Uuid
as_uuid none = none
as_uuid (some out) = some (of_list out)

unfoldable pub from_decimal : List ℕ → Option Uuid
unfolding read_digits as_uuid
from_decimal s =
    if length s == 0
    then none
    else if ltb 1 (length s) && get_or s 0 0 == b'0' || ltb 39 (length s)
    then none
    else as_uuid (read_digits s (replicate 16 0))
