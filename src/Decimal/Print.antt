-- ===== src/Decimal/Print.antt =====
-- What `fu_to_decimal` prints: the digits of the number, without a leading zero, in the room of its
-- buffer.
use fast_uuid.Common.{
  ℕ, zero, suc, ◌+◌, ◌*◌, ◌^◌, ◌<◌, ◌≤◌, ◌≡◌, ◌≢◌, refl, ap, ◌∙◌, arith, List, [], ◌∷◌, length, All,
  IsByte, get_or, ◌⊎◌, Bool-cases, inl, inr,
}
use native.Mathlib.Nat.{pow-suc}
use fast_uuid.Uuid.{Uuid, to_list, IsBytes}
use fast_uuid.Uuid.Order.{be_value, value}
use fast_uuid.Decimal.{div_ten, any_nonzero, decimal_loop, to_decimal}
use fast_uuid.Decimal.Digits.{IsDigit, spelled, div_ten_lem, be_value_zero, be_value_pos}

-- What the loop makes of a number of at most `k` digits, in front of other digits.
record Printed (n k : ℕ) (digits r : List ℕ) : Type 0 where
  spells : spelled r 0 ≡ spelled digits n
  fits : length r ≤ length digits + k
  grows : length digits < length r
  all_digits : All IsDigit r
  no_zero : 0 < n → get_or r 0 0 ≢ b'0'

one_digit :
    (rem : ℕ) (digits : List ℕ)
    → rem < 10
    → All IsDigit digits
    → (k : ℕ) → Printed rem (suc k) digits ((b'0' + rem) ∷ digits)
one_digit rem digits h d k = record {
  spells = ap (spelled digits) (omega arith);
  fits = omega arith;
  grows = omega arith;
  all_digits = (omega arith, d);
  no_zero = λ p. omega arith;
}

-- A digit of the rest, then the digits of the quotient.
next_digit :
    (n q rem k : ℕ) (digits r : List ℕ)
    → q * 10 + rem ≡ n
    → rem < 10
    → 0 < q
    → Printed q k ((b'0' + rem) ∷ digits) r
    → Printed n (suc k) digits r
next_digit n q rem k digits r e h pos p = record {
  spells = p.spells ∙ ap (spelled digits) (omega (arith, e));
  fits = omega (arith, p.fits);
  grows = omega (arith, p.grows);
  all_digits = p.all_digits;
  no_zero = λ _. p.no_zero pos;
}

some_room : (k q : ℕ) → 0 < q → q < 10 ^ k → 0 < k
some_room zero q p h = absurd (omega arith)
some_room (suc k) q p h = omega arith

decimal_loop-Printed :
    (room k : ℕ) (t digits : List ℕ)
    → k ≤ room
    → 0 < k
    → be_value t 0 < 10 ^ k
    → All IsByte t
    → All IsDigit digits
    → Printed (be_value t 0) k digits (decimal_loop room t digits)
unfolding decimal_loop
decimal_loop-Printed zero k t digits l p h b d = absurd (omega arith)
decimal_loop-Printed (suc room) zero t digits l p h b d = absurd (omega arith)
decimal_loop-Printed (suc room) (suc k) t digits l p h b d =
    let (e, r, n, a) = div_ten_lem t 0 0 b (omega arith) in
    let rem = (div_ten t 0).1 in
    let q = be_value (div_ten t 0).0 0 in
    elim (Bool-cases (any_nonzero (div_ten t 0).0)) [
      | inl more ↦
          let pos : 0 < q = be_value_pos (div_ten t 0).0 0 more in
          let small : q < 10 ^ k = omega (arith, e, h, pow-suc 10 k) in
          rw more (
            next_digit (be_value t 0) q rem k digits _ e r pos (
              decimal_loop-Printed room k (div_ten t 0).0 ((b'0' + rem) ∷ digits) (omega arith)
                (some_room k q pos small) small a (omega (arith, r), d)))
      | inr last ↦
          let n_is_rem : be_value t 0 ≡ rem =
            omega (arith, e, be_value_zero (div_ten t 0).0 last) in
          rw (last, n_is_rem) (one_digit rem digits r d k)
    ]

pub value-lt : (b : Uuid) → IsBytes b → value b < 2 ^ 128
unfolding value
value-lt b h = omega (arith, h)

-- A decimal text as `fu_from_decimal` accepts it: one to 39 digits, and no leading zero.
pub record IsDecimal (s : List ℕ) : Type 0 where
  pub digits : All IsDigit s
  pub nonempty : 0 < length s
  pub short : length s ≤ 39
  pub canonical : (get_or s 0 0 ≢ b'0') ⊎ (length s ≤ 1)

canonical_lem :
    (n : ℕ) (r : List ℕ)
    → (n ≡ 0 → length r ≤ 1)
    → (0 < n → get_or r 0 0 ≢ b'0')
    → (get_or r 0 0 ≢ b'0') ⊎ (length r ≤ 1)
canonical_lem zero r short no_zero = inr (short refl)
canonical_lem (suc n) r short no_zero = inl (no_zero (omega arith))

loop-IsDecimal :
    (t : List ℕ)
    → All IsByte t
    → be_value t 0 < 2 ^ 128
    → (spelled (decimal_loop 40 t []) 0 ≡ be_value t 0) × IsDecimal (decimal_loop 40 t [])
loop-IsDecimal t b h =
    let p = decimal_loop-Printed 40 39 t [] (omega arith) (omega arith) (omega arith) b tt in
    (
      p.spells,
      record {
        digits = p.all_digits;
        nonempty = p.grows;
        short = p.fits;
        canonical =
            canonical_lem (be_value t 0) (decimal_loop 40 t [])
              (λ z.
                (decimal_loop-Printed 40 1 t [] (omega arith) (omega arith) (omega (arith, z)) b
                  tt).fits)
              p.no_zero;
      },
    )

-- Sixteen bytes are printed as the digits of their 128-bit number, high byte first, in one to 39
-- digits without a leading zero, which the buffer of 40 has room for.
pub to_decimal-IsDecimal :
    (b : Uuid) → IsBytes b → (spelled (to_decimal b) 0 ≡ value b) × IsDecimal (to_decimal b)
unfolding to_decimal value
to_decimal-IsDecimal b h = loop-IsDecimal (to_list b) h (value-lt b h)
