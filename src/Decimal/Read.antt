-- ===== src/Decimal/Read.antt =====
-- What `fu_from_decimal` accepts: exactly the decimal texts below 2^128, and the bytes spell their
-- number.
use fast_uuid.Common.{
  ℕ, ◌+◌, ◌-◌, ◌*◌, ◌^◌, ◌<◌, ◌≤◌, ◌≡◌, ◌≢◌, refl, sym, ap, ◌∙◌, arith, false, not, ◌&&◌, ◌||◌,
  ◌==◌, Option, none, some, List, [], ◌∷◌, length, All, IsByte, get_or, Bool-cases, inl, inr,
  replicate, ltb, ◌⊎◌,
}
use mathlib.Core.Path.{subst}
use mathlib.Core.Option.{some-injective}
use fast_uuid.Uuid.{Uuid, of_list, IsBytes}
use fast_uuid.Uuid.Order.{be_value, value, to_list-of_list}
use fast_uuid.Decimal.{mul_ten, read_digits, as_uuid, from_decimal}
use fast_uuid.Decimal.Digits.{IsDigit, spelled, le-spelled, mul_ten_lem, mul_ten-be_value}
use fast_uuid.Decimal.Print.{IsDecimal}

-- Sixteen bytes.
abbrev IsArray : List ℕ → Type 0
IsArray xs = (length xs ≡ 16) × All IsByte xs

-- A carry is worth 2^128 at least.
be_value_mono :
    (xs : List ℕ) (n m : ℕ) → n ≤ m → be_value (replicate (length xs) 0) n ≤ be_value xs m
be_value_mono [] n m h = h
be_value_mono (x ∷ xs) n m h = be_value_mono xs (n * 256 + 0) (m * 256 + x) (omega arith)

overflow : (xs : List ℕ) (n : ℕ) → length xs ≡ 16 → 0 < n → 2 ^ 128 ≤ be_value xs n
overflow xs n l h =
    let e = ap (λ k. be_value (replicate k 0) 1) l in
    let b = be_value_mono xs 1 n h in omega (arith, e, b)

read_digits_sound :
    (cs out r : List ℕ)
    → IsArray out
    → read_digits cs out ≡ some r
    → IsArray r × All IsDigit cs × (be_value r 0 ≡ spelled cs (be_value out 0))
unfolding read_digits
read_digits_sound [] out r a e =
    let f : out ≡ r = some-injective out r e in
    (subst IsArray f a, tt, ap (λ x. be_value x 0) (sym f))
read_digits_sound (c ∷ cs) out r a e =
    let (_, l, b) = mul_ten_lem out (c - b'0') 0 in
    let p = mul_ten-be_value out (c - b'0') in
    elim (Bool-cases (ltb c b'0' || ltb b'9' c)) [
      | inl bad ↦ absurd (ground (arith, e, bad))
      | inr good ↦ elim (Bool-cases (not ((mul_ten out (c - b'0')).1 == 0))) [
        | inl big ↦ absurd (ground (arith, e, good, big))
        | inr none_left ↦
            let z : (mul_ten out (c - b'0')).1 ≡ 0 = ground (arith, none_left) in
            let (a', d, v) =
              read_digits_sound cs (mul_ten out (c - b'0')).0 r (l ∙ a.0, b)
                (rw (good, none_left) at e) in
            (
              a',
              (ground (arith, good), d),
              v ∙ ap (spelled cs) (ap (be_value (mul_ten out (c - b'0')).0) (sym z) ∙ p),
            )
      ]
    ]

read_digits_complete :
    (cs out : List ℕ)
    → IsArray out
    → All IsDigit cs
    → spelled cs (be_value out 0) < 2 ^ 128
    → (r : List ℕ) × (read_digits cs out ≡ some r)
unfolding read_digits
read_digits_complete [] out a d h = (out, refl)
read_digits_complete (c ∷ cs) out a d h =
    let (_, l, b) = mul_ten_lem out (c - b'0') 0 in
    let p = mul_ten-be_value out (c - b'0') in
    let carry = (mul_ten out (c - b'0')).1 in
    let good : (ltb c b'0' || ltb b'9' c) ≡ false = ground (arith, d.0) in
    let low = le-spelled cs (be_value out 0 * 10 + (c - b'0')) in
    elim (Bool-cases (not (carry == 0))) [
      | inl big ↦ absurd (
          omega (
            arith,
            p,
            low,
            h,
            overflow (mul_ten out (c - b'0')).0 carry (l ∙ a.0) (ground (arith, big)),
          ))
      | inr none_left ↦
          let z : carry ≡ 0 = ground (arith, none_left) in
          let v = ap (be_value (mul_ten out (c - b'0')).0) (sym z) ∙ p in
          rw (good, none_left)
            (read_digits_complete cs (mul_ten out (c - b'0')).0 (l ∙ a.0, b) d.1
              (subst (λ n. spelled cs n < 2 ^ 128) (sym v) h))
    ]

start_IsArray : IsArray (replicate 16 0)
start_IsArray = omega arith

-- Any text of bytes that is accepted is decimal, and the bytes are those of its number; every
-- decimal text of a number below 2^128 is accepted.
as_uuid-some :
    (o : Option (List ℕ)) (u : Uuid)
    → as_uuid o ≡ some u
    → (r : List ℕ) × (o ≡ some r) × (of_list r ≡ u)
unfolding as_uuid
as_uuid-some none u e = absurd (ground arith)
as_uuid-some (some r) u e = (r, refl, some-injective (of_list r) u e)

of_list-value : (r : List ℕ) → IsArray r → IsBytes (of_list r) × (value (of_list r) ≡ be_value r 0)
unfolding value
of_list-value r a =
    let e = to_list-of_list r a.0 in (subst (All IsByte) (sym e) a.1, ap (λ xs. be_value xs 0) e)

canonical_text :
    (s : List ℕ)
    → (ltb 1 (length s) && get_or s 0 0 == b'0' || ltb 39 (length s)) ≡ false
    → (get_or s 0 0 ≢ b'0') ⊎ (length s ≤ 1)
canonical_text s g = elim (Bool-cases (ltb 1 (length s))) [
  | inl e ↦ inl (ground (arith, g, e))
  | inr e ↦ inr (ground (arith, e))
]

pub from_decimal_sound :
    (s : List ℕ) (u : Uuid)
    → from_decimal s ≡ some u
    → IsDecimal s × IsBytes u × (spelled s 0 ≡ value u)
unfolding from_decimal
from_decimal_sound s u e = elim (Bool-cases (length s == 0)) [
  | inl f ↦ absurd (ground (arith, e, f))
  | inr f ↦ elim (Bool-cases (ltb 1 (length s) && get_or s 0 0 == b'0' || ltb 39 (length s))) [
    | inl g ↦ absurd (ground (arith, e, f, g))
    | inr g ↦
        let (r, q, w) = as_uuid-some (read_digits s (replicate 16 0)) u (rw (f, g) at e) in
        let (a, d, v) = read_digits_sound s (replicate 16 0) r start_IsArray q in
        let (b, x) = of_list-value r a in
        (
          record {
            digits = d;
            nonempty = ground (arith, f);
            short = ground (arith, g);
            canonical = canonical_text s g;
          },
          subst IsBytes w b,
          sym (ap value (sym w) ∙ x ∙ v),
        )
  ]
]

pub from_decimal_complete :
    (s : List ℕ) → IsDecimal s → spelled s 0 < 2 ^ 128 → (u : Uuid) × (from_decimal s ≡ some u)
unfolding from_decimal as_uuid
from_decimal_complete s d h =
    let (r, q) = read_digits_complete s (replicate 16 0) start_IsArray d.digits h in
    let f : (length s == 0) ≡ false = ground (arith, d.nonempty) in
    let g : (ltb 1 (length s) && get_or s 0 0 == b'0' || ltb 39 (length s)) ≡ false =
      ground (arith, d.short, d.canonical) in
    (of_list r, rw (f, g, q) refl)
