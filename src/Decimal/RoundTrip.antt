-- ===== src/Decimal/RoundTrip.antt =====
-- `fu_to_decimal` and `fu_from_decimal` are inverse to each other.
use fast_uuid.Common.{
  ℕ, zero, suc, ◌+◌, ◌-◌, ◌^◌, ◌<◌, ◌≤◌, ◌≡◌, ◌≢◌, refl, sym, ap, ◌∙◌, arith, some, List, ◌∷◌,
  length, All, get_or, inl, inr, ◌⊎◌, leb, Bool-cases, ◌↔◌,
}
use mathlib.Core.Path.{subst}
use fast_uuid.Uuid.{Uuid, to_list, of_list, IsBytes}
use fast_uuid.Uuid.Order.{value}
use fast_uuid.Decimal.{to_decimal, from_decimal}
use fast_uuid.Decimal.Digits.{IsDigit, spelled, spelled_injective, be_value_injective}
use fast_uuid.Decimal.Print.{IsDecimal, to_decimal-IsDecimal, value-lt}
use fast_uuid.Decimal.Read.{from_decimal_sound, from_decimal_complete}

-- The 128-bit number determines the bytes.
pub value_injective : (u v : Uuid) → IsBytes u → IsBytes v → value u ≡ value v → u ≡ v
unfolding value
value_injective u v h k e = ap of_list (be_value_injective (to_list u) (to_list v) 0 0 refl h k e).1

-- Zeros in front of digits.
pad : ℕ → List ℕ → List ℕ
pad zero cs = cs
pad (suc n) cs = b'0' ∷ pad n cs

spelled-pad : (n : ℕ) (cs : List ℕ) → spelled (pad n cs) 0 ≡ spelled cs 0
unfolding pad
spelled-pad zero cs = refl
spelled-pad (suc n) cs = spelled-pad n cs

length-pad : (n : ℕ) (cs : List ℕ) → length (pad n cs) ≡ n + length cs
unfolding pad
length-pad zero cs = omega arith
length-pad (suc n) cs = omega (arith, length-pad n cs)

pad-IsDigit : (n : ℕ) (cs : List ℕ) → All IsDigit cs → All IsDigit (pad n cs)
unfolding pad
pad-IsDigit zero cs h = h
pad-IsDigit (suc n) cs h = (omega arith, pad-IsDigit n cs h)

-- Of two decimal texts of one number, the shorter one padded is the longer one, which has no zero
-- in front.
padded :
    (n : ℕ) (s t : List ℕ)
    → length t ≡ n + length s
    → IsDecimal s
    → IsDecimal t
    → spelled s 0 ≡ spelled t 0
    → s ≡ t
unfolding pad
padded zero s t l h k e = (spelled_injective s t 0 0 (omega arith) h.digits k.digits e).1
padded (suc n) s t l h k e =
    let (_, q) =
      spelled_injective (pad (suc n) s) t 0 0 (omega (arith, length-pad (suc n) s))
        (pad-IsDigit (suc n) s h.digits) k.digits (spelled-pad (suc n) s ∙ e) in
    absurd (clash k.canonical (sym (ap (λ x. get_or x 0 0) q)))
  where
    clash : (get_or t 0 0 ≢ b'0') ⊎ (length t ≤ 1) → get_or t 0 0 ≡ b'0' → ⊥
    clash (inl a) b = a b
    clash (inr a) b = omega (arith, a, h.nonempty)

decimal_injective : (s t : List ℕ) → IsDecimal s → IsDecimal t → spelled s 0 ≡ spelled t 0 → s ≡ t
decimal_injective s t h k e = elim (Bool-cases (leb (length s) (length t))) [
  | inl l ↦ padded (length t - length s) s t (ground (arith, l)) h k e
  | inr l ↦ sym (padded (length s - length t) t s (ground (arith, l)) k h (sym e))
]

-- What is printed is read back.
pub from_decimal-to_decimal : (u : Uuid) → IsBytes u → from_decimal (to_decimal u) ≡ some u
from_decimal-to_decimal u h =
    let (e, d) = to_decimal-IsDecimal u h in
    let (v, q) =
      from_decimal_complete (to_decimal u) d (subst (λ n. n < 2 ^ 128) (sym e) (value-lt u h)) in
    let (_, b, w) = from_decimal_sound (to_decimal u) v q in
    q ∙ ap some (value_injective v u b h (sym w ∙ e))

-- A text is read as sixteen bytes exactly when it is what they are printed as.
pub from_decimal_iff :
    (s : List ℕ) (u : Uuid) → (from_decimal s ≡ some u) ↔ (IsBytes u × (s ≡ to_decimal u))
from_decimal_iff s u = (
  (λ e.
      let (d, b, w) = from_decimal_sound s u e in
      let (w', d') = to_decimal-IsDecimal u b in
      (b, decimal_injective s (to_decimal u) d d' (w ∙ sym w'))),
  (λ (b, e). subst (λ t. from_decimal t ≡ some u) (sym e) (from_decimal-to_decimal u b)),
)
