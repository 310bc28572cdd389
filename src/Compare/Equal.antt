-- ===== src/Compare/Equal.antt =====
-- Equality of a UUID and an argument: the argument resolves to the same bytes.
use fast_uuid.Common.{
  ℕ, zero, suc, ◌-◌, ◌≡◌, ◌≢◌, refl, sym, ap, arith, true, false, ◌==◌, Option, some, none, List,
  [], ◌∷◌, length, Bool-cases, inl, inr, leb, Result, ok, err, ◌↔◌,
}
use mathlib.Core.Path.{subst}
use fast_uuid.Common.Int.{pos, sub_ℕ}
use fast_uuid.Uuid.{Uuid, to_list, of_list}
use fast_uuid.Zend.{Zend}
use fast_uuid.Resolve.{Classes, Zval, resolve_uuid}
use fast_uuid.Compare.{memcmp, is_zero_ℤ, equal_or, equals}

pub memcmp_self : (xs : List ℕ) → memcmp xs xs ≡ pos 0
unfolding memcmp
memcmp_self [] = refl
memcmp_self (x ∷ xs) = let e : (x == x) ≡ true = ground arith in rw e (memcmp_self xs)

sub_ℕ-ne_zero : (x y : ℕ) → (x == y) ≡ false → is_zero_ℤ (sub_ℕ x y) ≡ false
sub_ℕ-ne_zero x y h = elim (Bool-cases (leb y x)) [
  | inl e ↦ rw e (positive (x - y) (ground (arith, h, e)))
  | inr e ↦ rw e refl
]
  where
    positive : (n : ℕ) → n ≢ 0 → is_zero_ℤ (pos n) ≡ false
    positive zero h = absurd (h refl)
    positive (suc n) h = refl

pub memcmp_zero :
    (xs ys : List ℕ) → length xs ≡ length ys → is_zero_ℤ (memcmp xs ys) ≡ true → xs ≡ ys
unfolding memcmp
memcmp_zero [] [] l h = refl
memcmp_zero [] (y ∷ ys) l h = absurd (omega arith)
memcmp_zero (x ∷ xs) [] l h = absurd (omega arith)
memcmp_zero (x ∷ xs) (y ∷ ys) l h = elim (Bool-cases (x == y)) [
  | inl e ↦
      let q : x ≡ y = ground (arith, e) in
      let t = memcmp_zero xs ys (omega arith) (rw e at h) in rw (q, t) refl
  | inr e ↦ let h' = rw e at h in absurd (ground (arith, h', sub_ℕ-ne_zero x y e))
]

to_list_injective : (u v : Uuid) → to_list u ≡ to_list v → u ≡ v
to_list_injective u v e = ap of_list e

found_or : Uuid → Result (Option Uuid) → Uuid
found_or u (err e) = u
found_or u (ok none) = u
found_or u (ok (some v)) = v

module _ (c : Classes) (uuid_ce : ℕ) (z : Zend) where
  equal_or_iff :
      (self : Uuid) (r : Result (Option Uuid))
      → (equal_or c uuid_ce z self r ≡ ok true) ↔ (r ≡ ok (some self))
  unfolding found_or
  equal_or_iff self (err e) = (λ h. absurd (ground arith), λ h. absurd (ground arith))
  equal_or_iff self (ok none) = (λ h. absurd (ground arith), λ h. absurd (ground arith))
  equal_or_iff self (ok (some u)) = (
    (λ h.
        ap (λ v. ok (some v))
          (sym (
            to_list_injective self u
              (memcmp_zero (to_list self) (to_list u) refl (ground (arith, h)))))),
    (λ h.
        subst (λ v. ok (is_zero_ℤ (memcmp (to_list self) (to_list v))) ≡ ok true)
          (sym (ap (found_or self) h)) (ap (λ r. ok (is_zero_ℤ r)) (memcmp_self (to_list self)))),
  )

  -- A UUID equals an argument exactly when the argument resolves to its bytes.
  pub equals_iff :
      (self : Uuid) (o : Zval)
      → (equals c uuid_ce z self o ≡ ok true) ↔ (resolve_uuid c uuid_ce z o ≡ ok (some self))
  unfolding equals
  equals_iff self o = equal_or_iff self (resolve_uuid c uuid_ce z o)
