-- ===== src/Compare/Order.antt =====
-- Comparison of UUIDs is the order of their 128-bit numbers.
use fast_uuid.Common.{
  ℕ, zero, suc, ◌+◌, ◌-◌, ◌*◌, ◌<◌, ◌≡◌, refl, sym, ap, ◌∙◌, arith, true, false, ◌==◌, some, List,
  [], ◌∷◌, length, All, IsByte, if◌then◌else◌, Bool-cases, inl, inr, ltb, leb, ok,
}
use fast_uuid.Common.Int.{ℤ, pos, negsuc, sub_ℕ}
use fast_uuid.Uuid.{Uuid, to_list, IsBytes}
use fast_uuid.Uuid.Order.{be_value, value}
use fast_uuid.Zend.{Zend}
use fast_uuid.Resolve.{Classes, uuid_object, resolve_uuid}
use fast_uuid.Compare.{memcmp, sign, compare_zvals, compare_to}

-- The order of numbers as -1, 0 and 1.
abbrev pub order_of : ℕ → ℕ → ℤ
order_of a b = if ltb a b then negsuc 0 else if ltb b a then pos 1 else pos 0

order_of_lt : (a b : ℕ) → a < b → order_of a b ≡ negsuc 0
order_of_lt a b h = ground arith

order_of_gt : (a b : ℕ) → b < a → order_of a b ≡ pos 1
order_of_gt a b h = ground arith

order_of_self : (a : ℕ) → order_of a a ≡ pos 0
order_of_self a = ground arith

sign_pos : (n : ℕ) → 0 < n → sign (pos n) ≡ pos 1
sign_pos zero h = absurd (omega arith)
sign_pos (suc n) h = refl

sign_lt : (a b : ℕ) → a < b → sign (sub_ℕ a b) ≡ negsuc 0
sign_lt a b h = let e : leb b a ≡ false = ground arith in rw e refl

sign_gt : (a b : ℕ) → b < a → sign (sub_ℕ a b) ≡ pos 1
sign_gt a b h = let e : leb b a ≡ true = ground arith in rw e (sign_pos (a - b) (omega arith))

-- Where the numbers in front differ, what follows does not matter.
be_value_lt :
    (xs ys : List ℕ) (n m : ℕ)
    → length xs ≡ length ys
    → All IsByte xs
    → All IsByte ys
    → n < m
    → be_value xs n < be_value ys m
be_value_lt [] [] n m l h k lt = lt
be_value_lt [] (y ∷ ys) n m l h k lt = absurd (omega arith)
be_value_lt (x ∷ xs) [] n m l h k lt = absurd (omega arith)
be_value_lt (x ∷ xs) (y ∷ ys) n m l h k lt =
    be_value_lt xs ys (n * 256 + x) (m * 256 + y) (omega arith) h.1 k.1 (omega (arith, h.0, k.0))

sign-memcmp :
    (xs ys : List ℕ) (n : ℕ)
    → length xs ≡ length ys
    → All IsByte xs
    → All IsByte ys
    → sign (memcmp xs ys) ≡ order_of (be_value xs n) (be_value ys n)
unfolding memcmp
sign-memcmp [] [] n l h k = sym (order_of_self n)
sign-memcmp [] (y ∷ ys) n l h k = absurd (omega arith)
sign-memcmp (x ∷ xs) [] n l h k = absurd (omega arith)
sign-memcmp (x ∷ xs) (y ∷ ys) n l h k = elim (Bool-cases (x == y)) [
  | inl e ↦
      let q : x ≡ y = ground (arith, e) in
      rw e (
        sign-memcmp xs ys (n * 256 + x) (omega arith) h.1 k.1
        ∙ ap (λ v. order_of (be_value xs (n * 256 + x)) (be_value ys (n * 256 + v))) q)
  | inr e ↦ elim (Bool-cases (ltb x y)) [
    | inl lt ↦
        let less : x < y = ground (arith, lt) in
        rw e (
          sign_lt x y less
          ∙ sym (
              order_of_lt _ _ (
                be_value_lt xs ys (n * 256 + x) (n * 256 + y) (omega arith) h.1 k.1 (omega arith))))
    | inr ge ↦
        let more : y < x = ground (arith, e, ge) in
        rw e (
          sign_gt x y more
          ∙ sym (
              order_of_gt _ _ (
                be_value_lt ys xs (n * 256 + y) (n * 256 + x) (omega arith) k.1 h.1 (omega arith))))
  ]
]

pub sign-memcmp-value :
    (u v : Uuid)
    → IsBytes u
    → IsBytes v
    → sign (memcmp (to_list u) (to_list v)) ≡ order_of (value u) (value v)
unfolding value
sign-memcmp-value u v h k = sign-memcmp (to_list u) (to_list v) 0 refl h k

module _ (c : Classes) (uuid_ce : ℕ) (z : Zend) where
  -- For two UUID objects of bytes, the comparison handler of the engine and compareTo give the order
  -- of their 128-bit numbers as -1, 0 or 1.
  pub compare_zvals-compare_to :
      (u v : Uuid)
      → IsBytes u
      → IsBytes v
      → (compare_zvals (uuid_object u) (uuid_object v) ≡ some (order_of (value u) (value v)))
        × (compare_to c uuid_ce z u (uuid_object v) ≡ ok (order_of (value u) (value v)))
  unfolding compare_zvals compare_to resolve_uuid
  compare_zvals-compare_to u v h k =
      (ap some (sign-memcmp-value u v h k), ap ok (sign-memcmp-value u v h k))
