-- ===== src/Compare.antt =====
-- fast_uuid.c: comparison. `fu_compare` of the engine's handlers, and the methods equals and
-- compareTo, by `memcmp` on the sixteen bytes.
pub mod Order
pub mod Equal
use fast_uuid.Common.{
  ℕ, zero, suc, ◌+◌, ◌-◌, Bool, true, false, ◌==◌, Option, none, some, List, [], ◌∷◌, if◌then◌else◌,
  Result, ok, err, invalid_argument,
}
use fast_uuid.Common.Int.{ℤ, pos, negsuc, sub_ℕ}
use fast_uuid.Uuid.{Uuid, to_list}
use fast_uuid.Zend.{Zend}
use fast_uuid.Resolve.{Classes, Zval, uuid_object, object, string, other, resolve_uuid}

-- `memcmp`: the difference of the first bytes that differ.
unfoldable pub memcmp : List ℕ → List ℕ → ℤ
memcmp [] ys = pos 0
memcmp (x ∷ xs) [] = pos 0
memcmp (x ∷ xs) (y ∷ ys) = let rest = memcmp xs ys in if x == y then rest else sub_ℕ x y

-- `r < 0 ? -1 : (r > 0 ? 1 : 0)`
abbrev pub sign : ℤ → ℤ
sign (negsuc n) = negsuc 0
sign (pos zero) = pos 0
sign (pos (suc n)) = pos 1

abbrev pub is_zero_ℤ : ℤ → Bool
is_zero_ℤ (negsuc n) = false
is_zero_ℤ (pos zero) = true
is_zero_ℤ (pos (suc n)) = false

-- `fu_compare`; `none` is `ZEND_UNCOMPARABLE`.
unfoldable pub compare_zvals : Zval → Zval → Option ℤ
unfolding memcmp
compare_zvals (uuid_object u) (uuid_object v) = some (sign (memcmp (to_list u) (to_list v)))
compare_zvals (uuid_object u) (object o) = none
compare_zvals (uuid_object u) (string s) = none
compare_zvals (uuid_object u) other = none
compare_zvals (object o) b = none
compare_zvals (string s) b = none
compare_zvals other b = none

module _ (c : Classes) (uuid_ce : ℕ) (z : Zend) where
  abbrev pub equal_or : Uuid → Result (Option Uuid) → Result Bool
  equal_or self (err e) = err e
  equal_or self (ok none) = ok false
  equal_or self (ok (some u)) = ok (is_zero_ℤ (memcmp (to_list self) (to_list u)))

  unfoldable pub equals : Uuid → Zval → Result Bool
  unfolding memcmp resolve_uuid
  equals self o = equal_or self (resolve_uuid c uuid_ce z o)

  abbrev pub compare_or : Uuid → Result (Option Uuid) → Result ℤ
  compare_or self (err e) = err e
  compare_or self (ok none) = err (invalid_argument "Not comparable")
  compare_or self (ok (some u)) = ok (sign (memcmp (to_list self) (to_list u)))

  unfoldable pub compare_to : Uuid → Zval → Result ℤ
  unfolding memcmp resolve_uuid
  compare_to self o = compare_or self (resolve_uuid c uuid_ce z o)
