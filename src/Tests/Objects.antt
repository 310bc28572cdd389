-- ===== src/Tests/Objects.antt =====
-- Each theorem on objects, dates and decimal numbers applied to concrete inputs.
use fast_uuid.Common.{
  ◌≢◌, sym, ap, ◌∙◌, List, ℕ, ◌%◌, ◌≡◌, ◌↔◌, refl, arith, true, false, some, none, List, [], ◌∷◌,
  length, replicate, inr, ok,
}
use fast_uuid.Common.Int.{pos}
use fast_uuid.Uuid.{Uuid, of_list, IsBytes}
use fast_uuid.Uuid.Order.{value}
use fast_uuid.Decimal.{to_decimal, from_decimal}
use fast_uuid.Decimal.Digits.{spelled}
use fast_uuid.Decimal.Print.{IsDecimal, to_decimal-IsDecimal}
use fast_uuid.Decimal.RoundTrip.{from_decimal_iff}
use fast_uuid.Resolve.{
  static_name, parent_name, Method, Foreign, uuid_object, object, named, script, resolve_uuid,
  self_name,
}
use fast_uuid.Resolve.MayReturn.{Meets, Declares, listed, resolve_uuid-core}
use fast_uuid.Compare.{compare_zvals, compare_to, equals}
use fast_uuid.Compare.Order.{order_of, compare_zvals-compare_to}
use fast_uuid.Compare.Equal.{equals_iff}
use fast_uuid.DateTime.{Date, Called, Returned, dt_secs_micros}
use fast_uuid.DateTime
use fast_uuid.DateTime.Micros.{HasMicros, dt_secs_micros-HasMicros}
use fast_uuid.Methods.Named.{uuid3, uuid5, NamedIn, uuid3-uuid5-NamedIn}
use fast_uuid.Tests.Params.{zend, All-replicate, classes}

abbrev low : Uuid
low = of_list (replicate 16 7)

low-IsBytes : IsBytes low
low-IsBytes = omega arith

abbrev high : Uuid
high = of_list (replicate 16 0xfe)

high-IsBytes : IsBytes high
high-IsBytes = omega arith

to_decimal-IsDecimal_example :
    (spelled (to_decimal high) 0 ≡ value high) × IsDecimal (to_decimal high)
to_decimal-IsDecimal_example = to_decimal-IsDecimal high high-IsBytes

from_decimal_iff_example :
    (from_decimal (b'4' ∷ b'2' ∷ []) ≡ some low)
    ↔ (IsBytes low × (b'4' ∷ b'2' ∷ [] ≡ to_decimal low))
from_decimal_iff_example = from_decimal_iff (b'4' ∷ b'2' ∷ []) low

-- A method getCore of the class 4, public, which declares a class by its name.
abbrev get_core : Method
get_core = record {
  has_return_type = true;
  return_type = named 0 (script (b'U' ∷ []));
  scope = some 4;
  required_num_args = 0;
  fn_flags = 1;
}

abbrev wrapper : Foreign
wrapper = record { getcore = some get_core; core = ok (some high); text = none }

get_core-Declares : Declares classes get_core 3
unfolding Meets
get_core-Declares =
    let other : (n : ℕ) → n ≢ 1 → (s : List ℕ) → length s ≡ n → b'U' ∷ [] ≢ s =
      λ n h s l e. h (sym l ∙ ap length (sym e)) in
    inr (
      inr (
        3,
        listed (b'U' ∷ []) refl (other 4 (omega arith) self_name refl)
            (other 6 (omega arith) static_name refl) (other 6 (omega arith) parent_name refl) refl,
        refl,
      ))

resolve_uuid-core_example : resolve_uuid classes 3 zend (object wrapper) ≡ ok (some high)
resolve_uuid-core_example =
    resolve_uuid-core classes 3 zend wrapper get_core high refl refl refl get_core-Declares refl

compare_zvals-compare_to_example :
    (compare_zvals (uuid_object low) (uuid_object high) ≡ some (order_of (value low) (value high)))
    × (compare_to classes 3 zend low (uuid_object high) ≡ ok (order_of (value low) (value high)))
compare_zvals-compare_to_example =
    compare_zvals-compare_to classes 3 zend low high low-IsBytes high-IsBytes

equals_iff_example :
    (equals classes 3 zend low (object wrapper) ≡ ok true)
    ↔ (resolve_uuid classes 3 zend (object wrapper) ≡ ok (some low))
equals_iff_example = equals_iff classes 3 zend low (object wrapper)

abbrev overridden : Date
overridden = record {
  is_builtin = false;
  cached = none;
  get_timestamp = DateTime.returned (DateTime.integer (pos 5));
  format_u = DateTime.returned (DateTime.text (b'0' ∷ b'1' ∷ b'2' ∷ b'3' ∷ b'4' ∷ b'5' ∷ []));
}

dt_secs_micros-HasMicros_example : HasMicros (dt_secs_micros overridden)
dt_secs_micros-HasMicros_example = dt_secs_micros-HasMicros overridden tt

-- A digest of twenty equal bytes.
abbrev digest20 : List ℕ → List ℕ
digest20 xs = replicate 20 (length xs % 256)

uuid3-uuid5-NamedIn_example :
    NamedIn digest20 3
      (resolve_uuid classes 3 zend (object wrapper))
      (b'a' ∷ [])
      (uuid3 classes 3 zend digest20 (object wrapper) (b'a' ∷ []))
    × NamedIn digest20 5
        (resolve_uuid classes 3 zend (object wrapper))
        (b'a' ∷ [])
        (uuid5 classes 3 zend digest20 (object wrapper) (b'a' ∷ []))
uuid3-uuid5-NamedIn_example =
    uuid3-uuid5-NamedIn classes 3 zend digest20
      (λ xs. All-replicate 20 (length xs % 256) (omega arith)) (object wrapper) (b'a' ∷ [])
