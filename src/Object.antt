-- ===== src/Object.antt =====
-- fast_uuid.c, object and instance methods: the sixteen bytes of an object with its text, which is
-- built once and kept, and what the methods read from the bytes.
use fast_uuid.Common.{
  ℕ, ◌+◌, ◌*◌, ◌/◌, ◌%◌, ◌≡◌, refl, Bool, true, false, not, ◌&&◌, ◌||◌, Option, none, some, List,
  [], ◌∷◌, ◌++◌, take, drop, length, ◌==◌, ltb, if◌then◌else◌, bit_and, Result, ok, err,
  invalid_argument, unsupported_operation,
}
use fast_uuid.Common.Int.{ℤ, pos, negsuc, ◌+ℤ◌, ◌*ℤ◌}
use fast_uuid.Uuid.{Uuid, of_list, to_list}
use fast_uuid.Hex.{format36, hex32_scalar}
use fast_uuid.Zend.{Zend}
use fast_uuid.Parse.{urn, parse}
use fast_uuid.Layout.{decode_time, variant_is_rfc, version}
pub mod Cache

-- `fu_obj`
pub record Obj : Type 0 where
  pub bytes : Uuid
  pub text : Option (List ℕ)

-- `fu_create` and `fu_clone`
unfoldable pub create : Obj
create = record { bytes = of_list []; text = none }

unfoldable pub clone : Obj → Obj
unfolding create
clone o = record create { bytes = o.bytes }

unfoldable pub built : Obj → Option (List ℕ) → List ℕ × Obj
built o (some s) = (s, o)
built o none = let s = format36 o.bytes in (s, record o { text = some s })

-- `fu_str`, which toString and jsonSerialize return.
unfoldable pub fu_str : Obj → List ℕ × Obj
unfolding built
fu_str o = built o o.text

-- `fu_return_uuid`: a new object of the bytes.
unfoldable pub return_uuid : Uuid → Obj
unfolding create
return_uuid b = record create { bytes = b }

-- `__serialize` and `__unserialize`; the payload is the entry 0 of the array, where it is a string.
unfoldable pub serialize : Obj → Option (List ℕ)
serialize o = some (to_list o.bytes)

unfoldable pub unserialize : Option (List ℕ) → Obj → Result (Unit {0}) × Obj
unserialize none o = (err (invalid_argument "Invalid serialized UUID payload"), o)
unserialize (some s) o =
    if length s == 16
    then (ok tt, record { bytes = of_list s; text = none })
    else (err (invalid_argument "Invalid serialized UUID payload"), o)

unfoldable pub state_of : Option Uuid → Result Obj
unfolding return_uuid
state_of none =
    err (invalid_argument "Invalid __set_state payload; expected ['uuid' => <uuid string>]")
state_of (some b) = ok (return_uuid b)

-- `__set_state`, of the entry "uuid" where it is a string.
unfoldable pub set_state : Zend → Option (List ℕ) → Result Obj
unfolding state_of
set_state z none = state_of none
set_state z (some s) = state_of (parse z s)

unfoldable pub get_bytes : Obj → List ℕ
get_bytes o = to_list o.bytes

unfoldable pub get_hex : Obj → List ℕ
get_hex o = hex32_scalar o.bytes

unfoldable pub get_urn : Obj → List ℕ
get_urn o = urn ++ format36 o.bytes

unfoldable pub all_equal : ℕ → List ℕ → Bool
all_equal v [] = true
all_equal v (x ∷ xs) = x == v && all_equal v xs

-- `none` is PHP's null.
unfoldable pub get_version : Obj → Option ℕ
unfolding all_equal
get_version o =
    if all_equal 0 (to_list o.bytes) || all_equal 0xff (to_list o.bytes)
    then none
    else if not (variant_is_rfc o.bytes)
    then none
    else some (version o.bytes)

unfoldable pub get_variant : Obj → ℕ
get_variant o =
    let b8 = o.bytes.b8 in
    if bit_and b8 0x80 == 0
    then 0
    else if bit_and b8 0xC0 == 0x80
    then 2
    else if bit_and b8 0xE0 == 0xC0
    then 6
    else 7

unfoldable pub millis_of : Option (ℤ × ℕ) → Result ℤ
millis_of none = err (unsupported_operation "UUID has no embedded timestamp")
millis_of (some (secs, micros)) = ok (secs *ℤ pos 1000 +ℤ pos (micros / 1000))

-- Where `zend_long` has 64 bits, which every timestamp fits.
unfoldable pub get_timestamp_millis : Obj → Result ℤ
unfolding millis_of
get_timestamp_millis o = millis_of (decode_time o.bytes)

-- The six fields in order: time_low, time_mid, time_hi_and_version, clock_seq_hi_and_reserved,
-- clock_seq_low and node.
unfoldable pub get_fields : Obj → List (List ℕ)
get_fields o =
    let hx = hex32_scalar o.bytes in
    take 8 hx
    ∷ take 4 (drop 8 hx)
    ∷ take 4 (drop 12 hx)
    ∷ take 2 (drop 16 hx)
    ∷ take 2 (drop 18 hx)
    ∷ take 12 (drop 20 hx)
    ∷ []

-- `fu_cast`: text for `IS_STRING`; any other type is the engine's standard cast.
unfoldable pub cast : {R : Type 0} → ℕ → (List ℕ → R) → (Obj → ℕ → R × Obj) → Obj → ℕ → R × Obj
cast is_string of_text std_cast o type =
    let (s, o') = fu_str o in if type == is_string then (of_text s, o') else std_cast o type

-- "uuid"
abbrev pub uuid_key : List ℕ
uuid_key = b'u' ∷ b'u' ∷ b'i' ∷ b'd' ∷ []

-- `fu_get_debug_info`: a table of one entry.
unfoldable pub get_debug_info : Obj → List (List ℕ × List ℕ) × Obj
get_debug_info o = let (s, o') = fu_str o in ((uuid_key, s) ∷ [], o')

-- `fu_get_properties_for`, where the engine's function serves every other purpose.
unfoldable pub get_properties_for :
    ℕ → (Obj → ℕ → List (List ℕ × List ℕ) × Obj) → Obj → ℕ → List (List ℕ × List ℕ) × Obj
get_properties_for var_export std_properties o purpose =
    let (s, o') = fu_str o in
    if purpose == var_export then ((uuid_key, s) ∷ [], o') else std_properties o purpose
