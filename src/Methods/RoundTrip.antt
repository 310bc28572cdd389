-- ===== src/Methods/RoundTrip.antt =====
-- Every form that an object is written in is read back to an object of its bytes.
use fast_uuid.Common.{ℕ, ◌≤◌, ◌≡◌, refl, arith, true, some, List, [], ◌∷◌, length, ok, ◌==◌}
use fast_uuid.Zend.{Zend}
use fast_uuid.Uuid.{Uuid, IsBytes}
use fast_uuid.Hex.{format36, hex32_scalar}
use fast_uuid.Hex.Digits.{lut-ne_open}
use fast_uuid.Parse.{urn, parse}
use fast_uuid.Parse.RoundTrip.{
  parse_digits-format36, parse_digits-hex32_scalar, format36_head, hex32_scalar_head,
}
use fast_uuid.Parse.Wrappers.{Wrapper, prefix, wrap_all, IsPlain, strip-wrap_all}
use fast_uuid.Decimal.RoundTrip.{from_decimal-to_decimal}
use fast_uuid.Object.{
  Obj, fu_str, return_uuid, create, serialize, unserialize, state_of, set_state, get_bytes, get_hex,
  get_urn, uuid_key, get_properties_for,
}
use fast_uuid.Object.Cache.{IsCached, fu_str-IsCached}
use fast_uuid.Methods.{from_string, from_bytes, from_hexadecimal, object_or}
use fast_uuid.Methods.Named.{from_integer, get_integer, integer_or}

format36-IsPlain : (u : Uuid) → IsBytes u → IsPlain (format36 u)
format36-IsPlain u h = rw (format36_head u) (lut-ne_open u.b0 h.0)

hex32_scalar-IsPlain : (u : Uuid) → IsBytes u → IsPlain (hex32_scalar u)
hex32_scalar-IsPlain u h = rw (hex32_scalar_head u) (lut-ne_open u.b0 h.0)

-- The canonical text, inside wrappers or alone.
parse-format36 :
    (z : Zend) (ws : List Wrapper) (u : Uuid)
    → length ws ≤ 2
    → IsBytes u
    → parse z (wrap_all ws (format36 u)) ≡ some u
unfolding parse
parse-format36 z ws u n h =
    rw (strip-wrap_all z ws (format36 u) n (format36-IsPlain u h)) (parse_digits-format36 u h)

parse-hex32_scalar : (z : Zend) (u : Uuid) → IsBytes u → parse z (hex32_scalar u) ≡ some u
unfolding parse
parse-hex32_scalar z u h =
    rw (strip-wrap_all z [] (hex32_scalar u) (omega arith) (hex32_scalar-IsPlain u h))
      (parse_digits-hex32_scalar u h)

length-hex32_scalar : (u : Uuid) → length (hex32_scalar u) ≡ 32
unfolding hex32_scalar
length-hex32_scalar u = refl

-- For the bytes `u`: what each reading of a written form gives.
module _ (z : Zend) (o : Obj) (h : IsBytes o.bytes) where
  from_string-fu_str : IsCached o → from_string z (fu_str o).0 ≡ ok (return_uuid o.bytes)
  unfolding from_string object_or
  from_string-fu_str c = rw (fu_str-IsCached o c, parse-format36 z [] o.bytes (omega arith) h)

  from_string-get_urn : from_string z (get_urn o) ≡ ok (return_uuid o.bytes)
  unfolding from_string object_or get_urn
  from_string-get_urn = rw (parse-format36 z (prefix urn refl ∷ []) o.bytes (omega arith) h)

  from_hexadecimal-get_hex : from_hexadecimal z (get_hex o) ≡ ok (return_uuid o.bytes)
  unfolding from_hexadecimal object_or get_hex
  from_hexadecimal-get_hex = rw (length-hex32_scalar o.bytes, parse-hex32_scalar z o.bytes h)

  from_bytes-get_bytes : from_bytes (get_bytes o) ≡ ok (return_uuid o.bytes)
  unfolding from_bytes get_bytes
  from_bytes-get_bytes = refl

  from_integer-get_integer : from_integer (get_integer o) ≡ ok (return_uuid o.bytes)
  unfolding from_integer integer_or get_integer
  from_integer-get_integer = rw (from_decimal-to_decimal o.bytes h)

  set_state-fu_str : IsCached o → set_state z (some (fu_str o).0) ≡ ok (return_uuid o.bytes)
  unfolding set_state state_of
  set_state-fu_str c = rw (fu_str-IsCached o c, parse-format36 z [] o.bytes (omega arith) h)

  unserialize-serialize_object :
      (target : Obj) → unserialize (serialize o) target ≡ (ok tt, return_uuid o.bytes)
  unfolding unserialize serialize return_uuid create
  unserialize-serialize_object target = refl

-- For an object of sixteen bytes whose kept text, if any, is theirs: its text, its URN, its 32 digits,
-- its raw bytes and its decimal number are read back by fromString, fromHexadecimal, fromBytes and
-- fromInteger to a new object of the bytes; what var_export writes has the text as its one entry,
-- from which __set_state makes that object; and so does unserializing what it was serialized to.
pub written-read :
    (z : Zend) (o target : Obj) (var_export : ℕ)
    (std_properties : Obj → ℕ → List (List ℕ × List ℕ) × Obj)
    → IsBytes o.bytes
    → IsCached o
    → (from_string z (fu_str o).0 ≡ ok (return_uuid o.bytes))
      × (from_string z (get_urn o) ≡ ok (return_uuid o.bytes))
      × (from_hexadecimal z (get_hex o) ≡ ok (return_uuid o.bytes))
      × (from_bytes (get_bytes o) ≡ ok (return_uuid o.bytes))
      × (from_integer (get_integer o) ≡ ok (return_uuid o.bytes))
      × ((get_properties_for var_export std_properties o var_export).0
          ≡ (uuid_key, (fu_str o).0) ∷ [])
      × (set_state z (some (fu_str o).0) ≡ ok (return_uuid o.bytes))
      × (unserialize (serialize o) target ≡ (ok tt, return_uuid o.bytes))
unfolding get_properties_for
written-read z o target var_export std_properties h c =
    let same : (var_export == var_export) ≡ true = ground arith in
    (
      from_string-fu_str z o h c,
      from_string-get_urn z o h,
      from_hexadecimal-get_hex z o h,
      from_bytes-get_bytes z o h,
      from_integer-get_integer z o h,
      rw same,
      set_state-fu_str z o h c,
      unserialize-serialize_object z o h target,
    )
