-- ===== src/DateTime.antt =====
-- fast_uuid.c: dates. `fu_dt_secs_micros`, which reads a DateTimeInterface object, and
-- `fu_make_datetime`, which builds one. What the date extension and overridden methods answer stands
-- in the object; the formatted text of the fallback is left out.
pub mod Micros
use fast_uuid.Common.{
  ℕ, zero, suc, ◌+◌, ◌-◌, ◌*◌, ◌/◌, ◌%◌, ◌≡◌, Bool, true, false, not, ◌&&◌, ◌||◌, Option, none,
  some, List, [], ◌∷◌, length, ltb, ◌==◌, if◌then◌else◌, Result, ok, err, Exception,
  invalid_argument, unsupported_operation,
}
use fast_uuid.Common.Int.{ℤ, pos, negsuc}
use fast_uuid.Uuid.{Uuid}
use fast_uuid.Layout.{decode_time}
use fast_uuid.Object.{Obj}

-- What a call of a method ends with: a failure without an exception, an exception, or a value.
pub data Called (A : Type 0) : Type 0 where
  failed : Called A
  threw : Exception → Called A
  returned : A → Called A

-- A value that is an integer, a string, or neither.
pub data Returned : Type 0 where
  integer : ℤ → Returned
  text : List ℕ → Returned
  neither : Returned

-- A date: whether its class is one of the two built-in ones, the time that timelib has cached there
-- where that is up to date, and what getTimestamp() and format("u") end with.
pub record Date : Type 0 where
  pub is_builtin : Bool
  pub cached : Option (ℤ × ℕ)
  pub get_timestamp : Called Returned
  pub format_u : Called Returned

-- The loop over the six digits; `none` is the exception in it.
unfoldable pub read_micros : List ℕ → ℕ → Option ℕ
read_micros [] m = some m
read_micros (c ∷ cs) m =
    let rest = read_micros cs (m * 10 + (c - b'0')) in
    if ltb c b'0' || ltb b'9' c then none else rest

abbrev pub six_digits : Exception
six_digits = invalid_argument "DateTime format(\"u\") must return six decimal digits"

abbrev pub micros_or : Option ℕ → Result ℕ
micros_or none = err six_digits
micros_or (some m) = ok m

unfoldable pub micros_of : Called Returned → Result ℕ
unfolding read_micros
micros_of failed = err (unsupported_operation "DateTime format(\"u\") failed")
micros_of (threw e) = err e
micros_of (returned (integer n)) = err six_digits
micros_of (returned neither) = err six_digits
micros_of (returned (text s)) =
    if not (length s == 6) then err six_digits else micros_or (read_micros s 0)

unfoldable pub secs_of : Called Returned → Result ℤ
secs_of failed = err (unsupported_operation "DateTime getTimestamp() failed")
secs_of (threw e) = err e
secs_of (returned (integer n)) = ok n
secs_of (returned (text s)) = err (invalid_argument "DateTime getTimestamp() must return an int")
secs_of (returned neither) = err (invalid_argument "DateTime getTimestamp() must return an int")

abbrev pub paired : Result ℤ → Result ℕ → Result (ℤ × ℕ)
paired (err e) m = err e
paired (ok secs) (err e) = err e
paired (ok secs) (ok m) = ok (secs, m)

-- The way through the methods.
unfoldable pub by_methods : Date → Result (ℤ × ℕ)
unfolding secs_of micros_of
by_methods d = paired (secs_of d.get_timestamp) (micros_of d.format_u)

unfoldable pub by_cache : Date → Option (ℤ × ℕ) → Result (ℤ × ℕ)
unfolding by_methods
by_cache d none = by_methods d
by_cache d (some t) = ok t

unfoldable pub dt_secs_micros : Date → Result (ℤ × ℕ)
unfolding by_cache by_methods
dt_secs_micros d = if d.is_builtin then by_cache d d.cached else by_methods d

-- The date extension, as far as `fu_make_datetime` calls it: the date that its constructor makes of
-- a time, `none` where the object has no time after it, and what DateTimeImmutable::createFromFormat ends
-- with. A date here is the seconds and microseconds that it holds.
pub record DateExtension : Type 0 where
  pub from_timestamp : ℤ → ℕ → Option (ℤ × ℕ)
  pub create_from_format : ℤ → ℕ → Called (Option (ℤ × ℕ))

abbrev pub same_ℤ : ℤ → ℤ → Bool
same_ℤ (pos a) (pos b) = a == b
same_ℤ (pos a) (negsuc b) = false
same_ℤ (negsuc a) (pos b) = false
same_ℤ (negsuc a) (negsuc b) = a == b

abbrev pub no_datetime : Exception
no_datetime = unsupported_operation "Could not build DateTimeImmutable from UUID timestamp"

unfoldable pub made_from_string : Called (Option (ℤ × ℕ)) → Result (ℤ × ℕ)
made_from_string failed = err no_datetime
made_from_string (threw e) = err e
made_from_string (returned none) = err no_datetime
made_from_string (returned (some d)) = ok d

-- `fu_make_datetime_from_string`
unfoldable pub make_datetime_from_string : DateExtension → ℤ → ℕ → Result (ℤ × ℕ)
unfolding made_from_string
make_datetime_from_string x secs micros = made_from_string (x.create_from_format secs micros)

unfoldable pub verified : DateExtension → ℤ → ℕ → Option (ℤ × ℕ) → Result (ℤ × ℕ)
unfolding make_datetime_from_string
verified x secs micros none = make_datetime_from_string x secs micros
verified x secs micros (some (s, m)) =
    if same_ℤ s secs && m == micros then ok (s, m) else make_datetime_from_string x secs micros

-- `fu_make_datetime` of PHP 8.4 on a 64-bit platform.
unfoldable pub make_datetime : DateExtension → ℤ → ℕ → Result (ℤ × ℕ)
unfolding verified
make_datetime x secs micros = verified x secs micros (x.from_timestamp secs micros)

abbrev pub date_or : DateExtension → Option (ℤ × ℕ) → Result (ℤ × ℕ)
date_or x none = err (unsupported_operation "UUID has no embedded timestamp")
date_or x (some (secs, micros)) = make_datetime x secs micros

-- `getDateTime`
unfoldable pub get_date_time : DateExtension → Obj → Result (ℤ × ℕ)
unfolding make_datetime
get_date_time x o = date_or x (decode_time o.bytes)
