-- ===== src/Methods.antt =====
-- fast_uuid.c, factory methods. The engine has read the arguments; a method that returns makes an
-- object of the bytes. `b` is the array of the call with what it held before.
pub mod Guards
pub mod LocalId
pub mod Named
pub mod Ticks
pub mod Dates
pub mod RoundTrip
use fast_uuid.Common.{
  ℕ, zero, suc, ◌+◌, ◌-◌, ◌*◌, ◌/◌, ◌%◌, ◌^◌, Bool, true, false, not, ◌&&◌, ◌||◌, Option, none,
  some, List, length, ltb, ◌==◌, if◌then◌else◌, Result, ok, err, invalid_argument,
  invalid_uuid_string,
}
use fast_uuid.Common.Int.{ℤ, pos, negsuc, ◌+ℤ◌, ◌*ℤ◌, ltb_ℤ}
use fast_uuid.Uuid.{Uuid, of_list}
use fast_uuid.State.{State, Os, M, continue}
use fast_uuid.Zend.{Zend}
use fast_uuid.Parse.{parse}
use fast_uuid.Layout.{greg_unix_epoch}
use fast_uuid.Args.{StrOrLong, null, str, long, Process, node_arg, clockseq_arg, local_id_arg}
use fast_uuid.Generate.{lay_v1, gen_v1_ex, gen_v6_ex, gen_v2, gen_v4, gen_v8}
use fast_uuid.V7.{gen_v7, gen_v7_at, v7_at_ms, ms48_max}
use fast_uuid.Object.{Obj, return_uuid}

-- A check of the arguments, which does not touch the state.
abbrev pub checked : {A B : Type 0} → Result A → (A → M B) → M B
checked r f s = continue (r, s) f

abbrev pub returned : Result Uuid × State → Result Obj × State
returned r = continue r (λ u t. (ok (return_uuid u), t))

unfoldable pub uuid1 : Os → Uuid → StrOrLong → Option ℤ → M Obj
uuid1 os b node clockseq =
    checked (node_arg node)
      (λ np. checked (clockseq_arg clockseq) (λ cs s. returned (gen_v1_ex os b np cs s)))

unfoldable pub uuid6 : Os → Uuid → StrOrLong → Option ℤ → M Obj
uuid6 os b node clockseq =
    checked (node_arg node)
      (λ np. checked (clockseq_arg clockseq) (λ cs s. returned (gen_v6_ex os b np cs s)))

-- Whether a node and a clock sequence were both supplied.
abbrev pub both_given : StrOrLong → Option ℤ → Bool
both_given null cs = false
both_given (str s) none = false
both_given (str s) (some cs) = true
both_given (long n) none = false
both_given (long n) (some cs) = true

unfoldable pub domain_arg : ℤ → Result ℕ
domain_arg (negsuc n) =
    err (invalid_argument "localDomain must be 0..255 (PERSON=0, GROUP=1, ORG=2)")
domain_arg (pos n) =
    if ltb 0xff n
    then err (invalid_argument "localDomain must be 0..255 (PERSON=0, GROUP=1, ORG=2)")
    else ok n

unfoldable pub uuid2 : Os → Process → Uuid → ℤ → StrOrLong → StrOrLong → Option ℤ → M Obj
unfolding domain_arg
uuid2 os p b local_domain id node clockseq = checked (domain_arg local_domain) (λ domain.
    checked (local_id_arg p domain id) (λ local_id. checked (node_arg node) (λ np.
      checked (clockseq_arg clockseq)
        (λ cs s. returned (gen_v2 os b local_id domain np cs (both_given node clockseq) s)))))

unfoldable pub uuid4 : Os → M Obj
uuid4 os s = returned (gen_v4 os s)

-- `fu_v7_at_datetime`, from the seconds and microseconds of the date.
unfoldable pub v7_at_datetime : Os → ℤ × ℕ → M Uuid
v7_at_datetime os (negsuc sec, micros) s =
    (err (invalid_argument "uuid7 does not support dates before 1970-01-01"), s)
v7_at_datetime os (pos sec, micros) s =
    if ltb 281474976710 sec
    then (err (invalid_argument "uuid7 timestamp out of range (max ~year 10889)"), s)
    else if ltb ms48_max (sec * 1000 + micros / 1000)
    then (err (invalid_argument "uuid7 timestamp out of range (max ~year 10889)"), s)
    else gen_v7_at os (sec * 1000 + micros / 1000) (micros % 1000 * 4096 / 1000) s

-- The argument of uuid7; a date is what reading its seconds and microseconds ends with.
pub data When : Type 0 where
  now : When
  millis : ℤ → When
  date : Result (ℤ × ℕ) → When

unfoldable pub uuid7 : Os → When → M Obj
unfolding v7_at_datetime
uuid7 os now s = returned (gen_v7 os s)
uuid7 os (millis ms) s = returned (v7_at_ms os ms s)
uuid7 os (date d) s = returned (checked d (v7_at_datetime os) s)

unfoldable pub uuid8 : List ℕ → Result Obj
uuid8 bytes =
    if not (length bytes == 16)
    then err (invalid_argument "uuid8 requires 16 bytes")
    else ok (return_uuid (gen_v8 bytes))

unfoldable pub object_or : Result Obj → Option Uuid → Result Obj
object_or r none = r
object_or r (some u) = ok (return_uuid u)

unfoldable pub from_string : Zend → List ℕ → Result Obj
unfolding object_or
from_string z s = object_or (err (invalid_uuid_string "Invalid UUID string (len=%zu)")) (parse z s)

unfoldable pub from_bytes : List ℕ → Result Obj
from_bytes s =
    if not (length s == 16)
    then err (invalid_argument "UUID bytes must be 16 long")
    else ok (return_uuid (of_list s))

abbrev pub is_some : Option Uuid → Bool
is_some none = false
is_some (some u) = true

unfoldable pub is_valid : Zend → List ℕ → Bool
is_valid z s = is_some (parse z s)

-- Of a string; an object is turned into one by its own method before.
unfoldable pub from_hexadecimal : Zend → List ℕ → Result Obj
unfolding object_or
from_hexadecimal z s =
    if length s == 32
    then object_or (err (invalid_uuid_string "Invalid hexadecimal UUID (expect 32 hex chars)"))
        (parse z s)
    else err (invalid_uuid_string "Invalid hexadecimal UUID (expect 32 hex chars)")

unfoldable pub in_range : ℤ → Result ℕ
in_range (negsuc g) =
    err (invalid_argument "DateTime out of range for a v1 UUID timestamp (1582-10-15 .. ~5236)")
in_range (pos g) =
    if ltb (2 ^ 60 - 1) g
    then err
        (invalid_argument "DateTime out of range for a v1 UUID timestamp (1582-10-15 .. ~5236)")
    else ok g

-- The ticks of a date since 1582-10-15, within the bounds of a version 1 timestamp.
unfoldable pub ticks_arg : ℤ × ℕ → Result ℕ
unfolding in_range
ticks_arg (secs, micros) =
    if ltb_ℤ secs (negsuc 199999999999) || ltb_ℤ (pos 200000000000) secs
    then err (invalid_argument "DateTime out of range for a v1 UUID timestamp")
    else in_range (secs *ℤ pos 10000000 +ℤ pos (micros * 10) +ℤ pos greg_unix_epoch)

unfoldable pub from_date_time : Os → Uuid → Result (ℤ × ℕ) → StrOrLong → Option ℤ → M Obj
unfolding ticks_arg
from_date_time os b when node clockseq = checked when (λ d. checked (node_arg node) (λ np.
    checked (clockseq_arg clockseq)
      (λ cs. checked (ticks_arg d) (λ g s. returned (lay_v1 os b g np cs s)))))
