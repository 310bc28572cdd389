-- ===== src/Tests/Live.antt =====
-- The theorems that calls return, on dates and on round trips applied to concrete inputs.
use fast_uuid.Common.{◌+◌, ◌-◌, ◌^◌, ◌<◌, ◌≡◌, arith, some, none, false, [], ◌∷◌, replicate, ok}
use fast_uuid.Common.Int.{pos, negsuc}
use fast_uuid.Uuid.{Uuid, of_list, IsBytes}
use fast_uuid.Random.{ginit}
use fast_uuid.Generate.{gen_v1_ex, gen_v2, gen_v4, gen_v4_fast, gen_v6_ex}
use fast_uuid.V7.{v7_at_ms, gen_v7, gen_v7_batch_n}
use fast_uuid.Functions.{gen_v4_batch_n}
use fast_uuid.Generate.Live.{Returns, generators-Returns}
use fast_uuid.Functions.Complete.{Completes, batches-Completes}
use fast_uuid.Args
use fast_uuid.Object.{
  Obj, fu_str, get_urn, get_hex, get_bytes, get_properties_for, uuid_key, serialize, unserialize,
  return_uuid, set_state,
}
use fast_uuid.Methods.{from_string, from_hexadecimal, from_bytes, from_date_time, ticks_arg}
use fast_uuid.Methods.Named.{from_integer, get_integer}
use fast_uuid.Methods.Ticks.{TicksOf, ticks_arg-TicksOf}
use fast_uuid.Methods.Dates.{DatesFrom, from_date_time-DatesFrom}
use fast_uuid.Methods.RoundTrip.{written-read}
use fast_uuid.Tests.Params.{zend, os, os-Answers, os-Ticks, start, start-IsValid}

-- The array before a call.
abbrev blank : Uuid
blank = of_list []

start-greg_last : start.greg_last < 2 ^ 60 - 1
unfolding ginit
start-greg_last = omega arith

start-v2_last : start.v2_last < 2 ^ 28 - 1
unfolding ginit
start-v2_last = omega arith

start-v7_key : start.v7_key + 100 < 2 ^ 60 - 1
unfolding ginit
start-v7_key = omega arith

generators-Returns_example :
    Returns (gen_v1_ex os blank none (pos 5) start)
    × Returns (gen_v2 os blank 1000 0 none (pos 5) false start)
    × Returns (gen_v4 os start)
    × Returns (gen_v4_fast os start)
    × Returns (gen_v6_ex os blank none (pos 5) start)
    × Returns (gen_v7 os start)
    × Returns (v7_at_ms os (pos 1700000000123) start)
generators-Returns_example =
    generators-Returns os os-Answers os-Ticks blank none (pos 5) 1000 0 1700000000123 false start
      start-greg_last start-v2_last (omega (arith, start-v7_key)) (omega arith)

batches-Completes_example :
    Completes 100 (gen_v4_batch_n os 100 start) × Completes 100 (gen_v7_batch_n os 100 start)
batches-Completes_example =
    batches-Completes os os-Answers os-Ticks 100 start start-IsValid (omega arith) start-v7_key

-- The end of the year 1969, one microsecond before 1970.
ticks_arg-TicksOf_example : TicksOf (negsuc 0, 999999) (ticks_arg (negsuc 0, 999999))
ticks_arg-TicksOf_example = ticks_arg-TicksOf (negsuc 0) 999999 (omega arith)

from_date_time-DatesFrom_example :
    DatesFrom
      (negsuc 0, 999999)
      start
      (from_date_time os blank (ok (negsuc 0, 999999)) (Args.long (pos 77)) (some (pos 5)) start)
from_date_time-DatesFrom_example =
    from_date_time-DatesFrom os blank (negsuc 0) 999999 (Args.long (pos 77)) (some (pos 5)) start
      start-IsValid (omega arith)

abbrev sample : Uuid
sample = of_list (replicate 16 0xa5)

sample-IsBytes : IsBytes sample
sample-IsBytes = omega arith

abbrev sample_object : Obj
sample_object = record { bytes = sample; text = none }

written-read_example :
    (from_string zend (fu_str sample_object).0 ≡ ok (return_uuid sample))
    × (from_string zend (get_urn sample_object) ≡ ok (return_uuid sample))
    × (from_hexadecimal zend (get_hex sample_object) ≡ ok (return_uuid sample))
    × (from_bytes (get_bytes sample_object) ≡ ok (return_uuid sample))
    × (from_integer (get_integer sample_object) ≡ ok (return_uuid sample))
    × ((get_properties_for 4 (λ o v. ([], o)) sample_object 4).0
        ≡ (uuid_key, (fu_str sample_object).0) ∷ [])
    × (set_state zend (some (fu_str sample_object).0) ≡ ok (return_uuid sample))
    × (unserialize (serialize sample_object) sample_object ≡ (ok tt, return_uuid sample))
written-read_example =
    written-read zend sample_object sample_object 4 (λ o v. ([], o)) sample-IsBytes tt
