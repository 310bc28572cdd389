-- ===== src/Tests/Examples.antt =====
-- Each theorem applied to concrete inputs.
use fast_uuid.Common.{
  ok, ◌↔◌, ℕ, zero, suc, ◌+◌, ◌%◌, ◌^◌, ◌<◌, ◌≤◌, ◌≡◌, refl, arith, true, some, none, List, [], ◌∷◌,
  ◌++◌, map, length, All, IsByte, replicate, inl,
}
use fast_uuid.Common.Int.{pos, negsuc}
use fast_uuid.Uuid.{Uuid, of_list, IsBytes}
use fast_uuid.Hex.{format36, hex32_scalar, lut}
use fast_uuid.Parse.{parse}
use fast_uuid.Parse.Wrappers.{Wrapper, braces, wrap_all}
use fast_uuid.Parse.Accept.{Spelling, parse-wrap_all, parse-Spelling}
use fast_uuid.Random.{rand, ginit}
use fast_uuid.Random.Valid.{Served, rand-Served}
use fast_uuid.Ctr.{aes_ctr}
use fast_uuid.Ctr.Keystream.{plain, aes_ctr-plain}
use fast_uuid.V7.{v7_at_ms}
use fast_uuid.V7.Order.{Between, floor, values}
use fast_uuid.V7.Sequence.{run, run-Between}
use fast_uuid.V7.Sequence
use fast_uuid.V7.Dated.{Dates, v7_at_ms-Dates}
use fast_uuid.Generate.{gen_v1_ex, gen_v6_ex, gen_v2, gen_v3, gen_v4, gen_v4_fast, gen_v5, gen_v8}
use fast_uuid.Generate.Stamped.{Stamps, ticks_of, gen_v1-v6-Stamps}
use fast_uuid.Generate.Dce.{Issues, gen_v2-Issues}
use fast_uuid.Generate.Sequence.{TimeCall, v1, v6, draw, run_time, run_time-Between}
use fast_uuid.Generate.Bytes.{
  IsMarked, Draws4, Draws4Fast, Names, gen_v4-Draws4, gen_v4_fast-Draws4Fast, gen_v3-v5-Names,
  gen_v8-IsMarked,
}
use fast_uuid.Functions.{gen_v4_batch_n, fn_random_bytes}
use fast_uuid.Functions.Promises.{Fills, Gives, gen_v4_batch_n-Fills, fn_random_bytes-Gives}
use fast_uuid.Methods.{v7_at_datetime}
use fast_uuid.Methods.Guards.{DatedBy, v7_at_datetime-DatedBy}
use fast_uuid.Methods.LocalId.{NamesId, local_id_arg_iff}
use fast_uuid.Object.{fu_str, return_uuid}
use fast_uuid.Object.Cache
use fast_uuid.Object.Cache.{Call, read_text, debug, cloned, unserialized, with_text, run-fu_str}
use fast_uuid.Args.{local_id_arg}
use fast_uuid.Args
use fast_uuid.Tests.Params.{
  process, zend, os, start, start-IsValid, start-V7Valid, All-replicate, length-replicate,
}

-- The array before a call.
abbrev blank : Uuid
blank = of_list []

-- Sixteen bytes 0xab, their spelling in capitals, and a node.
abbrev sample : Uuid
sample = of_list (replicate 16 0xab)

pairs : ℕ → List ℕ → List ℕ
pairs zero t = t
pairs (suc n) t = b'A' ∷ b'B' ∷ pairs n t

abbrev spelled : List ℕ
spelled = pairs 4 (b'-' ∷ pairs 2 (b'-' ∷ pairs 2 (b'-' ∷ pairs 2 (b'-' ∷ pairs 6 []))))

spelled-Spelling : Spelling spelled sample
unfolding format36 hex32_scalar pairs lut
spelled-Spelling = inl refl

spelled-IsByte : All IsByte spelled
unfolding pairs
spelled-IsByte = omega arith

sample-IsBytes : IsBytes sample
sample-IsBytes = omega arith

parse-wrap_all_example : parse zend (b'{' ∷ (spelled ++ b'}' ∷ [])) ≡ some sample
parse-wrap_all_example =
    parse-wrap_all zend (braces ∷ []) spelled sample (omega arith) spelled-IsByte sample-IsBytes
      spelled-Spelling

parse-Spelling_example :
    (ws : List Wrapper) × (t : List ℕ) × (spelled ≡ wrap_all ws t)
    × (length ws ≤ 4)
    × IsBytes sample
    × Spelling t sample
parse-Spelling_example = parse-Spelling zend spelled sample spelled-IsByte (
    parse-wrap_all zend [] spelled sample (omega arith) spelled-IsByte sample-IsBytes
      spelled-Spelling)

abbrev v7_calls : List Sequence.Call
v7_calls = Sequence.single ∷ Sequence.batch 3 ∷ Sequence.draw 5 ∷ Sequence.single ∷ []

run-Between_example :
    Between (floor start) (values (run os v7_calls start).0) (floor (run os v7_calls start).1)
run-Between_example = run-Between os v7_calls start start-V7Valid

abbrev node : List ℕ
node = replicate 6 9

node-IsByte : All IsByte node
node-IsByte = All-replicate 6 9 (omega arith)

start-greg_last : start.greg_last < 2 ^ 60
unfolding ginit
start-greg_last = omega arith

abbrev time_calls : List TimeCall
time_calls = v1 none (negsuc 0) ∷ v6 (some node) (pos 5) ∷ draw 3 ∷ v1 (some node) (negsuc 0) ∷ []

run_time-Between_example :
    Between
      (start.greg_last + 1)
      (map ticks_of (run_time os blank time_calls start).0)
      ((run_time os blank time_calls start).1.greg_last + 1)
run_time-Between_example =
    run_time-Between os blank time_calls start start-IsValid start-greg_last
      (tt, (node-IsByte, (tt, (node-IsByte, tt))))

rand-Served_example : Served os 20 start (rand os 20 start)
rand-Served_example = rand-Served os 20 start start-IsValid

-- A cipher that shows the key and the counter.
abbrev toy : List ℕ → List ℕ → List ℕ
toy key block = replicate 16 (length key)

aes_ctr-plain_example :
    aes_ctr toy (replicate 32 1) (replicate 16 0) 40
    ≡ plain toy (λ key c. length-replicate 16 (length key)) (replicate 32 1) (replicate 16 0) 40 3
aes_ctr-plain_example =
    aes_ctr-plain toy (λ key c. length-replicate 16 (length key)) (replicate 32 1) (replicate 16 0)
      40

gen_v1-v6-Stamps_example :
    Stamps 1 start (gen_v1_ex os blank (some node) (pos 77) start)
    × Stamps 6 start (gen_v6_ex os blank (some node) (pos 77) start)
gen_v1-v6-Stamps_example =
    gen_v1-v6-Stamps os blank (some node) (pos 77) start start-IsValid start-greg_last node-IsByte

start-v2_last : start.v2_last < 2 ^ 28
unfolding ginit
start-v2_last = omega arith

gen_v2-Issues_example : Issues 1000 0 start (gen_v2 os blank 1000 0 (some node) (pos 77) true start)
gen_v2-Issues_example =
    gen_v2-Issues os blank 1000 0 (some node) (pos 77) start start-IsValid start-v2_last
      (omega arith) (omega arith) node-IsByte

v7_at_ms-Dates_example : Dates (pos 1700000000123) start (v7_at_ms os (pos 1700000000123) start)
v7_at_ms-Dates_example = v7_at_ms-Dates os (pos 1700000000123) start start-IsValid

gen_v4-Draws4_example : Draws4 os start (gen_v4 os start)
gen_v4-Draws4_example = gen_v4-Draws4 os start start-IsValid

gen_v4_fast-Draws4Fast_example : Draws4Fast os start (gen_v4_fast os start)
gen_v4_fast-Draws4Fast_example = gen_v4_fast-Draws4Fast os start start-IsValid

-- A digest of twenty equal bytes.
abbrev digest : List ℕ → List ℕ
digest xs = replicate 20 (length xs % 256)

gen_v3-v5-Names_example :
    Names digest 3 sample spelled (gen_v3 digest sample spelled)
    × Names digest 5 sample spelled (gen_v5 digest sample spelled)
gen_v3-v5-Names_example =
    gen_v3-v5-Names digest (λ xs. All-replicate 20 (length xs % 256) (omega arith)) sample spelled

gen_v8-IsMarked_example : IsMarked 8 (of_list (replicate 16 255)) (gen_v8 (replicate 16 255))
gen_v8-IsMarked_example = gen_v8-IsMarked (replicate 16 255) (All-replicate 16 255 (omega arith))

gen_v4_batch_n-Fills_example : Fills 100 (gen_v4_batch_n os 100 start)
gen_v4_batch_n-Fills_example = gen_v4_batch_n-Fills os 100 start start-IsValid

fn_random_bytes-Gives_example : Gives os (pos 5000) (fn_random_bytes os (pos 5000) start)
fn_random_bytes-Gives_example = fn_random_bytes-Gives os (pos 5000) start start-IsValid

v7_at_datetime-DatedBy_example :
    DatedBy (pos 1700000000, 250) start (v7_at_datetime os (pos 1700000000, 250) start)
v7_at_datetime-DatedBy_example = v7_at_datetime-DatedBy os (pos 1700000000, 250) start start-IsValid

-- An object that is read, unserialized into and cloned.
abbrev events : List Call
events = read_text ∷ unserialized (some (replicate 16 5)) ∷ cloned ∷ debug ∷ unserialized none ∷ []

run-fu_str_example :
    (Cache.run events (return_uuid sample) ≡ with_text (of_list (replicate 16 5)))
    × (fu_str (Cache.run events (return_uuid sample))
        ≡ (format36 (of_list (replicate 16 5)), with_text (of_list (replicate 16 5))))
run-fu_str_example = run-fu_str events sample

local_id_arg_iff_example :
    (local_id_arg process 0 (Args.str (b'4' ∷ b'2' ∷ [])) ≡ ok 42)
    ↔ NamesId process 0 (Args.str (b'4' ∷ b'2' ∷ [])) 42
local_id_arg_iff_example = local_id_arg_iff process 0 (Args.str (b'4' ∷ b'2' ∷ [])) 42
