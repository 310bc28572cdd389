-- ===== src/V7.antt =====
-- fast_uuid.c, version 7: the monotonic time key and counter, one UUID and batches.
pub mod Live
pub mod Rank
pub mod Increase
pub mod Order
pub mod Sequence
pub mod Dated
use fast_uuid.Common.{
  ℕ, zero, suc, ◌+◌, ◌-◌, ◌*◌, ◌/◌, ◌%◌, ◌^◌, Bool, true, false, not, ◌||◌, List, [], ◌∷◌, get_or,
  ltb, leb, ◌==◌, if◌then◌else◌, bit_or, bit_and, Result, ok, err, Exception, invalid_argument,
  unsupported_operation,
}
use fast_uuid.Common.Int.{ℤ, pos, negsuc}
use fast_uuid.State.{State, Os, M, continue}
use fast_uuid.Uuid.{Uuid}
use fast_uuid.Layout.{lay_v7, shl64, shr}
use fast_uuid.Clock.{unix_nanos}
use fast_uuid.Random.{rand, rand_u64}

-- `FU_RANDB_MASK`
abbrev pub randb_mask : ℕ
randb_mask = 2 ^ 62 - 1

-- The step of 1 to 2^24 that three random bytes give.
unfoldable pub random_step : List ℕ → ℕ
random_step r =
    bit_or (bit_or (shl64 (get_or r 0 0) 16) (shl64 (get_or r 1 0) 8)) (get_or r 2 0) + 1

-- `fu_v7_increment` behind the draw: the counter goes on, and carries into the time key.
unfoldable pub add_step : ℕ → ℕ → ℕ → Result (ℕ × ℕ)
add_step key randb step =
    let next = (randb + step) % 2 ^ 64 in
    if ltb randb_mask next
    then (if key == 2 ^ 60 - 1
        then err (unsupported_operation "UUIDv7 monotonic timestamp exhausted")
        else ok (key + 1, bit_and next randb_mask))
    else ok (key, next)

unfoldable pub v7_increment : Os → ℕ → ℕ → M (ℕ × ℕ)
unfolding random_step add_step
v7_increment os key randb s =
    continue (rand os 3 s) (λ r t. (add_step key randb (random_step r), t))

unfoldable pub v7_start : Os → ℕ → M (ℕ × ℕ)
unfolding v7_increment
v7_start os key s =
    if not s.v7_initialized || ltb s.v7_key key
    then continue (rand_u64 os s) (λ r t. (ok (key, bit_and r randb_mask), t))
    else v7_increment os s.v7_key s.v7_randb s

-- `(ms << 12) | sub` of the wall clock.
unfoldable pub time_key : ℕ → ℕ
time_key ns = bit_or (shl64 (ns / 1000000) 12) (ns % 1000000 * 4096 % 2 ^ 64 / 1000000)

unfoldable pub lay_key : ℕ → ℕ → Uuid
lay_key key randb = lay_v7 (shr key 12) (bit_and key 0xfff) randb

-- The stores into the globals.
unfoldable pub keep_v7 : ℕ → ℕ → State → State
keep_v7 key randb s = record s { v7_key = key; v7_randb = randb; v7_initialized = true }

unfoldable pub gen_v7 : Os → M Uuid
unfolding v7_start time_key lay_key keep_v7
gen_v7 os s = continue (unix_nanos os s) (λ ns t.
    continue (v7_start os (time_key ns) t)
      (λ (key, randb) t'. (ok (lay_key key randb), keep_v7 key randb t')))

unfoldable pub gen_v7_at : Os → ℕ → ℕ → M Uuid
gen_v7_at os ms sub s =
    continue (rand_u64 os s) (λ r t. (ok (lay_v7 ms sub (bit_and r randb_mask)), t))

-- `FU_MS48_MAX`
abbrev pub ms48_max : ℕ
ms48_max = 0xffffffffffff

abbrev pub out_of_range : Exception
out_of_range = invalid_argument "v7 millisecond timestamp out of range (0 .. 281474976710655)"

-- `fu_v7_at_ms`
unfoldable pub v7_at_ms : Os → ℤ → M Uuid
unfolding gen_v7_at
v7_at_ms os (negsuc ms) s = (err out_of_range, s)
v7_at_ms os (pos ms) s = if ltb ms48_max ms then (err out_of_range, s) else gen_v7_at os ms 0 s

-- What the loop of `fu_gen_v7_batch_n` leaves: the UUIDs so far, and how it ended.
pub record BatchEnd : Type 0 where
  pub filled : List Uuid
  pub end_key : ℕ
  pub end_randb : ℕ
  pub outcome : Result (Unit {0})

-- A round of the loop, by how the increment ended; a failing one breaks out of the loop.
unfoldable pub add_round :
    ℕ → ℕ → (ℕ → ℕ → State → BatchEnd × State) → Result (ℕ × ℕ) × State → BatchEnd × State
unfolding lay_key
add_round key randb rest (ok (key', randb'), t) =
    let (tail, t') = rest key' randb' t in
    (record tail { filled = lay_key key' randb' ∷ tail.filled }, t')
add_round key randb rest (err e, t) =
    (record { filled = []; end_key = key; end_randb = randb; outcome = err e }, t)

-- The rounds with `i > 0`.
unfoldable pub batch_rounds : Os → ℕ → ℕ → ℕ → State → BatchEnd × State
unfolding v7_increment add_round
batch_rounds os zero key randb s =
    (record { filled = []; end_key = key; end_randb = randb; outcome = ok tt }, s)
batch_rounds os (suc n) key randb s =
    add_round key randb (batch_rounds os n) (v7_increment os key randb s)

-- The loop of `n` rounds, of which the first makes no increment.
unfoldable pub batch_loop : Os → ℕ → ℕ → ℕ → State → BatchEnd × State
unfolding batch_rounds lay_key
batch_loop os zero key randb s =
    (record { filled = []; end_key = key; end_randb = randb; outcome = ok tt }, s)
batch_loop os (suc n) key randb s =
    let (tail, t) = batch_rounds os n key randb s in
    (record tail { filled = lay_key key randb ∷ tail.filled }, t)

-- The array of a failing call is discarded by the engine.
unfoldable pub return_array : Result (Unit {0}) → List Uuid → M (List Uuid)
return_array (ok _) us s = (ok us, s)
return_array (err e) us s = (err e, s)

-- The stores behind the loop run also after a failing round.
unfoldable pub end_batch : BatchEnd × State → Result (List Uuid) × State
unfolding keep_v7 return_array
end_batch (b, s) = return_array b.outcome b.filled (keep_v7 b.end_key b.end_randb s)

-- `fu_gen_v7_batch_n`
unfoldable pub gen_v7_batch_n : Os → ℕ → M (List Uuid)
unfolding v7_start time_key batch_loop end_batch
gen_v7_batch_n os n s = continue (unix_nanos os s) (λ ns t.
    continue (v7_start os (time_key ns) t)
      (λ (key, randb) t'. end_batch (batch_loop os n key randb t')))
