-- ===== src/V7/Rank.antt =====
-- The time key and the counter of version 7 as one number, and the UUID laid out from them.
use fast_uuid.Common.{
  ℕ, ◌+◌, ◌-◌, ◌*◌, ◌/◌, ◌%◌, ◌^◌, ◌<◌, ◌≤◌, ◌≡◌, refl, arith, ok, bit_and, bit_or, List, get_or,
  get_or-IsByte, All, IsByte, Option, none, some,
}
use fast_uuid.Common.Int.{ℤ, pos, negsuc}
use fast_uuid.Common.Bits.{masks, fields, bit_and_mask, bit_or_add}
use fast_uuid.Uuid.Order.{value}
use fast_uuid.Layout.{lay_v7, shl64}
use fast_uuid.Clock.{nanos}
use fast_uuid.V7.{random_step, add_step, time_key, lay_key}

-- The time key and the counter are in their fields.
pub record InFields (key randb : ℕ) : Type 0 where
  pub key_fits : key < 2 ^ 60
  pub randb_fits : randb < 2 ^ 62

-- The order of pairs of a time key and a counter, as that of one number.
abbrev pub rank : ℕ → ℕ → ℕ
rank key randb = key * 2 ^ 62 + randb

pub mask_randb : (x : ℕ) → bit_and x (2 ^ 62 - 1) ≡ x % 2 ^ 62
mask_randb x = bit_and_mask 62 x

-- A step that succeeds adds itself to the rank.
pub add_step-rank :
    (key randb step key' randb' : ℕ)
    → InFields key randb
    → step ≤ 2 ^ 24
    → add_step key randb step ≡ ok (key', randb')
    → InFields key' randb' × (rank key' randb' ≡ rank key randb + step)
unfolding add_step
add_step-rank key randb step key' randb' h hi e =
    ground (arith, e, mask_randb ((randb + step) % 2 ^ 64))

-- Three random bytes give a step of 1 to 2^24.
pub random_step_bounds :
    (r : List ℕ) → All IsByte r → (1 ≤ random_step r) × (random_step r ≤ 2 ^ 24)
unfolding random_step
random_step_bounds r h =
    let b0 = get_or-IsByte r 0 h in
    let b1 = get_or-IsByte r 1 h in
    let b2 = get_or-IsByte r 2 h in
    let high =
      bit_or_add 16 (get_or r 0 0) (shl64 (get_or r 0 0) 16) (shl64 (get_or r 1 0) 8) (omega arith)
        (omega arith) in
    let all =
      bit_or_add 8 (get_or r 0 0 * 2 ^ 8 + get_or r 1 0)
        (bit_or (shl64 (get_or r 0 0) 16) (shl64 (get_or r 1 0) 8)) (get_or r 2 0)
        (omega (arith, high)) (omega arith) in
    omega (arith, high, all)

-- The 128-bit number of a laid out key and counter.
pub lay_key-value :
    (key randb : ℕ)
    → InFields key randb
    → value (lay_key key randb)
      ≡ key / 2 ^ 12 * 2 ^ 80 + 7 * 2 ^ 76 + key % 2 ^ 12 * 2 ^ 64 + 2 ^ 63 + randb
unfolding value lay_key lay_v7
lay_key-value key randb h = omega (arith, masks, fields)

-- The rank orders the UUIDs.
pub lay_key_mono :
    (k r k' r' : ℕ)
    → InFields k r
    → InFields k' r'
    → rank k r < rank k' r'
    → value (lay_key k r) < value (lay_key k' r')
lay_key_mono k r k' r' h h' lt = omega (arith, lay_key-value k r h, lay_key-value k' r' h')

pub nanos_bound :
    (o : Option (ℤ × ℕ)) (ns : ℕ)
    → ((sec : ℤ) (nsec : ℕ) → o ≡ some (sec, nsec) → nsec < 1000000000)
    → nanos o ≡ ok ns
    → ns < 2 ^ 64
unfolding nanos
nanos_bound none ns h e = cc
nanos_bound (some (negsuc sec, nsec)) ns h e = cc
nanos_bound (some (pos sec, nsec)) ns h e = ground (arith, e, h (pos sec) nsec refl)

pub time_key_bound : (ns : ℕ) → ns < 2 ^ 64 → time_key ns < 2 ^ 60
unfolding time_key
time_key_bound ns h =
    let sub = ns % 1000000 * 4096 % 2 ^ 64 / 1000000 in
    omega (
      arith,
      bit_or_add 12 (ns / 1000000) (shl64 (ns / 1000000) 12) sub (omega arith) (omega arith),
    )
