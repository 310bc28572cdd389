-- ===== src/Random.antt =====
-- fast_uuid.c, randomness: `fu_drbg_fill`, `fu_rand_fill`, `fu_rand`, `fu_rand_u64`, the xoshiro
-- generator and `fu_atfork_child`.
pub mod Valid
pub mod Fork
pub mod Live
use fast_uuid.Common.{
  ℕ, zero, suc, ◌+◌, ◌-◌, ◌*◌, ◌/◌, ◌%◌, ◌^◌, Bool, true, false, not, ◌&&◌, ◌||◌, Option, none,
  some, List, [], ◌∷◌, ◌++◌, take, drop, get_or, replicate, ltb, leb, ◌==◌, if◌then◌else◌, bit_or,
  bit_xor, bit_and, Result, ok, err, Exception, random_failure,
}
use fast_uuid.State.{
  State, Os, AesState, not_built, no_cpu, no_detect, selftest_failed, active, rbuf_size, M, pure,
  throw, continue, ◌>>=◌, ◌>>◌,
}
use fast_uuid.Ctr.{Stream, le_value, aes_ctr}
use fast_uuid.Layout.{shr, shl64}

-- `FU_DRBG_CHUNK` and `FU_DRBG_RESEED_BYTES`
abbrev pub drbg_chunk : ℕ
drbg_chunk = rbuf_size

abbrev pub drbg_reseed_bytes : ℕ
drbg_reseed_bytes = 64 * 1024

-- `dst[i] ^= src[i]`
unfoldable pub xor_into : List ℕ → List ℕ → List ℕ
xor_into [] ys = []
xor_into (x ∷ xs) [] = x ∷ xs
xor_into (x ∷ xs) (y ∷ ys) = bit_xor x y ∷ xor_into xs ys

-- `php_random_bytes_throw`
unfoldable pub or_throw : Option (List ℕ) → M (List ℕ)
or_throw none s = (err random_failure, s)
or_throw (some xs) s = (ok xs, s)

unfoldable pub os_random : Os → ℕ → M (List ℕ)
unfolding or_throw
os_random os n s = or_throw (os.random_bytes s.draws n) (record s { draws = s.draws + 1 })

-- The seed is XORed into the key and the counter.
unfoldable pub mix_seed : State → List ℕ → State
unfolding xor_into
mix_seed s seed = record s {
  drbg_key = xor_into s.drbg_key (take 32 seed);
  drbg_ctr = xor_into s.drbg_ctr (drop 32 seed);
  drbg_seeded = true;
  drbg_since_seed = 0;
}

unfoldable pub reseed : Os → M (Unit {0})
unfolding os_random mix_seed
reseed os s =
    if not s.drbg_seeded || leb drbg_reseed_bytes s.drbg_since_seed
    then continue (os_random os 48 s) (λ seed t. (ok tt, mix_seed t seed))
    else (ok tt, s)

-- One call of `fu_aes_ctr` on the globals.
unfoldable pub drbg_chunk_step : Os → ℕ → M (List ℕ)
drbg_chunk_step os n s =
    let r = aes_ctr os.aes s.drbg_key s.drbg_ctr n in
    (
      ok r.out,
      record s { drbg_key = r.key; drbg_ctr = r.ctr; drbg_since_seed = s.drbg_since_seed + n },
    )

-- A round of the loop writes `taken` bytes and goes on with `rest`.
unfoldable pub drbg_round : Os → ℕ → M (List ℕ) → M (List ℕ)
unfolding reseed drbg_chunk_step
drbg_round os taken rest s = continue (reseed os s) (λ _ t.
    continue (drbg_chunk_step os taken t)
      (λ xs t'. continue (rest t') (λ ys t''. (ok (xs ++ ys), t''))))

-- `while (n > 0)`; every round takes a byte at least.
unfoldable pub drbg_loop : Os → ℕ → ℕ → M (List ℕ)
unfolding drbg_round
drbg_loop os zero n s = (ok [], s)
drbg_loop os (suc fuel) n s =
    let taken = if ltb n drbg_chunk then n else drbg_chunk in
    let rest = drbg_round os taken (drbg_loop os fuel (n - taken)) s in
    if n == 0 then (ok [], s) else rest

unfoldable pub drbg_fill : Os → ℕ → M (List ℕ)
unfolding drbg_loop
drbg_fill os n = drbg_loop os n n

abbrev pub aes_is_active : AesState → Bool
aes_is_active active = true
aes_is_active not_built = false
aes_is_active no_cpu = false
aes_is_active no_detect = false
aes_is_active selftest_failed = false

unfoldable pub rand_fill : Os → ℕ → M (List ℕ)
unfolding drbg_fill os_random
rand_fill os n s = if aes_is_active s.aes_state then drbg_fill os n s else os_random os n s

-- `memcpy(dst, rbuf + rpos, n); rpos += n`
unfoldable pub serve : ℕ → M (List ℕ)
serve n s = (ok (take n (drop s.rpos s.rbuf)), record s { rpos = s.rpos + n })

-- An exception leaves `dst` zeroed, and no caller reads it then.
unfoldable pub rand : Os → ℕ → M (List ℕ)
unfolding rand_fill serve
rand os n s =
    if ltb rbuf_size n
    then rand_fill os n s
    else if ltb rbuf_size (s.rpos + n)
    then continue (rand_fill os rbuf_size s) (λ buf t. serve n (record t { rbuf = buf; rpos = 0 }))
    else serve n s

unfoldable pub be_u64 : List ℕ → ℕ
be_u64 r =
    bit_or
      (bit_or
        (bit_or
          (bit_or
            (bit_or
              (bit_or (bit_or (shl64 (get_or r 0 0) 56) (shl64 (get_or r 1 0) 48))
                (shl64 (get_or r 2 0) 40))
              (shl64 (get_or r 3 0) 32))
            (shl64 (get_or r 4 0) 24))
          (shl64 (get_or r 5 0) 16))
        (shl64 (get_or r 6 0) 8))
      (get_or r 7 0)

unfoldable pub rand_u64 : Os → M ℕ
unfolding be_u64
rand_u64 os s = continue (rand os 8 s) (λ r t. (ok (be_u64 r), t))

-- `fu_rotl`
unfoldable pub rotl : ℕ → ℕ → ℕ
rotl x k = bit_or (shl64 x k) (shr x (64 - k))

unfoldable pub seed_xoshiro : State → List ℕ → State
seed_xoshiro s r =
    let s0 = le_value (take 8 r) in
    let s1 = le_value (take 8 (drop 8 r)) in
    let s2 = le_value (take 8 (drop 16 r)) in
    let s3 = le_value (take 8 (drop 24 r)) in
    record s {
      prng_s0 = if bit_or (bit_or (bit_or s0 s1) s2) s3 == 0 then 0x9e3779b97f4a7c15 else s0;
      prng_s1 = s1;
      prng_s2 = s2;
      prng_s3 = s3;
      prng_seeded = true;
    }

-- The four XORs, the shift and the rotation of one step.
unfoldable pub step_xoshiro : State → State
unfolding rotl
step_xoshiro s =
    let t = shl64 s.prng_s1 17 in
    let x2 = bit_xor s.prng_s2 s.prng_s0 in
    let x3 = bit_xor s.prng_s3 s.prng_s1 in
    record s {
      prng_s0 = bit_xor s.prng_s0 x3;
      prng_s1 = bit_xor s.prng_s1 x2;
      prng_s2 = bit_xor x2 t;
      prng_s3 = rotl x3 45;
    }

unfoldable pub output_xoshiro : State → ℕ
unfolding rotl
output_xoshiro s = rotl (s.prng_s1 * 5 % 2 ^ 64) 7 * 9 % 2 ^ 64

-- `fu_rand` writes into the state words themselves, and zeroes them when it fails.
unfoldable pub zero_xoshiro : State → State
zero_xoshiro s = record s { prng_s0 = 0; prng_s1 = 0; prng_s2 = 0; prng_s3 = 0 }

abbrev pub seeded_or_zeroed : Result (List ℕ) × State → Result (Unit {0}) × State
seeded_or_zeroed (ok r, t) = (ok tt, seed_xoshiro t r)
seeded_or_zeroed (err e, t) = (err e, zero_xoshiro t)

unfoldable pub xs_next : Os → M ℕ
unfolding seed_xoshiro zero_xoshiro step_xoshiro output_xoshiro
xs_next os s =
    continue (if s.prng_seeded then (ok tt, s) else seeded_or_zeroed (rand os 32 s))
      (λ _ t. (ok (output_xoshiro t), step_xoshiro t))

-- `fu_atfork_child`, behind its early return.
unfoldable pub atfork_child : State → State
atfork_child s = record s {
  rbuf = replicate rbuf_size 0;
  prng_s0 = 0;
  prng_s1 = 0;
  prng_s2 = 0;
  prng_s3 = 0;
  drbg_key = replicate 32 0;
  drbg_ctr = replicate 16 0;
  drbg_seeded = false;
  drbg_since_seed = 0;
  rpos = rbuf_size;
  prng_seeded = false;
  v7_key = 0;
  v7_randb = 0;
  v7_initialized = false;
  greg_last = 0;
  v2_last = 0;
}

-- `PHP_GINIT_FUNCTION`, for a given outcome of the AES probe.
unfoldable pub ginit : AesState → State
ginit a = record {
  rbuf = replicate rbuf_size 0;
  rpos = rbuf_size;
  drbg_key = replicate 32 0;
  drbg_ctr = replicate 16 0;
  drbg_since_seed = 0;
  drbg_seeded = false;
  v7_key = 0;
  v7_randb = 0;
  v7_initialized = false;
  prng_s0 = 0;
  prng_s1 = 0;
  prng_s2 = 0;
  prng_s3 = 0;
  prng_seeded = false;
  greg_last = 0;
  v2_last = 0;
  aes_state = a;
  draws = 0;
  reads = 0;
}

-- `fu_atfork_child` from its start: under ZTS a thread that never entered PHP has no globals, `none`,
-- and the handler returns early.
abbrev atfork_handler : Option State → Option State
atfork_handler none = none
atfork_handler (some s) = some (atfork_child s)
