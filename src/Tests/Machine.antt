-- ===== src/Tests/Machine.antt =====
-- Each theorem on the processor and on forks applied to concrete inputs.
use fast_uuid.Common.{
  ℕ, ◌+◌, ◌/◌, ◌^◌, ◌≡◌, ◌↔◌, refl, arith, true, none, List, map, take, drop, replicate, bit_and,
  err, random_failure,
}
use fast_uuid.Uuid.{Uuid, of_list, IsBytes}
use fast_uuid.State.{State, Os}
use fast_uuid.Random.{rand, xs_next, atfork_child}
use fast_uuid.Random.Fork.{atfork_child_independent, rand-atfork_child}
use fast_uuid.Hex.{hex32_scalar}
use fast_uuid.Hex.Simd.{
  bytewise, shifted_lanes, interleaved, shuffled, looked_up, Ssse3, Neon, x86, hex32,
}
use fast_uuid.Hex.Simd.Scalar.{hex32-scalar}
use fast_uuid.SelfTest.{fips_key, fips_pt, fips_ct, sp_key, sp_in, sp_out, aes_selftest}
use fast_uuid.SelfTest.Answers.{aes_selftest_iff}
use fast_uuid.Tests.Params.{os, start}

-- A state in which bytes were drawn before the fork.
abbrev drawn : State
drawn = (rand os 20 start).1

-- The same parent after another call, which drew nothing more.
abbrev drawn_more : State
drawn_more = record drawn { rpos = 40 }

atfork_child_independent_example :
    xs_next os (atfork_child drawn) ≡ xs_next os (atfork_child drawn_more)
atfork_child_independent_example =
    atfork_child_independent (xs_next os) drawn drawn_more refl refl refl

-- The same system without its random bytes.
abbrev silent : Os
silent = record os {
  random_bytes = λ draw n. none;
  random_bytes_size = λ draw n xs h. absurd (ground (arith, h));
}

rand-atfork_child_example :
    rand silent 16 (atfork_child start)
    ≡ (err random_failure, record (atfork_child start) { draws = start.draws + 1 })
rand-atfork_child_example = rand-atfork_child silent start (λ n. refl) 16 (omega arith)

-- A processor that follows its manual.
abbrev ssse3 : Ssse3
ssse3 = record {
  mm_and_si128 = bytewise bit_and;
  mm_srli_epi16 = λ a n. shifted_lanes n a;
  mm_shuffle_epi8 = λ t i. map (shuffled t) i;
  mm_unpacklo_epi8 = λ a b. interleaved (take 8 a) (take 8 b);
  mm_unpackhi_epi8 = λ a b. interleaved (drop 8 a) (drop 8 b);
  and_law = λ a b. refl;
  srli_law = λ a n. refl;
  shuffle_law = λ t i. refl;
  unpacklo_law = λ a b. refl;
  unpackhi_law = λ a b. refl;
}

abbrev neon : Neon
neon = record {
  vshrq_n_u8 = λ a n. map (λ x. x / 2 ^ n) a;
  vandq_u8 = bytewise bit_and;
  vqtbl1q_u8 = λ t i. map (looked_up t) i;
  vzipq_u8 = λ a b. (interleaved (take 8 a) (take 8 b), interleaved (drop 8 a) (drop 8 b));
  shr_law = λ a n. refl;
  and_law = λ a b. refl;
  tbl_law = λ t i. refl;
  zip_law = λ a b. refl;
}

abbrev bytes_fe : Uuid
bytes_fe = of_list (replicate 16 0xfe)

bytes_fe-IsBytes : IsBytes bytes_fe
bytes_fe-IsBytes = omega arith

hex32-scalar_example : hex32 ssse3 neon (x86 true) bytes_fe ≡ hex32_scalar bytes_fe
hex32-scalar_example = hex32-scalar ssse3 neon (x86 true) bytes_fe bytes_fe-IsBytes

-- A cipher of sevens, which is not AES.
abbrev sevens : List ℕ → List ℕ → List ℕ
sevens key block = replicate 16 7

aes_selftest_iff_example :
    (aes_selftest sevens ≡ true)
    ↔ ((sevens fips_key fips_pt ≡ fips_ct) × (sevens sp_key sp_in ≡ sp_out))
aes_selftest_iff_example = aes_selftest_iff sevens (λ key c. refl)
