-- ===== src/Aes/Armv8.antt =====
-- fast_uuid.c, the backend of the ARMv8 extensions: the key schedule, the rounds and `fu_aes_ctr` on
-- AArch64. The compiler's intrinsics are parameters, with what their manuals say of them.
use fast_uuid.Common.{
  ℕ, zero, suc, ◌+◌, ◌-◌, ◌*◌, ◌/◌, ◌%◌, ◌^◌, ◌≡◌, List, [], ◌∷◌, ◌++◌, take, drop, get_or,
  replicate, ◌==◌, if◌then◌else◌, bit_or, bit_xor,
}
use fast_uuid.Hex.Simd.{Register}
use fast_uuid.Ctr.{Stream, aes_ctr, le_value, le_bytes}
use fast_uuid.Aes.{Fips, xor, shift_rows, sub_bytes, foldl}

-- The intrinsics of the backend, where the S-box and MixColumns are those of `f`.
pub record Armv8 (f : Fips) : Type 0 where
  pub veorq_u8 : Register → Register → Register
  pub vaeseq_u8 : Register → Register → Register
  pub vaesmcq_u8 : Register → Register
  pub veor_law : (a b : Register) → veorq_u8 a b ≡ xor a b
  pub vaese_law : (s k : Register) → vaeseq_u8 s k ≡ shift_rows (sub_bytes f (xor s k))
  pub vaesmc_law : (s : Register) → vaesmcq_u8 s ≡ f.mix_columns s

-- `memcpy(w, key, 32)` on a little-endian machine.
abbrev pub load_words : ℕ → List ℕ → List ℕ
load_words zero xs = []
load_words (suc n) xs = le_value (take 4 xs) ∷ load_words n (drop 4 xs)

-- `rcon`
abbrev pub rcon : List ℕ
rcon = 0x01 ∷ 0x02 ∷ 0x04 ∷ 0x08 ∷ 0x10 ∷ 0x20 ∷ 0x40 ∷ []

-- `rk[r] = vld1q_u8((const uint8_t *)(w + 4 * r))` for `n` values of `r`.
abbrev pub load_keys : ℕ → List ℕ → List Register
load_keys zero w = []
load_keys (suc n) w =
    (le_bytes 4 (get_or w 0 0)
      ++ (le_bytes 4 (get_or w 1 0) ++ (le_bytes 4 (get_or w 2 0) ++ le_bytes 4 (get_or w 3 0))))
    ∷ load_keys n (drop 4 w)

module _ {f : Fips} (p : Armv8 f) where
  -- `fu_aes_subword`: the word in all four lanes, a zero round key, and the lane 0.
  unfoldable pub aes_subword : ℕ → ℕ
  aes_subword w =
      let v = le_bytes 4 w ++ (le_bytes 4 w ++ (le_bytes 4 w ++ le_bytes 4 w)) in
      le_value (take 4 (p.vaeseq_u8 v (replicate 16 0)))

  -- `t` in the round `i` of the loop of `fu_aes_expand`.
  unfoldable pub schedule_temp : ℕ → ℕ → ℕ
  unfolding aes_subword
  schedule_temp i t =
      if i % 8 == 0
      then bit_xor (aes_subword (bit_or (t / 2 ^ 8) (t * 2 ^ 24 % 2 ^ 32)))
          (get_or rcon (i / 8 - 1) 0)
      else if i % 8 == 4
      then aes_subword t
      else t

  -- `n` rounds from `i` on; the array `w` holds the words 0 to `i - 1`.
  unfoldable pub schedule_loop : ℕ → ℕ → List ℕ → List ℕ
  unfolding schedule_temp
  schedule_loop zero i w = w
  schedule_loop (suc n) i w =
      schedule_loop n (i + 1)
        (w ++ bit_xor (get_or w (i - 8) 0) (schedule_temp i (get_or w (i - 1) 0)) ∷ [])

  -- `fu_aes_expand`
  unfoldable pub armv8_expand : List ℕ → List Register
  unfolding schedule_loop
  armv8_expand key = load_keys 15 (schedule_loop 52 8 (load_words 8 key))

  -- What both loops do with a counter block, by `FU_AESE_MC` and `FU_AESE_LAST`.
  unfoldable pub armv8_rounds : List Register → Register → Register
  armv8_rounds rk c =
      let x = foldl (λ s k. p.vaesmcq_u8 (p.vaeseq_u8 s k)) c (take 13 rk) in
      p.veorq_u8 (p.vaeseq_u8 x (get_or rk 13 [])) (get_or rk 14 [])

  unfoldable pub armv8_block : List ℕ → Register → Register
  unfolding armv8_expand
  armv8_block key c = armv8_rounds (armv8_expand key) c

  -- `fu_aes_ctr`: the loops are those of `Ctr`, over the blocks that these instructions make.
  unfoldable pub armv8_ctr : List ℕ → Register → ℕ → Stream
  armv8_ctr key ctr len = aes_ctr armv8_block key ctr len
