-- ===== src/SelfTest.antt =====
-- fast_uuid.c: `fu_aes_selftest`, the known-answer test through `fu_aes_ctr`, and the choice of the
-- backend in `PHP_MINIT_FUNCTION`. AES-256 on one block is a parameter.
pub mod Cases
pub mod Answers
use fast_uuid.Common.{
  ℕ, zero, suc, ◌+◌, ◌-◌, ◌*◌, ◌/◌, ◌%◌, ◌^◌, Bool, true, false, not, ◌&&◌, List, [], ◌∷◌, ◌++◌,
  take, drop, length, replicate, get_or, ltb, ◌==◌, if◌then◌else◌,
}
use fast_uuid.Common.Int.{ℤ, pos, negsuc}
use fast_uuid.State.{AesState, no_cpu, no_detect, selftest_failed, active}
use fast_uuid.Ctr.{Block, Stream, le_value, le_bytes, aes_ctr}
use fast_uuid.Compare.{memcmp, is_zero_ℤ}

-- FIPS-197 C.3: the key, the plaintext and the ciphertext.
abbrev pub fips_key : List ℕ
fips_key =
    0x00 ∷ 0x01 ∷ 0x02 ∷ 0x03 ∷ 0x04 ∷ 0x05 ∷ 0x06 ∷ 0x07 ∷ 0x08 ∷ 0x09 ∷ 0x0a ∷ 0x0b ∷ 0x0c ∷ 0x0d
    ∷ 0x0e ∷ 0x0f ∷ 0x10 ∷ 0x11 ∷ 0x12 ∷ 0x13 ∷ 0x14 ∷ 0x15 ∷ 0x16 ∷ 0x17 ∷ 0x18 ∷ 0x19 ∷ 0x1a
    ∷ 0x1b ∷ 0x1c ∷ 0x1d ∷ 0x1e ∷ 0x1f ∷ []

-- `fips_pt`
abbrev pub fips_pt : List ℕ
fips_pt =
    0x00 ∷ 0x11 ∷ 0x22 ∷ 0x33 ∷ 0x44 ∷ 0x55 ∷ 0x66 ∷ 0x77 ∷ 0x88 ∷ 0x99 ∷ 0xaa ∷ 0xbb ∷ 0xcc ∷ 0xdd
    ∷ 0xee ∷ 0xff ∷ []

-- `fips_ct`
abbrev pub fips_ct : List ℕ
fips_ct =
    0x8e ∷ 0xa2 ∷ 0xb7 ∷ 0xca ∷ 0x51 ∷ 0x67 ∷ 0x45 ∷ 0xbf ∷ 0xea ∷ 0xfc ∷ 0x49 ∷ 0x90 ∷ 0x4b ∷ 0x49
    ∷ 0x60 ∷ 0x89 ∷ []

-- NIST SP 800-38A F.5.5, block 1: the key, the input and the output.
abbrev pub sp_key : List ℕ
sp_key =
    0x60 ∷ 0x3d ∷ 0xeb ∷ 0x10 ∷ 0x15 ∷ 0xca ∷ 0x71 ∷ 0xbe ∷ 0x2b ∷ 0x73 ∷ 0xae ∷ 0xf0 ∷ 0x85 ∷ 0x7d
    ∷ 0x77 ∷ 0x81 ∷ 0x1f ∷ 0x35 ∷ 0x2c ∷ 0x07 ∷ 0x3b ∷ 0x61 ∷ 0x08 ∷ 0xd7 ∷ 0x2d ∷ 0x98 ∷ 0x10
    ∷ 0xa3 ∷ 0x09 ∷ 0x14 ∷ 0xdf ∷ 0xf4 ∷ []

-- `sp_in`
abbrev pub sp_in : List ℕ
sp_in =
    0xf0 ∷ 0xf1 ∷ 0xf2 ∷ 0xf3 ∷ 0xf4 ∷ 0xf5 ∷ 0xf6 ∷ 0xf7 ∷ 0xf8 ∷ 0xf9 ∷ 0xfa ∷ 0xfb ∷ 0xfc ∷ 0xfd
    ∷ 0xfe ∷ 0xff ∷ []

-- `sp_out`
abbrev pub sp_out : List ℕ
sp_out =
    0x0b ∷ 0xdf ∷ 0x7d ∷ 0xf1 ∷ 0x59 ∷ 0x17 ∷ 0x16 ∷ 0x33 ∷ 0x5e ∷ 0x9a ∷ 0x8b ∷ 0x15 ∷ 0xc8 ∷ 0x60
    ∷ 0xc5 ∷ 0x02 ∷ []

-- `cases`: a length, and the block of the keystream that is compared.
abbrev pub cases : List (ℕ × ℕ)
cases =
    (128, 0)
    ∷ (128, 1)
    ∷ (128, 2)
    ∷ (128, 3)
    ∷ (128, 4)
    ∷ (128, 5)
    ∷ (128, 6)
    ∷ (128, 7)
    ∷ (256, 8)
    ∷ (256, 15)
    ∷ (16, 0)
    ∷ (144, 8)
    ∷ (160, 9)
    ∷ (183, 10)
    ∷ (183, 11)
    ∷ (48, 3)
    ∷ (48, 4)
    ∷ (183, 12)
    ∷ (183, 13)
    ∷ []

-- `lo -= blk` on the plaintext as the counter.
unfoldable pub start_ctr : ℕ → Block
start_ctr blk = le_bytes 8 ((le_value (take 8 fips_pt) + 2 ^ 64 - blk) % 2 ^ 64) ++ drop 8 fips_pt

-- A block of the output, or of the new key behind it, is the ciphertext.
unfoldable pub block_matches : List ℕ → List ℕ → ℕ → ℕ → Bool
block_matches key out len blk =
    let nblk = (len + 15) / 16 in
    let cmp = if ltb (len - blk * 16) 16 then len - blk * 16 else 16 in
    if ltb blk nblk
    then is_zero_ℤ (memcmp (take cmp (drop (blk * 16) out)) (take cmp fips_ct))
    else is_zero_ℤ (memcmp (take 16 (drop ((blk - nblk) * 16) key)) fips_ct)

-- `lo_after` and `hi_after`
unfoldable pub counter_moved : ℕ → ℕ → Block → Bool
counter_moved len blk c =
    le_value (take 8 c) == (le_value (take 8 (start_ctr blk)) + (len + 15) / 16 + 2) % 2 ^ 64
    && le_value (drop 8 c) == le_value (drop 8 fips_pt)

module _ (aes : List ℕ → Block → Block) where
  -- A round of the loop, where `out` was filled with 0xa5 before.
  unfoldable pub case_passes : ℕ → ℕ → Bool
  unfolding block_matches counter_moved
  case_passes len blk =
      let r = aes_ctr aes fips_key (start_ctr blk) len in
      let out = r.out ++ drop (length r.out) (replicate 272 0xa5) in
      if not (block_matches r.key out len blk)
      then false
      else if not (get_or out len 0 == 0xa5)
      then false
      else counter_moved len blk r.ctr

  unfoldable pub cases_pass : List (ℕ × ℕ) → Bool
  unfolding case_passes
  cases_pass [] = true
  cases_pass ((len, blk) ∷ cs) =
      let rest = cases_pass cs in if case_passes len blk then rest else false

  unfoldable pub aes_selftest : Bool
  unfolding cases_pass
  aes_selftest =
      if not (cases_pass cases)
      then false
      else is_zero_ℤ (memcmp (take 16 (aes_ctr aes sp_key sp_in 16).out) sp_out)

-- `fu_aes_state` from what `fu_detect_aes` returns.
unfoldable pub aes_state_of : (List ℕ → Block → Block) → ℤ → AesState
unfolding aes_selftest
aes_state_of aes (negsuc n) = no_detect
aes_state_of aes (pos zero) = no_cpu
aes_state_of aes (pos (suc n)) = if not (aes_selftest aes) then selftest_failed else active
