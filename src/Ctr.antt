-- ===== src/Ctr.antt =====
-- fast_uuid.c: `fu_aes_ctr`, the AES-256-CTR keystream with fast key erasure. The two versions,
-- for AES-NI and for the ARMv8 extensions, have the same loops; AES-256 on one block is a
-- parameter, and so is the counter's advance by one where a lemma does not depend on it.
pub mod Keystream
use fast_uuid.Common.{
  ℕ, zero, suc, ◌+◌, ◌-◌, ◌*◌, ◌/◌, ◌%◌, ◌^◌, Bool, true, false, ◌||◌, List, [], ◌∷◌, ◌++◌, take,
  drop, min, ltb, leb, ◌==◌, if◌then◌else◌,
}

abbrev pub Block : Type 0
Block = List ℕ

-- The value of little-endian bytes, and back.
unfoldable pub le_value : List ℕ → ℕ
le_value [] = 0
le_value (x ∷ xs) = x + 256 * le_value xs

unfoldable pub le_bytes : ℕ → ℕ → List ℕ
le_bytes zero x = []
le_bytes (suc n) x = (x % 256) ∷ le_bytes n (x / 256)

-- `_mm_add_epi64(c, one)` and `vaddq_u64(c, one)`: one is added to the low 64-bit lane.
unfoldable pub add_one : Block → Block
unfolding le_value le_bytes
add_one c = le_bytes 8 ((le_value (take 8 c) + 1) % 2 ^ 64) ++ drop 8 c

-- The output, the new key and the new counter.
pub record Stream : Type 0 where
  pub out : List ℕ
  pub key : List ℕ
  pub ctr : Block

module _ (aes : List ℕ → Block → Block) where
  -- The loop over eight blocks at a time: the output, the counter, and the length that is left.
  unfoldable pub eight_lanes : ℕ → List ℕ → Block → ℕ → List ℕ × Block × ℕ
  eight_lanes zero key c len = ([], c, len)
  eight_lanes (suc fuel) key c len =
      let c1 = add_one c in
      let c2 = add_one c1 in
      let c3 = add_one c2 in
      let c4 = add_one c3 in
      let c5 = add_one c4 in
      let c6 = add_one c5 in
      let c7 = add_one c6 in
      let rest = eight_lanes fuel key (add_one c7) (len - 128) in
      if leb 128 len
      then (
        aes key c
            ++ (aes key c1
                ++ (aes key c2
                    ++ (aes key c3
                        ++ (aes key c4
                            ++ (aes key c5 ++ (aes key c6 ++ (aes key c7 ++ rest.0))))))),
        rest.1,
        rest.2,
      )
      else ([], c, len)

  -- `while (1)`: two blocks a round; the round with nothing left to write makes the new key.
  unfoldable pub two_blocks : ℕ → List ℕ → Block → ℕ → Stream
  two_blocks zero key c len = record { out = []; key = key; ctr = c }
  two_blocks (suc fuel) key c len =
      let taken = if ltb len 32 then len else 32 in
      let x0 = aes key c in
      let c1 = add_one c in
      let x1 = aes key c1 in
      let c2 = if taken == 0 || ltb 16 taken then add_one c1 else c1 in
      let rest = two_blocks fuel key c2 (len - taken) in
      if taken == 0
      then record { out = []; key = x0 ++ x1; ctr = c2 }
      else record rest { out = take taken (x0 ++ x1) ++ rest.out }

  unfoldable pub aes_ctr : List ℕ → Block → ℕ → Stream
  unfolding eight_lanes two_blocks
  aes_ctr key c len =
      let (out, c', left) = eight_lanes len key c len in
      let rest = two_blocks (len + 1) key c' left in record rest { out = out ++ rest.out }
