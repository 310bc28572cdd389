-- ===== src/Aes.antt =====
-- AES-256 as FIPS-197 defines it, which both backends of fast_uuid.c implement with processor
-- instructions. The S-box and MixColumns stand in the processor and not in the program: they are
-- parameters. A block, a round key and a register are the list of their sixteen bytes in memory.
pub mod Ni
pub mod Armv8
pub mod Words
pub mod NiSchedule
pub mod NiExpand
pub mod ArmSchedule
pub mod ArmExpand
pub mod Backends
use fast_uuid.Common.{
  ℕ, zero, suc, ◌+◌, ◌-◌, ◌/◌, ◌%◌, ◌^◌, ◌<◌, ◌≡◌, List, [], ◌∷◌, ◌++◌, map, take, drop, get_or,
  length, ◌==◌, if◌then◌else◌, bit_xor,
}
use fast_uuid.Hex.Simd.{Register, bytewise}

-- SubBytes on one byte, and MixColumns.
pub record Fips : Type 0 where
  pub sbox : ℕ → ℕ
  pub mix_columns : Register → Register
  pub sbox_byte : (x : ℕ) → sbox x < 256

abbrev pub xor : List ℕ → List ℕ → List ℕ
xor = bytewise bit_xor

-- ShiftRows: row `r` of the column-major state moves `r` columns to the left.
abbrev pub shift_rows : Register → Register
shift_rows s =
    map (λ i. get_or s i 0)
      (0 ∷ 5 ∷ 10 ∷ 15 ∷ 4 ∷ 9 ∷ 14 ∷ 3 ∷ 8 ∷ 13 ∷ 2 ∷ 7 ∷ 12 ∷ 1 ∷ 6 ∷ 11 ∷ [])

-- A word of the key schedule is its four bytes.
abbrev pub Word : Type 0
Word = List ℕ

abbrev pub rot_word : Word → Word
rot_word w = drop 1 w ++ take 1 w

abbrev pub foldl : (Register → Register → Register) → Register → List Register → Register
foldl f s [] = s
foldl f s (k ∷ ks) = foldl f (f s k) ks

module _ (f : Fips) where
  abbrev pub sub_bytes : List ℕ → List ℕ
  sub_bytes s = map f.sbox s

  -- 5.2, Algorithm 2 with Nk = 8: what the word `i` takes from the word before it.
  unfoldable pub key_temp : ℕ → Word → Word
  key_temp i w =
      if i % 8 == 0
      then xor (sub_bytes (rot_word w)) (2 ^ (i / 8 - 1) ∷ 0 ∷ 0 ∷ 0 ∷ [])
      else if i % 8 == 4
      then sub_bytes w
      else w

  -- The `n` words from the word `i` on, behind a window of the eight words before it.
  unfoldable pub key_words : ℕ → ℕ → List Word → List Word
  key_words zero i ws = []
  key_words (suc n) i ws =
      let w = xor (get_or ws 0 []) (key_temp i (get_or ws 7 [])) in
      w ∷ key_words n (i + 1) (drop 1 ws ++ w ∷ [])

-- The words of a key, and the round keys of words.
abbrev pub words : ℕ → List ℕ → List Word
words zero xs = []
words (suc n) xs = take 4 xs ∷ words n (drop 4 xs)

abbrev pub round_keys : ℕ → List Word → List Register
round_keys zero ws = []
round_keys (suc n) ws =
    (get_or ws 0 [] ++ (get_or ws 1 [] ++ (get_or ws 2 [] ++ get_or ws 3 [])))
    ∷ round_keys n (drop 4 ws)

module _ (f : Fips) where
  -- The fifteen round keys of a key of 32 bytes.
  unfoldable pub fips_expand : List ℕ → List Register
  fips_expand key = round_keys 15 (words 8 key ++ key_words f 52 8 (words 8 key))

  abbrev pub fips_round : Register → Register → Register
  fips_round s k = xor (f.mix_columns (shift_rows (sub_bytes f s))) k

  -- 5.1 with Nr = 14.
  unfoldable pub fips_rounds : List Register → Register → Register
  fips_rounds rk x =
      let s = foldl fips_round (xor x (get_or rk 0 [])) (take 13 (drop 1 rk)) in
      xor (shift_rows (sub_bytes f s)) (get_or rk 14 [])

  unfoldable pub fips_cipher : List ℕ → Register → Register
  fips_cipher key x = fips_rounds (fips_expand key) x
