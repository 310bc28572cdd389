-- ===== src/Aes/Ni.antt =====
-- fast_uuid.c, the AES-NI backend: the key schedule, the rounds and `fu_aes_ctr` on x86. The
-- compiler's intrinsics are parameters, with what their manuals say of them.
use fast_uuid.Common.{
  ℕ, ◌-◌, ◌*◌, ◌/◌, ◌%◌, ◌≡◌, List, [], ◌∷◌, ◌++◌, take, drop, get_or, replicate,
}
use fast_uuid.Hex.Simd.{Register}
use fast_uuid.Ctr.{Stream, aes_ctr}
use fast_uuid.Aes.{Fips, Word, xor, shift_rows, rot_word, sub_bytes, foldl}

-- The word `j` of a register.
abbrev pub dword : ℕ → Register → Word
dword j a = take 4 (drop (4 * j) a)

-- The words that the four fields of two bits choose.
abbrev pub chosen_dwords : Register → ℕ → Register
chosen_dwords a imm =
    dword (imm % 4) a
    ++ (dword (imm / 4 % 4) a ++ (dword (imm / 16 % 4) a ++ dword (imm / 64 % 4) a))

-- SubWord of the words 1 and 3, each also under RotWord with the constant in its low byte.
abbrev pub key_assist : Fips → Register → ℕ → Register
key_assist f a rcon =
    let x1 = sub_bytes f (dword 1 a) in
    let x3 = sub_bytes f (dword 3 a) in
    let r = rcon ∷ 0 ∷ 0 ∷ 0 ∷ [] in x1 ++ (xor (rot_word x1) r ++ (x3 ++ xor (rot_word x3) r))

-- The intrinsics of the backend, where the S-box and MixColumns are those of `f`.
pub record AesNi (f : Fips) : Type 0 where
  pub mm_xor_si128 : Register → Register → Register
  pub mm_slli_si128 : Register → ℕ → Register
  pub mm_shuffle_epi32 : Register → ℕ → Register
  pub mm_aeskeygenassist_si128 : Register → ℕ → Register
  pub mm_aesenc_si128 : Register → Register → Register
  pub mm_aesenclast_si128 : Register → Register → Register
  pub xor_law : (a b : Register) → mm_xor_si128 a b ≡ xor a b
  pub slli_law : (a : Register) (n : ℕ) → mm_slli_si128 a n ≡ replicate n 0 ++ take (16 - n) a
  pub shuffle_law : (a : Register) (imm : ℕ) → mm_shuffle_epi32 a imm ≡ chosen_dwords a imm
  pub keygenassist_law :
      (a : Register) (rcon : ℕ) → mm_aeskeygenassist_si128 a rcon ≡ key_assist f a rcon
  pub aesenc_law :
      (s k : Register) → mm_aesenc_si128 s k ≡ xor (f.mix_columns (shift_rows (sub_bytes f s))) k
  pub aesenclast_law :
      (s k : Register) → mm_aesenclast_si128 s k ≡ xor (shift_rows (sub_bytes f s)) k

module _ {f : Fips} (i : AesNi f) where
  -- `FU_AESNI_EXPAND_EVEN` and `FU_AESNI_EXPAND_ODD`: the new value of the first argument.
  unfoldable pub expand_even : Register → Register → ℕ → Register
  expand_even t1 t3 rcon =
      let a = i.mm_shuffle_epi32 (i.mm_aeskeygenassist_si128 t3 rcon) 0xff in
      let x = i.mm_xor_si128 t1 (i.mm_slli_si128 t1 4) in
      let y = i.mm_xor_si128 x (i.mm_slli_si128 x 8) in i.mm_xor_si128 y a

  unfoldable pub expand_odd : Register → Register → Register
  expand_odd t3 t1 =
      let a = i.mm_shuffle_epi32 (i.mm_aeskeygenassist_si128 t1 0x00) 0xaa in
      let x = i.mm_xor_si128 t3 (i.mm_slli_si128 t3 4) in
      let y = i.mm_xor_si128 x (i.mm_slli_si128 x 8) in i.mm_xor_si128 y a

  -- `fu_aes_expand`
  unfoldable pub aes_expand : List ℕ → List Register
  aes_expand key =
      let k0 = take 16 key in
      let k1 = take 16 (drop 16 key) in
      let k2 = expand_even k0 k1 0x01 in
      let k3 = expand_odd k1 k2 in
      let k4 = expand_even k2 k3 0x02 in
      let k5 = expand_odd k3 k4 in
      let k6 = expand_even k4 k5 0x04 in
      let k7 = expand_odd k5 k6 in
      let k8 = expand_even k6 k7 0x08 in
      let k9 = expand_odd k7 k8 in
      let k10 = expand_even k8 k9 0x10 in
      let k11 = expand_odd k9 k10 in
      let k12 = expand_even k10 k11 0x20 in
      let k13 = expand_odd k11 k12 in
      let k14 = expand_even k12 k13 0x40 in
      k0 ∷ k1 ∷ k2 ∷ k3 ∷ k4 ∷ k5 ∷ k6 ∷ k7 ∷ k8 ∷ k9 ∷ k10 ∷ k11 ∷ k12 ∷ k13 ∷ k14 ∷ []

  -- What both loops do with a counter block: `rk[0]`, thirteen rounds and the last one.
  unfoldable pub aesni_rounds : List Register → Register → Register
  aesni_rounds rk c =
      let x = foldl i.mm_aesenc_si128 (i.mm_xor_si128 c (get_or rk 0 [])) (take 13 (drop 1 rk)) in
      i.mm_aesenclast_si128 x (get_or rk 14 [])

  unfoldable pub aesni_block : List ℕ → Register → Register
  unfolding aes_expand
  aesni_block key c = aesni_rounds (aes_expand key) c

  -- `fu_aes_ctr`: the loops are those of `Ctr`, over the blocks that these instructions make.
  unfoldable pub aesni_ctr : List ℕ → Register → ℕ → Stream
  aesni_ctr key ctr len = aes_ctr aesni_block key ctr len
