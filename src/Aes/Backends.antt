-- ===== src/Aes/Backends.antt =====
-- Both backends run counter mode over the AES-256 of FIPS-197, so that they write the same bytes.
use fast_uuid.Common.{
  ℕ, zero, suc, ◌+◌, ◌-◌, ◌≡◌, refl, sym, ap, List, [], ◌∷◌, ◌++◌, drop, length, tabulate,
  tabulate-get_or, All, IsByte, ltb, ◌==◌, ◌||◌, if◌then◌else◌,
}
use mathlib.Core.Path.{subst}
use fast_uuid.Hex.Simd.{Register}
use fast_uuid.Ctr.{Block, add_one, eight_lanes, two_blocks, aes_ctr}
use fast_uuid.Aes.{
  Fips, fips_round, fips_rounds, fips_expand, fips_cipher, foldl, Word, words, key_words,
  round_keys,
}
use fast_uuid.Aes.Ni.{AesNi, aesni_rounds, aesni_block, aesni_ctr}
use fast_uuid.Aes.NiExpand.{aes_expand-fips}
use fast_uuid.Aes.Armv8.{Armv8, armv8_rounds, armv8_block, armv8_ctr}
use fast_uuid.Aes.ArmExpand.{armv8_expand-fips}

-- Counter mode reads the cipher at its own key only.
module _ (a b : List ℕ → Block → Block) (key : List ℕ)
    (same : (c : Block) → a key c ≡ b key c) where
  eight_lanes-same :
      (fuel : ℕ) (c : Block) (len : ℕ) → eight_lanes a fuel key c len ≡ eight_lanes b fuel key c len
  unfolding eight_lanes
  eight_lanes-same zero c len = refl
  eight_lanes-same (suc fuel) c len =
      let c1 = add_one c in
      let c2 = add_one c1 in
      let c3 = add_one c2 in
      let c4 = add_one c3 in
      let c5 = add_one c4 in
      let c6 = add_one c5 in
      let c7 = add_one c6 in
      rw (
        same c,
        same c1,
        same c2,
        same c3,
        same c4,
        same c5,
        same c6,
        same c7,
        eight_lanes-same fuel (add_one c7) (len - 128),
      )

  two_blocks-same :
      (fuel : ℕ) (c : Block) (len : ℕ) → two_blocks a fuel key c len ≡ two_blocks b fuel key c len
  unfolding two_blocks
  two_blocks-same zero c len = refl
  two_blocks-same (suc fuel) c len =
      let taken = if ltb len 32 then len else 32 in
      let c1 = add_one c in
      let c2 = if taken == 0 || ltb 16 taken then add_one c1 else c1 in
      rw (same c, same c1, two_blocks-same fuel c2 (len - taken))

  aes_ctr-same : (c : Block) (len : ℕ) → aes_ctr a key c len ≡ aes_ctr b key c len
  unfolding aes_ctr
  aes_ctr-same c len = rw (
    eight_lanes-same len c len,
    two_blocks-same (len + 1) (eight_lanes b len key c len).1 (eight_lanes b len key c len).2,
  )

length-round_keys : (n : ℕ) (ws : List Word) → length (round_keys n ws) ≡ n
length-round_keys zero ws = refl
length-round_keys (suc n) ws = ap suc (length-round_keys n (drop 4 ws))

length-fips_expand : (f : Fips) (key : List ℕ) → length (fips_expand f key) ≡ 15
unfolding fips_expand
length-fips_expand f key = length-round_keys 15 (words 8 key ++ key_words f 52 8 (words 8 key))

module _ {f : Fips} (i : AesNi f) where
  aesenc_rounds :
      (x : Register) (ks : List Register) → foldl i.mm_aesenc_si128 x ks ≡ foldl (fips_round f) x ks
  aesenc_rounds x [] = refl
  aesenc_rounds x (k ∷ ks) = rw (i.aesenc_law x k) (aesenc_rounds (fips_round f x k) ks)

  aesni_rounds-fips : (rk : List Register) (c : Register) → aesni_rounds i rk c ≡ fips_rounds f rk c
  unfolding aesni_rounds fips_rounds
  aesni_rounds-fips rk c = simp (i.xor_law, aesenc_rounds, i.aesenclast_law)

  -- For a key of 32 bytes, `fu_aes_ctr` with the AES-NI instructions writes the bytes, the new key and
  -- the new counter of counter mode over the AES-256 of FIPS-197.
  pub aesni_ctr-fips :
      (key : List ℕ) (ctr : Block) (len : ℕ)
      → length key ≡ 32
      → aesni_ctr i key ctr len ≡ aes_ctr (fips_cipher f) key ctr len
  unfolding aesni_ctr
  aesni_ctr-fips key ctr len h = aes_ctr-same (aesni_block i) (fips_cipher f) key same ctr len
    where
      same : (c : Block) → aesni_block i key c ≡ fips_cipher f key c
      same c =
          unfold aesni_block fips_cipher in
          rw (aes_expand-fips i key h) (aesni_rounds-fips (fips_expand f key) c)

as_fifteen :
    (P : List Register → Type 0)
    → ((k0 k1 k2 k3 k4 k5 k6 k7 k8 k9 k10 k11 k12 k13 k14 : Register)
        → P (k0 ∷ k1 ∷ k2 ∷ k3 ∷ k4 ∷ k5 ∷ k6 ∷ k7 ∷ k8 ∷ k9 ∷ k10 ∷ k11 ∷ k12 ∷ k13 ∷ k14 ∷ []))
    → (rk : List Register) → length rk ≡ 15
    → P rk
unfolding tabulate
as_fifteen P h rk e = subst P (sym (tabulate-get_or 15 rk [] e)) (h _ _ _ _ _ _ _ _ _ _ _ _ _ _ _)

module _ {f : Fips} (p : Armv8 f) where
  -- The instruction adds the round key first, where FIPS-197 adds it last: fifteen keys in both.
  armv8_rounds-fips :
      (rk : List Register) (c : Register)
      → length rk ≡ 15
      → armv8_rounds p rk c ≡ fips_rounds f rk c
  unfolding armv8_rounds fips_rounds
  armv8_rounds-fips rk c e =
      as_fifteen (λ rk. armv8_rounds p rk c ≡ fips_rounds f rk c)
        (λ k0 k1 k2 k3 k4 k5 k6 k7 k8 k9 k10 k11 k12 k13 k14.
          simp (p.veor_law, p.vaese_law, p.vaesmc_law))
        rk e

  -- For a key of 32 bytes, `fu_aes_ctr` with the ARMv8 instructions writes the bytes, the new key and
  -- the new counter of counter mode over the AES-256 of FIPS-197.
  pub armv8_ctr-fips :
      (key : List ℕ) (ctr : Block) (len : ℕ)
      → length key ≡ 32
      → All IsByte key
      → armv8_ctr p key ctr len ≡ aes_ctr (fips_cipher f) key ctr len
  unfolding armv8_ctr
  armv8_ctr-fips key ctr len h b = aes_ctr-same (armv8_block p) (fips_cipher f) key same ctr len
    where
      same : (c : Block) → armv8_block p key c ≡ fips_cipher f key c
      same c =
          unfold armv8_block fips_cipher in
          rw (armv8_expand-fips p key h b)
            (armv8_rounds-fips (fips_expand f key) c (length-fips_expand f key))
