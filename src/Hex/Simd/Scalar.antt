-- ===== src/Hex/Simd/Scalar.antt =====
-- The formatters with vector instructions give what the scalar one gives.
use fast_uuid.Common.{
  ℕ, zero, suc, ◌+◌, ◌*◌, ◌/◌, ◌%◌, ◌^◌, ◌<◌, ◌≡◌, refl, ap, ◌∙◌, arith, Bool, true, false, List,
  [], ◌∷◌, ◌++◌, map, take, drop, replicate, get_or, length, ltb, ◌==◌, ◌&&◌, bit_and, All, IsByte,
}
use fast_uuid.Common.Bits.{all_below, all_below_sound, mask_4}
use fast_uuid.Uuid.{Uuid, IsBytes, to_list}
use fast_uuid.Hex.{hexd, lut, hex_bytes, hex32_scalar}
use fast_uuid.Hex.Simd.{
  Register, bytewise, shifted_lanes, interleaved, shuffled, looked_up, Ssse3, Neon, hex32_ssse3,
  hex32_neon, Target, x86, aarch64, scalar, hex32,
}

-- The table of pairs by the sixteen digits.
halves : ℕ → Bool
halves x = lut (x * 2) == get_or hexd (x / 16) 0 && lut (x * 2 + 1) == get_or hexd (x % 16) 0

halves_table : all_below 256 halves ≡ true
unfolding all_below halves lut
halves_table = refl

lut_high : (x : ℕ) → x < 256 → get_or hexd (x / 16) 0 ≡ lut (x * 2)
unfolding halves
lut_high x h = ground (arith, all_below_sound 256 halves x halves_table h)

lut_low : (x : ℕ) → x < 256 → get_or hexd (x % 16) 0 ≡ lut (x * 2 + 1)
unfolding halves
lut_low x h = ground (arith, all_below_sound 256 halves x halves_table h)

shuffled_small : (n : ℕ) → n < 16 → shuffled hexd n ≡ get_or hexd n 0
shuffled_small n h =
    let e : ltb n 0x80 ≡ true = ground arith in let q : n % 16 ≡ n = omega arith in rw (e, q) refl

looked_up_small : (n : ℕ) → n < 16 → looked_up hexd n ≡ get_or hexd n 0
looked_up_small n h = let e : ltb n 16 ≡ true = ground arith in rw e refl

shuffled_low : (x : ℕ) → x < 256 → shuffled hexd (bit_and x 0x0f) ≡ lut (x * 2 + 1)
shuffled_low x h = rw (mask_4 x) (shuffled_small (x % 16) (omega arith) ∙ lut_low x h)

shuffled_high :
    (x y : ℕ) → x < 256 → bit_and y 0x0f ≡ x / 16 → shuffled hexd (bit_and y 0x0f) ≡ lut (x * 2)
shuffled_high x y h e = rw e (shuffled_small (x / 16) (omega arith) ∙ lut_high x h)

lane_low : (a b : ℕ) → a < 256 → bit_and ((a + 2 ^ 8 * b) / 2 ^ 4 % 2 ^ 8) 0x0f ≡ a / 16
lane_low a b h = rw (mask_4 ((a + 2 ^ 8 * b) / 2 ^ 4 % 2 ^ 8)) (omega arith)

lane_high : (a b : ℕ) → a < 256 → b < 256 → bit_and ((a + 2 ^ 8 * b) / 2 ^ 4 / 2 ^ 8) 0x0f ≡ b / 16
lane_high a b h k = rw (mask_4 ((a + 2 ^ 8 * b) / 2 ^ 4 / 2 ^ 8)) (omega arith)

-- Lanes of two bytes.
Even : Register → Type 0
Even [] = Unit {0}
Even (a ∷ []) = ⊥
Even (a ∷ (b ∷ r)) = Even r

ssse3_high :
    (v : Register) (n : ℕ)
    → Even v
    → All IsByte v
    → length v ≡ n
    → map (shuffled hexd) (bytewise bit_and (shifted_lanes 4 v) (replicate n 0x0f))
      ≡ map (λ x. lut (x * 2)) v
unfolding Even bytewise shifted_lanes
ssse3_high [] n e h l = refl
ssse3_high (a ∷ []) n e h l = absurd e
ssse3_high (a ∷ (b ∷ r)) zero e h l = absurd (omega (arith, l))
ssse3_high (a ∷ (b ∷ r)) (suc zero) e h l = absurd (omega (arith, l))
ssse3_high (a ∷ (b ∷ r)) (suc (suc n)) e (h, (k, m)) l =
    rw
      (
        shuffled_high a ((a + 2 ^ 8 * b) / 2 ^ 4 % 2 ^ 8) h (lane_low a b h),
        shuffled_high b ((a + 2 ^ 8 * b) / 2 ^ 4 / 2 ^ 8) k (lane_high a b h k),
        ssse3_high r n e m (omega (arith, l)),
      )
      refl

low_nibbles :
    (v : Register) (n : ℕ)
    → All IsByte v
    → length v ≡ n
    → map (shuffled hexd) (bytewise bit_and v (replicate n 0x0f)) ≡ map (λ x. lut (x * 2 + 1)) v
unfolding bytewise
low_nibbles [] n h l = refl
low_nibbles (a ∷ v) zero h l = absurd (omega (arith, l))
low_nibbles (a ∷ v) (suc n) (h, k) l =
    rw (shuffled_low a h, low_nibbles v n k (omega (arith, l))) refl

interleaved-lut :
    (v : List ℕ)
    → interleaved (map (λ x. lut (x * 2)) v) (map (λ x. lut (x * 2 + 1)) v) ≡ hex_bytes v
unfolding interleaved hex_bytes
interleaved-lut [] = refl
interleaved-lut (x ∷ v) = ap (λ t. lut (x * 2) ∷ lut (x * 2 + 1) ∷ t) (interleaved-lut v)

neon_high :
    (v : Register)
    → All IsByte v
    → map (looked_up hexd) (map (λ x. x / 2 ^ 4) v) ≡ map (λ x. lut (x * 2)) v
neon_high [] h = refl
neon_high (a ∷ v) (h, k) =
    rw (looked_up_small (a / 2 ^ 4) (omega arith), lut_high a h, neon_high v k) refl

looked_up_low : (x : ℕ) → x < 256 → looked_up hexd (bit_and x 0x0f) ≡ lut (x * 2 + 1)
looked_up_low x h = rw (mask_4 x) (looked_up_small (x % 16) (omega arith) ∙ lut_low x h)

neon_low :
    (v : Register) (n : ℕ)
    → All IsByte v
    → length v ≡ n
    → map (looked_up hexd) (bytewise bit_and v (replicate n 0x0f)) ≡ map (λ x. lut (x * 2 + 1)) v
unfolding bytewise
neon_low [] n h l = refl
neon_low (a ∷ v) zero h l = absurd (omega (arith, l))
neon_low (a ∷ v) (suc n) (h, k) l = rw (looked_up_low a h, neon_low v n k (omega (arith, l))) refl

-- Both halves of sixteen bytes in turn.
halves-interleaved :
    (b : Uuid) (f g : ℕ → ℕ)
    → interleaved (take 8 (map f (to_list b))) (take 8 (map g (to_list b)))
        ++ interleaved (drop 8 (map f (to_list b))) (drop 8 (map g (to_list b)))
      ≡ interleaved (map f (to_list b)) (map g (to_list b))
unfolding interleaved
halves-interleaved b f g = refl

to_list-Even : (b : Uuid) → Even (to_list b)
unfolding Even
to_list-Even b = tt

-- The digits of the high halves and of the low halves, each half of the register in turn.
abbrev zipped : Register → List ℕ
zipped v =
    interleaved (take 8 (map (λ x. lut (x * 2)) v)) (take 8 (map (λ x. lut (x * 2 + 1)) v))
    ++ interleaved (drop 8 (map (λ x. lut (x * 2)) v)) (drop 8 (map (λ x. lut (x * 2 + 1)) v))

zipped_lem : (b : Uuid) → zipped (to_list b) ≡ hex_bytes (to_list b)
zipped_lem b =
    halves-interleaved b (λ x. lut (x * 2)) (λ x. lut (x * 2 + 1)) ∙ interleaved-lut (to_list b)

module _ (i : Ssse3) (v : Register) (even : Even v) (h : All IsByte v) (l : length v ≡ 16) where
  ssse3_hh_lem :
      i.mm_shuffle_epi8 hexd (i.mm_and_si128 (i.mm_srli_epi16 v 4) (replicate 16 0x0f))
      ≡ map (λ x. lut (x * 2)) v
  ssse3_hh_lem = rw (i.srli_law, i.and_law, i.shuffle_law) (ssse3_high v 16 even h l)

  ssse3_lh_lem :
      i.mm_shuffle_epi8 hexd (i.mm_and_si128 v (replicate 16 0x0f)) ≡ map (λ x. lut (x * 2 + 1)) v
  ssse3_lh_lem = rw (i.and_law, i.shuffle_law) (low_nibbles v 16 h l)

  ssse3_zipped :
      i.mm_unpacklo_epi8
          (i.mm_shuffle_epi8 hexd (i.mm_and_si128 (i.mm_srli_epi16 v 4) (replicate 16 0x0f)))
          (i.mm_shuffle_epi8 hexd (i.mm_and_si128 v (replicate 16 0x0f)))
        ++ i.mm_unpackhi_epi8
            (i.mm_shuffle_epi8 hexd (i.mm_and_si128 (i.mm_srli_epi16 v 4) (replicate 16 0x0f)))
            (i.mm_shuffle_epi8 hexd (i.mm_and_si128 v (replicate 16 0x0f)))
      ≡ zipped v
  ssse3_zipped = rw (ssse3_hh_lem, ssse3_lh_lem, i.unpacklo_law, i.unpackhi_law) refl

module _ (n : Neon) (v : Register) (h : All IsByte v) (l : length v ≡ 16) where
  neon_hh_lem : n.vqtbl1q_u8 hexd (n.vshrq_n_u8 v 4) ≡ map (λ x. lut (x * 2)) v
  neon_hh_lem = rw (n.shr_law, n.tbl_law) (neon_high v h)

  neon_lh_lem : n.vqtbl1q_u8 hexd (n.vandq_u8 v (replicate 16 0x0f)) ≡ map (λ x. lut (x * 2 + 1)) v
  neon_lh_lem = rw (n.and_law, n.tbl_law) (neon_low v 16 h l)

  neon_zipped :
      (n.vzipq_u8
          (n.vqtbl1q_u8 hexd (n.vshrq_n_u8 v 4))
          (n.vqtbl1q_u8 hexd (n.vandq_u8 v (replicate 16 0x0f)))).0
        ++ (n.vzipq_u8
            (n.vqtbl1q_u8 hexd (n.vshrq_n_u8 v 4))
            (n.vqtbl1q_u8 hexd (n.vandq_u8 v (replicate 16 0x0f)))).1
      ≡ zipped v
  neon_zipped = rw (neon_hh_lem, neon_lh_lem, n.zip_law) refl

module _ (i : Ssse3) (n : Neon) where
  hex32_ssse3-scalar : (b : Uuid) → IsBytes b → hex32_ssse3 i b ≡ hex32_scalar b
  unfolding hex32_ssse3 hex32_scalar
  hex32_ssse3-scalar b h = ssse3_zipped i (to_list b) (to_list-Even b) h refl ∙ zipped_lem b

  hex32_neon-scalar : (b : Uuid) → IsBytes b → hex32_neon n b ≡ hex32_scalar b
  unfolding hex32_neon hex32_scalar
  hex32_neon-scalar b h = neon_zipped n (to_list b) h refl ∙ zipped_lem b

  -- On every target, sixteen bytes get the 32 digits that the scalar formatter gives, where the vector
  -- intrinsics do what their manuals say.
  pub hex32-scalar : (t : Target) (b : Uuid) → IsBytes b → hex32 i n t b ≡ hex32_scalar b
  unfolding hex32
  hex32-scalar (x86 true) b h = hex32_ssse3-scalar b h
  hex32-scalar (x86 false) b h = refl
  hex32-scalar aarch64 b h = hex32_neon-scalar b h
  hex32-scalar scalar b h = refl
