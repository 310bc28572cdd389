-- ===== src/Aes/ArmSchedule.antt =====
-- The key schedule of the ARMv8 backend, on little-endian words, is that of FIPS-197.
use fast_uuid.Common.{
  ℕ, zero, suc, ◌+◌, ◌-◌, ◌*◌, ◌/◌, ◌%◌, ◌^◌, ◌<◌, ◌≤◌, ◌≡◌, refl, ap, ◌∙◌, arith, List, [], ◌∷◌,
  ◌++◌, take, replicate, get_or, length, All, IsByte, Bool-cases, inl, inr, ◌==◌, bit_or, bit_xor,
}
use mathlib.Core.Path.{ap₂}
use fast_uuid.Common.Bits.{bit_or_high}
use fast_uuid.Common.Bits.Xor.{bit_xor-zero, bit_xor-lt, bit_xor_parts}
use fast_uuid.Hex.Simd.{bytewise}
use fast_uuid.Ctr.{le_value, le_bytes}
use fast_uuid.Aes.{Fips, shift_rows, Word, xor, rot_word, sub_bytes, key_temp}
use fast_uuid.Aes.Armv8.{Armv8, rcon, aes_subword, schedule_temp}

-- Four bytes.
abbrev pub IsWord : Word → Type 0
IsWord w = (length w ≡ 4) × All IsByte w

as_word :
    (P : Word → Type 0)
    → ((a b c d : ℕ) → a < 256 → b < 256 → c < 256 → d < 256 → P (a ∷ b ∷ c ∷ d ∷ []))
    → (w : Word) → IsWord w
    → P w
as_word P h [] k = absurd (omega (arith, k.0))
as_word P h (a ∷ []) k = absurd (omega (arith, k.0))
as_word P h (a ∷ b ∷ []) k = absurd (omega (arith, k.0))
as_word P h (a ∷ b ∷ c ∷ []) k = absurd (omega (arith, k.0))
as_word P h (a ∷ b ∷ c ∷ d ∷ []) (e, (ha, (hb, (hc, (hd, _))))) = h a b c d ha hb hc hd
as_word P h (a ∷ b ∷ c ∷ d ∷ e ∷ r) k = absurd (omega (arith, k.0))

-- The exclusive or of two words is that of their bytes.
pub le_value-xor :
    (v w : List ℕ)
    → length v ≡ length w
    → All IsByte v
    → All IsByte w
    → bit_xor (le_value v) (le_value w) ≡ le_value (xor v w)
unfolding le_value bytewise
le_value-xor [] [] e h k = refl
le_value-xor [] (b ∷ w) e h k = absurd (omega arith)
le_value-xor (a ∷ v) [] e h k = absurd (omega arith)
le_value-xor (a ∷ v) (b ∷ w) e h k =
    bit_xor_parts 8 a b (le_value v) (le_value w) h.0 k.0
    ∙ ap (λ t. bit_xor a b + 256 * t) (le_value-xor v w (omega arith) h.1 k.1)

byte_xor : (a b : ℕ) → a < 256 → b < 256 → bit_xor a b < 256
byte_xor a b h k = bit_xor-lt 8 a b h k

pub xor-IsWord : (v w : Word) → IsWord v → IsWord w → IsWord (xor v w)
unfolding bytewise
xor-IsWord v w h k =
    as_word (λ v. IsWord (xor v w))
      (λ a b c d ha hb hc hd.
        as_word (λ w. IsWord (xor (a ∷ b ∷ c ∷ d ∷ []) w))
          (λ a' b' c' d' ka kb kc kd. (
            refl,
            (
              byte_xor a a' ha ka,
              (byte_xor b b' hb kb, (byte_xor c c' hc kc, (byte_xor d d' hd kd, tt))),
            ),
          ))
          w k)
      v h

rot_word-IsWord : (w : Word) → IsWord w → IsWord (rot_word w)
rot_word-IsWord w h =
    as_word (λ w. IsWord (rot_word w)) (λ a b c d ha hb hc hd. (refl, (hb, (hc, (hd, (ha, tt)))))) w
      h

-- The bytes of the value of a word.
pub le_bytes-le_value : (w : Word) → IsWord w → le_bytes 4 (le_value w) ≡ w
unfolding le_bytes le_value
le_bytes-le_value w h =
    as_word (λ w. le_bytes 4 (le_value w) ≡ w) (λ a b c d ha hb hc hd. ground arith) w h

-- `(t >> 8) | (t << 24)`
rotated :
    (w : Word)
    → IsWord w
    → bit_or (le_value w / 2 ^ 8) (le_value w * 2 ^ 24 % 2 ^ 32) ≡ le_value (rot_word w)
unfolding le_value
rotated w h =
    as_word
      (λ w. bit_or (le_value w / 2 ^ 8) (le_value w * 2 ^ 24 % 2 ^ 32) ≡ le_value (rot_word w))
      (λ a b c d ha hb hc hd. explicit a b c d ha hb hc hd) w h
  where
    explicit :
        (a b c d : ℕ)
        → a < 256
        → b < 256
        → c < 256
        → d < 256
        → bit_or
            (le_value (a ∷ b ∷ c ∷ d ∷ []) / 2 ^ 8)
            (le_value (a ∷ b ∷ c ∷ d ∷ []) * 2 ^ 24 % 2 ^ 32)
          ≡ le_value (b ∷ c ∷ d ∷ a ∷ [])
    explicit a b c d ha hb hc hd =
        let t = le_value (a ∷ b ∷ c ∷ d ∷ []) in
        let high : t * 2 ^ 24 % 2 ^ 32 ≡ a * 2 ^ 24 = omega arith in
        let low : t / 2 ^ 8 < 2 ^ 24 = omega arith in
        ap (bit_or (t / 2 ^ 8)) high ∙ bit_or_high 24 a (t / 2 ^ 8) low ∙ omega arith

-- The round constants.
rcon-pow : (k : ℕ) → k < 7 → (get_or rcon k 0 ≡ 2 ^ k) × (2 ^ k < 256)
rcon-pow zero h = (refl, omega arith)
rcon-pow (suc zero) h = (refl, omega arith)
rcon-pow (suc (suc zero)) h = (refl, omega arith)
rcon-pow (suc (suc (suc zero))) h = (refl, omega arith)
rcon-pow (suc (suc (suc (suc zero)))) h = (refl, omega arith)
rcon-pow (suc (suc (suc (suc (suc zero))))) h = (refl, omega arith)
rcon-pow (suc (suc (suc (suc (suc (suc zero)))))) h = (refl, omega arith)
rcon-pow (suc (suc (suc (suc (suc (suc (suc k))))))) h = absurd (omega arith)

-- A constant as a word.
abbrev const_word : ℕ → Word
const_word c = c ∷ 0 ∷ 0 ∷ 0 ∷ []

const_word_value : (c : ℕ) → c ≡ le_value (const_word c)
unfolding le_value
const_word_value c = omega arith

module _ {f : Fips} (p : Armv8 f) where
  sub_bytes-IsWord : (w : Word) → IsWord w → IsWord (sub_bytes f w)
  sub_bytes-IsWord w h =
      as_word (λ w. IsWord (sub_bytes f w))
        (λ a b c d _ _ _ _.
          (refl, (f.sbox_byte a, (f.sbox_byte b, (f.sbox_byte c, (f.sbox_byte d, tt))))))
        w h

  -- With all four columns equal, ShiftRows changes nothing: SubBytes is left.
  aes_subword-sub_bytes :
      (w : Word) → IsWord w → aes_subword p (le_value w) ≡ le_value (sub_bytes f w)
  unfolding aes_subword
  aes_subword-sub_bytes w h =
      rw (le_bytes-le_value w h, p.vaese_law)
        (as_word
          (λ w.
            le_value
              (take 4 (shift_rows (sub_bytes f (xor (w ++ (w ++ (w ++ w))) (replicate 16 0)))))
            ≡ le_value (sub_bytes f w))
          (λ a b c d _ _ _ _. unfold bytewise in simp bit_xor-zero) w h)

  const_word-IsWord : (c : ℕ) → c < 256 → IsWord (const_word c)
  const_word-IsWord c h = (refl, (h, (omega arith, (omega arith, (omega arith, tt)))))

  pub key_temp-IsWord : (i : ℕ) (w : Word) → 8 ≤ i → i < 60 → IsWord w → IsWord (key_temp f i w)
  unfolding key_temp
  key_temp-IsWord i w lo hi h = elim (Bool-cases (i % 8 == 0)) [
    | inl e ↦ rw e (
        xor-IsWord (sub_bytes f (rot_word w)) (const_word (2 ^ (i / 8 - 1)))
          (sub_bytes-IsWord (rot_word w) (rot_word-IsWord w h))
          (const_word-IsWord (2 ^ (i / 8 - 1)) (rcon-pow (i / 8 - 1) (omega arith)).1))
    | inr e ↦ elim (Bool-cases (i % 8 == 4)) [
      | inl e' ↦ rw (e, e') (sub_bytes-IsWord w h)
      | inr e' ↦ rw (e, e') h
    ]
  ]

  pub schedule_temp-key_temp :
      (i : ℕ) (w : Word)
      → 8 ≤ i
      → i < 60
      → IsWord w
      → schedule_temp p i (le_value w) ≡ le_value (key_temp f i w)
  unfolding schedule_temp key_temp
  schedule_temp-key_temp i w lo hi h = elim (Bool-cases (i % 8 == 0)) [
    | inl e ↦
        let r = rcon-pow (i / 8 - 1) (omega arith) in
        let s = sub_bytes-IsWord (rot_word w) (rot_word-IsWord w h) in
        let c = const_word-IsWord (2 ^ (i / 8 - 1)) r.1 in
        rw e (
          ap₂ bit_xor
            (ap (aes_subword p) (rotated w h)
              ∙ aes_subword-sub_bytes (rot_word w) (rot_word-IsWord w h))
            (r.0 ∙ const_word_value (2 ^ (i / 8 - 1)))
          ∙ le_value-xor (sub_bytes f (rot_word w)) (const_word (2 ^ (i / 8 - 1)))
              (omega (arith, s.0)) s.1 c.1)
    | inr e ↦ elim (Bool-cases (i % 8 == 4)) [
      | inl e' ↦ rw (e, e') (aes_subword-sub_bytes w h)
      | inr e' ↦ rw (e, e')
    ]
  ]
