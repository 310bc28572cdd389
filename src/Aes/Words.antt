-- ===== src/Aes/Words.antt =====
-- The key schedule of FIPS-197 four words at a time, and what a word takes from the one before it.
use fast_uuid.Common.{
  ℕ, suc, ◌+◌, ◌-◌, ◌/◌, ◌%◌, ◌^◌, ◌<◌, ◌≡◌, refl, arith, true, false, List, [], ◌∷◌, ◌++◌, length,
  All, tabulate, tabulate-get_or, ◌==◌,
}
use mathlib.Core.Path.{subst, sym}
use fast_uuid.Hex.Simd.{Register}
use fast_uuid.Aes.{Fips, Word, xor, rot_word, sub_bytes, key_temp, key_words, words, round_keys}

-- A register is sixteen bytes.
pub as_sixteen :
    (P : Register → Type 0)
    → ((x0 x1 x2 x3 x4 x5 x6 x7 x8 x9 x10 x11 x12 x13 x14 x15 : ℕ)
        → P (
            x0 ∷ x1 ∷ x2 ∷ x3 ∷ x4 ∷ x5 ∷ x6 ∷ x7 ∷ x8 ∷ x9 ∷ x10 ∷ x11 ∷ x12 ∷ x13 ∷ x14 ∷ x15
            ∷ []))
    → (r : Register) → length r ≡ 16
    → P r
unfolding tabulate
as_sixteen P h r e = subst P (sym (tabulate-get_or 16 r 0 e)) (h _ _ _ _ _ _ _ _ _ _ _ _ _ _ _ _)

module _ (f : Fips) where
  pub key_temp_even :
      (i : ℕ) (w : Word)
      → i % 8 ≡ 0
      → key_temp f i w ≡ xor (sub_bytes f (rot_word w)) (2 ^ (i / 8 - 1) ∷ 0 ∷ 0 ∷ 0 ∷ [])
  unfolding key_temp
  key_temp_even i w h = let e : (i % 8 == 0) ≡ true = ground arith in rw e

  pub key_temp_odd : (i : ℕ) (w : Word) → i % 8 ≡ 4 → key_temp f i w ≡ sub_bytes f w
  unfolding key_temp
  key_temp_odd i w h =
      let e : (i % 8 == 0) ≡ false = ground arith in
      let e' : (i % 8 == 4) ≡ true = ground arith in rw (e, e')

  pub key_temp_plain : (i : ℕ) (w : Word) → 0 < i % 4 → key_temp f i w ≡ w
  unfolding key_temp
  key_temp_plain i w h =
      let e : (i % 8 == 0) ≡ false = ground arith in
      let e' : (i % 8 == 4) ≡ false = ground arith in rw (e, e')

  -- Four words from the word `i` on, where `i` is a multiple of 4: each is the word eight before it
  -- and what the word before it gives.
  pub key_words_four :
      (n i : ℕ) (a0 a1 a2 a3 b0 b1 b2 b3 : Word)
      → i % 4 ≡ 0
      → let w0 = xor a0 (key_temp f i b3) in
        let w1 = xor a1 w0 in
        let w2 = xor a2 w1 in
        let w3 = xor a3 w2 in
        key_words f (suc (suc (suc (suc n)))) i (a0 ∷ a1 ∷ a2 ∷ a3 ∷ b0 ∷ b1 ∷ b2 ∷ b3 ∷ [])
        ≡ w0 ∷ w1 ∷ w2 ∷ w3 ∷ key_words f n (i + 4) (b0 ∷ b1 ∷ b2 ∷ b3 ∷ w0 ∷ w1 ∷ w2 ∷ w3 ∷ [])
  unfolding key_words
  key_words_four n i a0 a1 a2 a3 b0 b1 b2 b3 h =
      let e : i + 1 + 1 + 1 + 1 ≡ i + 4 = omega arith in
      rw (
        key_temp_plain (i + 1) _ (omega arith),
        key_temp_plain (i + 1 + 1) _ (omega arith),
        key_temp_plain (i + 1 + 1 + 1) _ (omega arith),
        e,
      )

-- Registers one after the other, as words, are the round keys of these words.
abbrev pub AreRegisters : List Register → Type 0
AreRegisters ks = All (λ k. length k ≡ 16) ks

abbrev pub concat_words : List Register → List Word
concat_words [] = []
concat_words (k ∷ ks) = words 4 k ++ concat_words ks

pub round_keys-concat_words :
    (ks : List Register) → AreRegisters ks → round_keys (length ks) (concat_words ks) ≡ ks
round_keys-concat_words [] h = refl
round_keys-concat_words (k ∷ ks) h =
    as_sixteen (λ k. round_keys (suc (length ks)) (words 4 k ++ concat_words ks) ≡ k ∷ ks)
      (λ x0 x1 x2 x3 x4 x5 x6 x7 x8 x9 x10 x11 x12 x13 x14 x15. rw (round_keys-concat_words ks h.1))
      k h.0
