-- ===== src/Aes/NiExpand.antt =====
-- `fu_aes_expand` of the AES-NI backend makes the round keys of FIPS-197.
use fast_uuid.Common.{
  ℕ, zero, suc, ◌+◌, ◌-◌, ◌/◌, ◌%◌, ◌^◌, ◌≡◌, refl, sym, ap, ◌∙◌, arith, List, [], ◌∷◌, ◌++◌, take,
  drop, length, length-take, length-drop, take-append-drop, take_all,
}
use mathlib.Core.List.{append_assoc}
use mathlib.Core.Path.{ap₂}
use fast_uuid.Hex.Simd.{Register}
use fast_uuid.Aes.{Fips, Word, key_words, words, round_keys, fips_expand}
use fast_uuid.Aes.Words.{as_sixteen, AreRegisters, concat_words, round_keys-concat_words}
use fast_uuid.Aes.Ni.{AesNi, expand_even, expand_odd, aes_expand}
use fast_uuid.Aes.NiSchedule.{even_step, odd_step, length-expand_even, length-expand_odd}

-- The number of words that `r` pairs of macro calls and a last call make.
abbrev word_count : ℕ → ℕ
word_count zero = 4
word_count (suc r) = suc (suc (suc (suc (suc (suc (suc (suc (word_count r))))))))

key_words_none : (f : Fips) (i : ℕ) (ws : List Word) → key_words f 0 i ws ≡ []
unfolding key_words
key_words_none f i ws = refl

-- The two halves of a key as words.
words-halves :
    (a b : Register) → length a ≡ 16 → length b ≡ 16 → words 8 (a ++ b) ≡ words 4 a ++ words 4 b
words-halves a b h k =
    as_sixteen (λ a. words 8 (a ++ b) ≡ words 4 a ++ words 4 b)
      (λ x0 x1 x2 x3 x4 x5 x6 x7 x8 x9 x10 x11 x12 x13 x14 x15. refl) a h

module _ {f : Fips} (i : AesNi f) where
  -- The registers behind `t1` and `t3`.
  abbrev schedule : ℕ → ℕ → Register → Register → List Register
  schedule zero j t1 t3 = expand_even i t1 t3 (2 ^ (j / 8 - 1)) ∷ []
  schedule (suc r) j t1 t3 =
      let e = expand_even i t1 t3 (2 ^ (j / 8 - 1)) in
      let o = expand_odd i t3 e in e ∷ o ∷ schedule r (j + 8) e o

  schedule-AreRegisters :
      (r j : ℕ) (t1 t3 : Register)
      → length t1 ≡ 16
      → length t3 ≡ 16
      → AreRegisters (schedule r j t1 t3)
  schedule-AreRegisters zero j t1 t3 h k = (length-expand_even i t1 t3 _ h k, tt)
  schedule-AreRegisters (suc r) j t1 t3 h k =
      let e = expand_even i t1 t3 (2 ^ (j / 8 - 1)) in
      let he = length-expand_even i t1 t3 (2 ^ (j / 8 - 1)) h k in
      let ho = length-expand_odd i t3 e k he in
      (he, (ho, schedule-AreRegisters r (j + 8) e (expand_odd i t3 e) he ho))

  key_words-schedule :
      (r j : ℕ) (t1 t3 : Register)
      → length t1 ≡ 16
      → length t3 ≡ 16
      → j % 8 ≡ 0
      → key_words f (word_count r) j (words 4 t1 ++ words 4 t3) ≡ concat_words (schedule r j t1 t3)
  key_words-schedule zero j t1 t3 h k e =
      even_step i zero j t1 t3 h k e
      ∙ ap (λ l. words 4 (expand_even i t1 t3 (2 ^ (j / 8 - 1))) ++ l) (key_words_none f (j + 4) _)
  key_words-schedule (suc r) j t1 t3 h k e =
      let t = expand_even i t1 t3 (2 ^ (j / 8 - 1)) in
      let u = expand_odd i t3 t in
      let ht = length-expand_even i t1 t3 (2 ^ (j / 8 - 1)) h k in
      let hu = length-expand_odd i t3 t k ht in
      let later : j + 4 + 4 ≡ j + 8 = omega arith in
      even_step i (suc (suc (suc (suc (word_count r))))) j t1 t3 h k e
      ∙ ap (λ l. words 4 t ++ l)
          (odd_step i (word_count r) (j + 4) t3 t k ht (omega arith)
            ∙ ap (λ l. words 4 u ++ l)
                (ap (λ m. key_words f (word_count r) m (words 4 t ++ words 4 u)) later
                  ∙ key_words-schedule r (j + 8) t u ht hu (omega arith)))

  -- For a key of 32 bytes.
  pub aes_expand-fips : (key : List ℕ) → length key ≡ 32 → aes_expand i key ≡ fips_expand f key
  unfolding aes_expand fips_expand
  aes_expand-fips key h =
      let a = take 16 key in
      let b = take 16 (drop 16 key) in
      let ha : length a ≡ 16 = omega (arith, length-take 16 key) in
      let hb : length b ≡ 16 = omega (arith, length-take 16 (drop 16 key), length-drop 16 key) in
      let whole : a ++ b ≡ key =
        ap (λ t. a ++ t) (take_all 16 (drop 16 key) (omega (arith, length-drop 16 key)))
        ∙ take-append-drop 16 key in
      let ks = a ∷ b ∷ schedule 6 8 a b in
      sym (round_keys-concat_words ks (ha, (hb, schedule-AreRegisters 6 8 a b ha hb)))
      ∙ ap (round_keys 15) (
          sym (append_assoc (words 4 a) (words 4 b) (concat_words (schedule 6 8 a b)))
          ∙ ap₂ (λ s t. s ++ t) (sym (words-halves a b ha hb))
              (sym (key_words-schedule 6 8 a b ha hb refl)
                ∙ ap (key_words f 52 8) (sym (words-halves a b ha hb)))
          ∙ ap (λ k. words 8 k ++ key_words f 52 8 (words 8 k)) whole)
