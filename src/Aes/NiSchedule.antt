-- ===== src/Aes/NiSchedule.antt =====
-- The key schedule of the AES-NI backend is that of FIPS-197.
use fast_uuid.Common.{ℕ, suc, ◌+◌, ◌-◌, ◌/◌, ◌%◌, ◌^◌, ◌≡◌, arith, [], ◌∷◌, ◌++◌, length}
use fast_uuid.Common.Bits.Xor.{bit_xor-zero, bit_xor_assoc}
use fast_uuid.Hex.Simd.{Register, bytewise}
use fast_uuid.Aes.{Fips, Word, xor, rot_word, sub_bytes, key_words, words}
use fast_uuid.Aes.Words.{as_sixteen, key_temp_even, key_temp_odd, key_words_four}
use fast_uuid.Aes.Ni.{AesNi, dword, expand_even, expand_odd}

-- Four words in a row, of which each is combined with the one before it.
abbrev chained : Register → Word → Register
chained a t =
    let w0 = xor (dword 0 a) t in
    let w1 = xor (dword 1 a) w0 in
    let w2 = xor (dword 2 a) w1 in let w3 = xor (dword 3 a) w2 in w0 ++ (w1 ++ (w2 ++ w3))

module _ {f : Fips} (i : AesNi f) where
  even_explicit :
      (a0 a1 a2 a3 a4 a5 a6 a7 a8 a9 a10 a11 a12 a13 a14 a15 : ℕ)
      (b0 b1 b2 b3 b4 b5 b6 b7 b8 b9 b10 b11 b12 b13 b14 b15 : ℕ) (rc : ℕ)
      → expand_even i
          (a0 ∷ a1 ∷ a2 ∷ a3 ∷ a4 ∷ a5 ∷ a6 ∷ a7 ∷ a8 ∷ a9 ∷ a10 ∷ a11 ∷ a12 ∷ a13 ∷ a14 ∷ a15 ∷ [])
          (b0 ∷ b1 ∷ b2 ∷ b3 ∷ b4 ∷ b5 ∷ b6 ∷ b7 ∷ b8 ∷ b9 ∷ b10 ∷ b11 ∷ b12 ∷ b13 ∷ b14 ∷ b15 ∷ [])
          rc
        ≡ chained
            (a0 ∷ a1 ∷ a2 ∷ a3 ∷ a4 ∷ a5 ∷ a6 ∷ a7 ∷ a8 ∷ a9 ∷ a10 ∷ a11 ∷ a12 ∷ a13 ∷ a14 ∷ a15
              ∷ [])
            (xor (sub_bytes f (rot_word (b12 ∷ b13 ∷ b14 ∷ b15 ∷ []))) (rc ∷ 0 ∷ 0 ∷ 0 ∷ []))
  unfolding expand_even bytewise
  even_explicit a0 a1 a2 a3 a4 a5 a6 a7 a8 a9 a10 a11 a12 a13 a14 a15 b0 b1 b2 b3 b4 b5 b6 b7 b8 b9
        b10 b11 b12 b13 b14 b15 rc =
      simp (i.xor_law, i.slli_law, i.shuffle_law, i.keygenassist_law, bit_xor-zero, bit_xor_assoc)

  odd_explicit :
      (a0 a1 a2 a3 a4 a5 a6 a7 a8 a9 a10 a11 a12 a13 a14 a15 : ℕ)
      (b0 b1 b2 b3 b4 b5 b6 b7 b8 b9 b10 b11 b12 b13 b14 b15 : ℕ)
      → expand_odd i
          (a0 ∷ a1 ∷ a2 ∷ a3 ∷ a4 ∷ a5 ∷ a6 ∷ a7 ∷ a8 ∷ a9 ∷ a10 ∷ a11 ∷ a12 ∷ a13 ∷ a14 ∷ a15 ∷ [])
          (b0 ∷ b1 ∷ b2 ∷ b3 ∷ b4 ∷ b5 ∷ b6 ∷ b7 ∷ b8 ∷ b9 ∷ b10 ∷ b11 ∷ b12 ∷ b13 ∷ b14 ∷ b15 ∷ [])
        ≡ chained
            (a0 ∷ a1 ∷ a2 ∷ a3 ∷ a4 ∷ a5 ∷ a6 ∷ a7 ∷ a8 ∷ a9 ∷ a10 ∷ a11 ∷ a12 ∷ a13 ∷ a14 ∷ a15
              ∷ [])
            (sub_bytes f (b12 ∷ b13 ∷ b14 ∷ b15 ∷ []))
  unfolding expand_odd bytewise
  odd_explicit a0 a1 a2 a3 a4 a5 a6 a7 a8 a9 a10 a11 a12 a13 a14 a15 b0 b1 b2 b3 b4 b5 b6 b7 b8 b9
        b10 b11 b12 b13 b14 b15 =
      simp (i.xor_law, i.slli_law, i.shuffle_law, i.keygenassist_law, bit_xor-zero, bit_xor_assoc)

  even_step_explicit :
      (n j : ℕ) (a0 a1 a2 a3 a4 a5 a6 a7 a8 a9 a10 a11 a12 a13 a14 a15 : ℕ)
      (b0 b1 b2 b3 b4 b5 b6 b7 b8 b9 b10 b11 b12 b13 b14 b15 : ℕ)
      → j % 8 ≡ 0
      → let t =
          expand_even i
            (a0 ∷ a1 ∷ a2 ∷ a3 ∷ a4 ∷ a5 ∷ a6 ∷ a7 ∷ a8 ∷ a9 ∷ a10 ∷ a11 ∷ a12 ∷ a13 ∷ a14 ∷ a15
              ∷ [])
            (b0 ∷ b1 ∷ b2 ∷ b3 ∷ b4 ∷ b5 ∷ b6 ∷ b7 ∷ b8 ∷ b9 ∷ b10 ∷ b11 ∷ b12 ∷ b13 ∷ b14 ∷ b15
              ∷ [])
            (2 ^ (j / 8 - 1)) in
        key_words f (suc (suc (suc (suc n)))) j (
          words 4 (
            a0 ∷ a1 ∷ a2 ∷ a3 ∷ a4 ∷ a5 ∷ a6 ∷ a7 ∷ a8 ∷ a9 ∷ a10 ∷ a11 ∷ a12 ∷ a13 ∷ a14 ∷ a15
            ∷ [])
          ++ words 4 (
              b0 ∷ b1 ∷ b2 ∷ b3 ∷ b4 ∷ b5 ∷ b6 ∷ b7 ∷ b8 ∷ b9 ∷ b10 ∷ b11 ∷ b12 ∷ b13 ∷ b14 ∷ b15
              ∷ []))
        ≡ words 4 t
          ++ key_words f n (j + 4) (
              words 4 (
                b0 ∷ b1 ∷ b2 ∷ b3 ∷ b4 ∷ b5 ∷ b6 ∷ b7 ∷ b8 ∷ b9 ∷ b10 ∷ b11 ∷ b12 ∷ b13 ∷ b14 ∷ b15
                ∷ [])
              ++ words 4 t)
  unfolding bytewise
  even_step_explicit n j a0 a1 a2 a3 a4 a5 a6 a7 a8 a9 a10 a11 a12 a13 a14 a15 b0 b1 b2 b3 b4 b5 b6
        b7 b8 b9 b10 b11 b12 b13 b14 b15 h =
      rw (
        even_explicit a0 a1 a2 a3 a4 a5 a6 a7 a8 a9 a10 a11 a12 a13 a14 a15 b0 b1 b2 b3 b4 b5 b6 b7
            b8 b9 b10 b11 b12 b13 b14 b15 (2 ^ (j / 8 - 1)),
        key_words_four f n j (a0 ∷ a1 ∷ a2 ∷ a3 ∷ []) (a4 ∷ a5 ∷ a6 ∷ a7 ∷ [])
            (a8 ∷ a9 ∷ a10 ∷ a11 ∷ []) (a12 ∷ a13 ∷ a14 ∷ a15 ∷ []) (b0 ∷ b1 ∷ b2 ∷ b3 ∷ [])
            (b4 ∷ b5 ∷ b6 ∷ b7 ∷ []) (b8 ∷ b9 ∷ b10 ∷ b11 ∷ []) (b12 ∷ b13 ∷ b14 ∷ b15 ∷ [])
            (omega arith),
        key_temp_even f j (b12 ∷ b13 ∷ b14 ∷ b15 ∷ []) h,
      )

  odd_step_explicit :
      (n j : ℕ) (a0 a1 a2 a3 a4 a5 a6 a7 a8 a9 a10 a11 a12 a13 a14 a15 : ℕ)
      (b0 b1 b2 b3 b4 b5 b6 b7 b8 b9 b10 b11 b12 b13 b14 b15 : ℕ)
      → j % 8 ≡ 4
      → let t =
          expand_odd i
            (a0 ∷ a1 ∷ a2 ∷ a3 ∷ a4 ∷ a5 ∷ a6 ∷ a7 ∷ a8 ∷ a9 ∷ a10 ∷ a11 ∷ a12 ∷ a13 ∷ a14 ∷ a15
              ∷ [])
            (b0 ∷ b1 ∷ b2 ∷ b3 ∷ b4 ∷ b5 ∷ b6 ∷ b7 ∷ b8 ∷ b9 ∷ b10 ∷ b11 ∷ b12 ∷ b13 ∷ b14 ∷ b15
              ∷ []) in
        key_words f (suc (suc (suc (suc n)))) j (
          words 4 (
            a0 ∷ a1 ∷ a2 ∷ a3 ∷ a4 ∷ a5 ∷ a6 ∷ a7 ∷ a8 ∷ a9 ∷ a10 ∷ a11 ∷ a12 ∷ a13 ∷ a14 ∷ a15
            ∷ [])
          ++ words 4 (
              b0 ∷ b1 ∷ b2 ∷ b3 ∷ b4 ∷ b5 ∷ b6 ∷ b7 ∷ b8 ∷ b9 ∷ b10 ∷ b11 ∷ b12 ∷ b13 ∷ b14 ∷ b15
              ∷ []))
        ≡ words 4 t
          ++ key_words f n (j + 4) (
              words 4 (
                b0 ∷ b1 ∷ b2 ∷ b3 ∷ b4 ∷ b5 ∷ b6 ∷ b7 ∷ b8 ∷ b9 ∷ b10 ∷ b11 ∷ b12 ∷ b13 ∷ b14 ∷ b15
                ∷ [])
              ++ words 4 t)
  unfolding bytewise
  odd_step_explicit n j a0 a1 a2 a3 a4 a5 a6 a7 a8 a9 a10 a11 a12 a13 a14 a15 b0 b1 b2 b3 b4 b5 b6
        b7 b8 b9 b10 b11 b12 b13 b14 b15 h =
      rw (
        odd_explicit a0 a1 a2 a3 a4 a5 a6 a7 a8 a9 a10 a11 a12 a13 a14 a15 b0 b1 b2 b3 b4 b5 b6 b7
            b8 b9 b10 b11 b12 b13 b14 b15,
        key_words_four f n j (a0 ∷ a1 ∷ a2 ∷ a3 ∷ []) (a4 ∷ a5 ∷ a6 ∷ a7 ∷ [])
            (a8 ∷ a9 ∷ a10 ∷ a11 ∷ []) (a12 ∷ a13 ∷ a14 ∷ a15 ∷ []) (b0 ∷ b1 ∷ b2 ∷ b3 ∷ [])
            (b4 ∷ b5 ∷ b6 ∷ b7 ∷ []) (b8 ∷ b9 ∷ b10 ∷ b11 ∷ []) (b12 ∷ b13 ∷ b14 ∷ b15 ∷ [])
            (omega arith),
        key_temp_odd f j (b12 ∷ b13 ∷ b14 ∷ b15 ∷ []) h,
      )

  pub length-expand_even :
      (t1 t3 : Register) (rc : ℕ)
      → length t1 ≡ 16
      → length t3 ≡ 16
      → length (expand_even i t1 t3 rc) ≡ 16
  unfolding bytewise
  length-expand_even t1 t3 rc h k =
      as_sixteen (λ t1. length (expand_even i t1 t3 rc) ≡ 16)
        (λ a0 a1 a2 a3 a4 a5 a6 a7 a8 a9 a10 a11 a12 a13 a14 a15.
          as_sixteen
            (λ t3.
              length (
                expand_even i
                  (a0 ∷ a1 ∷ a2 ∷ a3 ∷ a4 ∷ a5 ∷ a6 ∷ a7 ∷ a8 ∷ a9 ∷ a10 ∷ a11 ∷ a12 ∷ a13 ∷ a14
                    ∷ a15 ∷ [])
                  t3 rc)
              ≡ 16)
            (λ b0 b1 b2 b3 b4 b5 b6 b7 b8 b9 b10 b11 b12 b13 b14 b15. rw (
              even_explicit a0 a1 a2 a3 a4 a5 a6 a7 a8 a9 a10 a11 a12 a13 a14 a15 b0 b1 b2 b3 b4 b5
                b6 b7 b8 b9 b10 b11 b12 b13 b14 b15 rc))
            t3 k)
        t1 h

  pub length-expand_odd :
      (t3 t1 : Register) → length t3 ≡ 16 → length t1 ≡ 16 → length (expand_odd i t3 t1) ≡ 16
  unfolding bytewise
  length-expand_odd t3 t1 h k =
      as_sixteen (λ t3. length (expand_odd i t3 t1) ≡ 16)
        (λ a0 a1 a2 a3 a4 a5 a6 a7 a8 a9 a10 a11 a12 a13 a14 a15.
          as_sixteen
            (λ t1.
              length (
                expand_odd i
                  (a0 ∷ a1 ∷ a2 ∷ a3 ∷ a4 ∷ a5 ∷ a6 ∷ a7 ∷ a8 ∷ a9 ∷ a10 ∷ a11 ∷ a12 ∷ a13 ∷ a14
                    ∷ a15 ∷ [])
                  t1)
              ≡ 16)
            (λ b0 b1 b2 b3 b4 b5 b6 b7 b8 b9 b10 b11 b12 b13 b14 b15. rw (
              odd_explicit a0 a1 a2 a3 a4 a5 a6 a7 a8 a9 a10 a11 a12 a13 a14 a15 b0 b1 b2 b3 b4 b5
                b6 b7 b8 b9 b10 b11 b12 b13 b14 b15))
            t1 k)
        t3 h

  -- One call of the macro makes the next four words.
  pub even_step :
      (n j : ℕ) (t1 t3 : Register)
      → length t1 ≡ 16
      → length t3 ≡ 16
      → j % 8 ≡ 0
      → let t = expand_even i t1 t3 (2 ^ (j / 8 - 1)) in
        key_words f (suc (suc (suc (suc n)))) j (words 4 t1 ++ words 4 t3)
        ≡ words 4 t ++ key_words f n (j + 4) (words 4 t3 ++ words 4 t)
  even_step n j t1 t3 h k e =
      as_sixteen
        (λ t1.
          let t = expand_even i t1 t3 (2 ^ (j / 8 - 1)) in
          key_words f (suc (suc (suc (suc n)))) j (words 4 t1 ++ words 4 t3)
          ≡ words 4 t ++ key_words f n (j + 4) (words 4 t3 ++ words 4 t))
        (λ a0 a1 a2 a3 a4 a5 a6 a7 a8 a9 a10 a11 a12 a13 a14 a15.
          as_sixteen
            (λ t3.
              let t =
                expand_even i
                  (a0 ∷ a1 ∷ a2 ∷ a3 ∷ a4 ∷ a5 ∷ a6 ∷ a7 ∷ a8 ∷ a9 ∷ a10 ∷ a11 ∷ a12 ∷ a13 ∷ a14
                    ∷ a15 ∷ [])
                  t3 (2 ^ (j / 8 - 1)) in
              key_words f (suc (suc (suc (suc n)))) j (
                words 4 (
                  a0 ∷ a1 ∷ a2 ∷ a3 ∷ a4 ∷ a5 ∷ a6 ∷ a7 ∷ a8 ∷ a9 ∷ a10 ∷ a11 ∷ a12 ∷ a13 ∷ a14
                  ∷ a15 ∷ [])
                ++ words 4 t3)
              ≡ words 4 t ++ key_words f n (j + 4) (words 4 t3 ++ words 4 t))
            (λ b0 b1 b2 b3 b4 b5 b6 b7 b8 b9 b10 b11 b12 b13 b14 b15.
              even_step_explicit n j a0 a1 a2 a3 a4 a5 a6 a7 a8 a9 a10 a11 a12 a13 a14 a15 b0 b1 b2
                b3 b4 b5 b6 b7 b8 b9 b10 b11 b12 b13 b14 b15 e)
            t3 k)
        t1 h

  -- One call of the macro makes the next four words.
  pub odd_step :
      (n j : ℕ) (t3 t1 : Register)
      → length t3 ≡ 16
      → length t1 ≡ 16
      → j % 8 ≡ 4
      → let t = expand_odd i t3 t1 in
        key_words f (suc (suc (suc (suc n)))) j (words 4 t3 ++ words 4 t1)
        ≡ words 4 t ++ key_words f n (j + 4) (words 4 t1 ++ words 4 t)
  odd_step n j t3 t1 h k e =
      as_sixteen
        (λ t3.
          let t = expand_odd i t3 t1 in
          key_words f (suc (suc (suc (suc n)))) j (words 4 t3 ++ words 4 t1)
          ≡ words 4 t ++ key_words f n (j + 4) (words 4 t1 ++ words 4 t))
        (λ a0 a1 a2 a3 a4 a5 a6 a7 a8 a9 a10 a11 a12 a13 a14 a15.
          as_sixteen
            (λ t1.
              let t =
                expand_odd i
                  (a0 ∷ a1 ∷ a2 ∷ a3 ∷ a4 ∷ a5 ∷ a6 ∷ a7 ∷ a8 ∷ a9 ∷ a10 ∷ a11 ∷ a12 ∷ a13 ∷ a14
                    ∷ a15 ∷ [])
                  t1 in
              key_words f (suc (suc (suc (suc n)))) j (
                words 4 (
                  a0 ∷ a1 ∷ a2 ∷ a3 ∷ a4 ∷ a5 ∷ a6 ∷ a7 ∷ a8 ∷ a9 ∷ a10 ∷ a11 ∷ a12 ∷ a13 ∷ a14
                  ∷ a15 ∷ [])
                ++ words 4 t1)
              ≡ words 4 t ++ key_words f n (j + 4) (words 4 t1 ++ words 4 t))
            (λ b0 b1 b2 b3 b4 b5 b6 b7 b8 b9 b10 b11 b12 b13 b14 b15.
              odd_step_explicit n j a0 a1 a2 a3 a4 a5 a6 a7 a8 a9 a10 a11 a12 a13 a14 a15 b0 b1 b2
                b3 b4 b5 b6 b7 b8 b9 b10 b11 b12 b13 b14 b15 e)
            t1 k)
        t3 h
