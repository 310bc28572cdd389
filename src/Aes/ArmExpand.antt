-- ===== src/Aes/ArmExpand.antt =====
-- `fu_aes_expand` of the ARMv8 backend makes the round keys of FIPS-197.
use fast_uuid.Common.{
  ℕ, zero, suc, ◌+◌, ◌-◌, ◌*◌, ◌<◌, ◌≤◌, ◌≡◌, refl, sym, ap, ◌∙◌, arith, List, [], ◌∷◌, ◌++◌, map,
  take, drop, get_or, length, length-append, length-take, length-drop, tabulate, tabulate-get_or,
  All, IsByte, bit_xor,
}
use mathlib.Core.List.{append_assoc}
use mathlib.Core.Path.{ap₂, subst}
use fast_uuid.Ctr.{le_value}
use fast_uuid.Random.Valid.{All-take, All-drop}
use fast_uuid.Aes.{Fips, Word, xor, key_temp, key_words, words, round_keys, fips_expand}
use fast_uuid.Aes.Armv8.{Armv8, load_words, load_keys, schedule_temp, schedule_loop, armv8_expand}
use fast_uuid.Aes.ArmSchedule.{
  IsWord, xor-IsWord, le_bytes-le_value, le_value-xor, key_temp-IsWord, schedule_temp-key_temp,
}

-- An entry of the second list.
get_or-append_at :
    (xs ys : List ℕ) (n j k : ℕ) → length xs ≡ n → k ≡ n + j → get_or (xs ++ ys) k 0 ≡ get_or ys j 0
get_or-append_at [] ys n j k h e = ap (λ m. get_or ys m 0) (omega arith)
get_or-append_at (x ∷ xs) ys n j zero h e = absurd (omega arith)
get_or-append_at (x ∷ xs) ys n j (suc k) h e =
    get_or-append_at xs ys (n - 1) j k (omega arith) (omega arith)

abbrev AreWords : List Word → Type 0
AreWords ws = All IsWord ws

load_words-words : (n : ℕ) (key : List ℕ) → load_words n key ≡ map le_value (words n key)
load_words-words zero key = refl
load_words-words (suc n) key = ap (λ t. le_value (take 4 key) ∷ t) (load_words-words n (drop 4 key))

words-AreWords :
    (n : ℕ) (key : List ℕ)
    → length key ≡ 4 * n
    → All IsByte key
    → AreWords (words n key) × (length (words n key) ≡ n)
words-AreWords zero key h b = (tt, refl)
words-AreWords (suc n) key h b =
    let rest =
      words-AreWords n (drop 4 key) (omega (arith, length-drop 4 key)) (All-drop 4 key b) in
    (((omega (arith, length-take 4 key), All-take 4 key b), rest.0), ap suc rest.1)

load_keys-round_keys :
    (n : ℕ) (ws : List Word)
    → AreWords ws
    → length ws ≡ 4 * n
    → load_keys n (map le_value ws) ≡ round_keys n ws
load_keys-round_keys zero ws h e = refl
load_keys-round_keys (suc n) [] h e = absurd (omega arith)
load_keys-round_keys (suc n) (a ∷ []) h e = absurd (omega arith)
load_keys-round_keys (suc n) (a ∷ b ∷ []) h e = absurd (omega arith)
load_keys-round_keys (suc n) (a ∷ b ∷ c ∷ []) h e = absurd (omega arith)
load_keys-round_keys (suc n) (a ∷ b ∷ c ∷ d ∷ ws) (ha, (hb, (hc, (hd, hs)))) e = rw (
  le_bytes-le_value a ha,
  le_bytes-le_value b hb,
  le_bytes-le_value c hc,
  le_bytes-le_value d hd,
  load_keys-round_keys n ws hs (omega arith),
)

-- A list of eight entries.
as_eight :
    (P : List Word → Type 0)
    → ((a b c d e f g h : Word) → P (a ∷ b ∷ c ∷ d ∷ e ∷ f ∷ g ∷ h ∷ []))
    → (ws : List Word) → length ws ≡ 8
    → P ws
unfolding tabulate
as_eight P h ws e = subst P (sym (tabulate-get_or 8 ws [] e)) (h _ _ _ _ _ _ _ _)

AreWords-append : (vs ws : List Word) → AreWords vs → AreWords ws → AreWords (vs ++ ws)
AreWords-append [] ws h k = k
AreWords-append (v ∷ vs) ws (a, h) k = (a, AreWords-append vs ws h k)

module _ {f : Fips} (p : Armv8 f) where
  -- A round of the loop: the array is `front` and the last eight words.
  schedule_round :
      (n i : ℕ) (front : List ℕ) (w0 w1 w2 w3 w4 w5 w6 w7 : Word)
      → length front + 8 ≡ i
      → i < 60
      → IsWord w0
      → IsWord w7
      → let w = xor w0 (key_temp f i w7) in
        schedule_loop p
          (suc n)
          i
          (front ++ map le_value (w0 ∷ w1 ∷ w2 ∷ w3 ∷ w4 ∷ w5 ∷ w6 ∷ w7 ∷ []))
        ≡ schedule_loop p n (i + 1) (
            (front ++ le_value w0 ∷ []) ++ map le_value (w1 ∷ w2 ∷ w3 ∷ w4 ∷ w5 ∷ w6 ∷ w7 ∷ w ∷ []))
  unfolding schedule_loop
  schedule_round n i front w0 w1 w2 w3 w4 w5 w6 w7 e hi h0 h7 =
      let ws = map le_value (w0 ∷ w1 ∷ w2 ∷ w3 ∷ w4 ∷ w5 ∷ w6 ∷ w7 ∷ []) in
      let t = key_temp f i w7 in
      let k = key_temp-IsWord p i w7 (omega arith) hi h7 in
      let first = get_or-append_at front ws (length front) 0 (i - 8) refl (omega arith) in
      let last = get_or-append_at front ws (length front) 7 (i - 1) refl (omega arith) in
      ap (schedule_loop p n (i + 1)) (
        ap (λ x. (front ++ ws) ++ x ∷ [])
          (ap₂ bit_xor first
              (ap (schedule_temp p i) last ∙ schedule_temp-key_temp p i w7 (omega arith) hi h7)
            ∙ le_value-xor w0 t (omega (arith, h0.0, k.0)) h0.1 k.1)
        ∙ append_assoc front ws _
        ∙ sym (append_assoc front (le_value w0 ∷ []) _))

  schedule_loop-key_words :
      (n i : ℕ) (front : List ℕ) (w0 w1 w2 w3 w4 w5 w6 w7 : Word)
      → length front + 8 ≡ i
      → i + n ≤ 60
      → AreWords (w0 ∷ w1 ∷ w2 ∷ w3 ∷ w4 ∷ w5 ∷ w6 ∷ w7 ∷ [])
      → let ws = w0 ∷ w1 ∷ w2 ∷ w3 ∷ w4 ∷ w5 ∷ w6 ∷ w7 ∷ [] in
        schedule_loop p n i (front ++ map le_value ws)
        ≡ front ++ map le_value (ws ++ key_words f n i ws)
  unfolding schedule_loop key_words
  schedule_loop-key_words zero i front w0 w1 w2 w3 w4 w5 w6 w7 e hi h = refl
  schedule_loop-key_words (suc n) i front w0 w1 w2 w3 w4 w5 w6 w7 e hi h =
      let (h0, (h1, (h2, (h3, (h4, (h5, (h6, (h7, _)))))))) = h in
      let w = xor w0 (key_temp f i w7) in
      let hw =
        xor-IsWord w0 (key_temp f i w7) h0
          (key_temp-IsWord p i w7 (omega arith) (omega arith) h7) in
      schedule_round n i front w0 w1 w2 w3 w4 w5 w6 w7 e (omega arith) h0 h7
      ∙ schedule_loop-key_words n (i + 1) (front ++ le_value w0 ∷ []) w1 w2 w3 w4 w5 w6 w7 w
          (omega (arith, length-append front (le_value w0 ∷ []))) (omega arith)
          (h1, (h2, (h3, (h4, (h5, (h6, (h7, (hw, tt))))))))
      ∙ append_assoc front (le_value w0 ∷ []) _

  key_words-AreWords :
      (n i : ℕ) (w0 w1 w2 w3 w4 w5 w6 w7 : Word)
      → 8 ≤ i
      → i + n ≤ 60
      → AreWords (w0 ∷ w1 ∷ w2 ∷ w3 ∷ w4 ∷ w5 ∷ w6 ∷ w7 ∷ [])
      → let ws = key_words f n i (w0 ∷ w1 ∷ w2 ∷ w3 ∷ w4 ∷ w5 ∷ w6 ∷ w7 ∷ []) in
        AreWords ws × (length ws ≡ n)
  unfolding key_words
  key_words-AreWords zero i w0 w1 w2 w3 w4 w5 w6 w7 lo hi h = (tt, refl)
  key_words-AreWords (suc n) i w0 w1 w2 w3 w4 w5 w6 w7 lo hi h =
      let (h0, (h1, (h2, (h3, (h4, (h5, (h6, (h7, _)))))))) = h in
      let w = xor w0 (key_temp f i w7) in
      let hw = xor-IsWord w0 (key_temp f i w7) h0 (key_temp-IsWord p i w7 lo (omega arith) h7) in
      let rest =
        key_words-AreWords n (i + 1) w1 w2 w3 w4 w5 w6 w7 w (omega arith) (omega arith)
          (h1, (h2, (h3, (h4, (h5, (h6, (h7, (hw, tt)))))))) in
      ((hw, rest.0), ap suc rest.1)

  -- From the eight words of the key on.
  schedule-round_keys :
      (ws : List Word)
      → length ws ≡ 8
      → AreWords ws
      → load_keys 15 (schedule_loop p 52 8 (map le_value ws))
        ≡ round_keys 15 (ws ++ key_words f 52 8 ws)
  schedule-round_keys ws e h =
      as_eight
        (λ ws.
          AreWords ws
          → load_keys 15 (schedule_loop p 52 8 (map le_value ws))
            ≡ round_keys 15 (ws ++ key_words f 52 8 ws))
        (λ a b c d x y z u h.
          let eight = a ∷ b ∷ c ∷ d ∷ x ∷ y ∷ z ∷ u ∷ [] in
          let (made, count) =
            key_words-AreWords 52 8 a b c d x y z u (omega arith) (omega arith) h in
          ap (load_keys 15) (schedule_loop-key_words 52 8 [] a b c d x y z u refl (omega arith) h)
          ∙ load_keys-round_keys 15 (eight ++ key_words f 52 8 eight)
              (AreWords-append eight (key_words f 52 8 eight) h made) (omega (arith, count)))
        ws e h

  -- For a key of 32 bytes.
  pub armv8_expand-fips :
      (key : List ℕ) → length key ≡ 32 → All IsByte key → armv8_expand p key ≡ fips_expand f key
  unfolding armv8_expand fips_expand
  armv8_expand-fips key e b =
      let (h, n) = words-AreWords 8 key e b in
      ap (λ w. load_keys 15 (schedule_loop p 52 8 w)) (load_words-words 8 key)
      ∙ schedule-round_keys (words 8 key) n h
